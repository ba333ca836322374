-- ===== src/Edge/CallTests.antt =====
-- The calls on concrete inputs (internal/edge/dialog.go).
use freesbc.Base.{
  ℕ, ◌<◌, String, ◌≡◌, refl, sym, ◌≢◌, true, false, ◌||◌, none, some, [], ◌∷◌, arith,
}
use freesbc.Base.Assoc.{find, put}
use freesbc.Edge.Dialogs.{
  group, Plane, plane_public, DialogRoute, no_route, Dialog, DialogTable, Invite, new_dialog_table,
  begin, close, end_shutdown, same,
}
use freesbc.Edge.Dialogs.Search.{is_dialog_of, lookup}
use freesbc.Edge.Dialogs
use freesbc.Edge.Dialogs.Calls.{
  lay_down, finish, listed_refs, attach, track, cancel_by_caller, cancel_backstop, cancel_series,
  mark_sent, confirm,
}
use freesbc.Edge.Dialogs.Reach.{
  begins, acts, confirms, finishes, closes, Steps, stays, goes, run_method, attach_of, track_of,
  cancel_of, Exact, Steps-Exact,
}
use freesbc.Edge.Dialogs.Over.{is_over, Steps-refused, lay_down-once}
use freesbc.Edge.Dialogs.Race.{cancel_series-mark_sent}
use freesbc.Edge.Dialogs.Listed.{occurs, Lists, Steps-Lists}
use freesbc.Edge.Dialogs.Lookups.{Answers, Live, lookup-Live, lookup-finds}
use freesbc.Edge.Dialogs.Shutdown.{
  AllEnded, CloseAll, all_ended, ends_next, meanwhile, CloseAll-empties,
}
use mathlib.Core.Path.{subst}

-- One call: its INVITE, the media, the answer, and the end.
abbrev invite : Invite
invite = record { call_id = "c1"; from_tag = "a"; from_uri = "sip:a"; to_uri = "sip:b"; cseq = 1 }

abbrev opened_call : DialogTable
opened_call = (begin invite plane_public 10 new_dialog_table).0

abbrev with_media : DialogTable
with_media = run_method (attach_of 0 7) opened_call

abbrev up_call : DialogTable
up_call = (confirm 50 0 "b" no_route with_media).0

to_opened : Steps 10 new_dialog_table opened_call
to_opened =
    goes (stays new_dialog_table)
      (begins invite plane_public 10 new_dialog_table (λ pos. (omega arith, omega arith)))

to_media : Steps 10 new_dialog_table with_media
to_media = goes to_opened (acts (attach_of 0 7) opened_call)

one_begun : 0 < with_media.next
unfolding begin run_method attach find
one_begun = omega arith

to_up : Steps 10 new_dialog_table up_call
to_up = goes to_media (confirms 50 0 "b" no_route with_media one_begun)

Steps-Exact_example : Exact 10 up_call
Steps-Exact_example = Steps-Exact 10 up_call to_up

Steps-Lists_example : Lists up_call
Steps-Lists_example = Steps-Lists 10 up_call to_up

up_found : lookup "c1" "b" "a" up_call ≡ some (0, false)
unfolding begin run_method attach confirm lookup find put
up_found = refl

lookup-Live_example : Answers up_call "c1" "b" "a" 0 false
lookup-Live_example = lookup-Live 10 up_call "c1" "b" "a" 0 false to_up up_found

up-Live :
    Live "c1" 0 up_call
    × (is_dialog_of "b" "a" (up_call.store 0) ≡ true)
    × (same "b" "" || same "a" "" ≡ false)
unfolding begin run_method attach confirm find put
up-Live = ((omega arith, refl, refl), refl, refl)

lookup-finds_example : lookup "c1" "b" "a" up_call ≢ none
lookup-finds_example = lookup-finds 10 up_call "c1" "b" "a" 0 to_up up-Live.2 up-Live.0 up-Live.1

-- The shutdown ends it; the end of its media comes between.
abbrev shut : DialogTable
shut = close up_call

abbrev all_down : DialogTable
all_down = finish 0 (lay_down 0 end_shutdown shut).0

one_listed : (listed_refs shut.by_call_id ≡ 0 ∷ []) × (0 < shut.next)
unfolding begin run_method attach confirm find put
one_listed = (refl, omega arith)

shut_down : CloseAll 10 (listed_refs shut.by_call_id) shut all_down
shut_down =
    subst (λ rs. CloseAll 10 rs shut all_down) (sym one_listed.0)
      (ends_next 0 shut one_listed.1
        (meanwhile (finishes 0 (lay_down 0 end_shutdown shut).0) (all_ended all_down)))

CloseAll-empties_example :
    AllEnded all_down
    × ((k : String) (r : ℕ) → occurs r (group k all_down) ≡ 0)
    × (all_down.sessions ≡ 0)
    × (all_down.pending ≡ [] → all_down.gauge ≡ 0)
CloseAll-empties_example =
    CloseAll-empties 10 shut all_down (goes to_up (closes up_call)) refl shut_down

-- The same call, cancelled while its INVITE is being sent.
abbrev sending : DialogTable
sending = run_method (track_of 0 4) with_media

abbrev given_up : DialogTable
given_up = run_method (cancel_of 0 cancel_by_caller) sending

sending_call : (sending.store 0).in_flight ≡ some 4
unfolding begin run_method attach track find put
sending_call = refl

fresh_attempt : ((sending.attempts 4).sent ≡ false) × ((sending.attempts 4).cancelled ≡ false)
unfolding begin run_method attach track find put
fresh_attempt = (refl, refl)

cancel_series-mark_sent_example :
    ((mark_sent 4 sending).1 ≡ false)
    × ((cancel_series 0 cancel_by_caller (mark_sent 4 sending).0).1 ≡ some (4, true))
    × ((cancel_series 0 cancel_by_caller sending).1 ≡ some (4, false))
    × ((mark_sent 4 (cancel_series 0 cancel_by_caller sending).0).1 ≡ true)
    × ((cancel_series 0 cancel_backstop (cancel_series 0 cancel_by_caller sending).0).1 ≡ none)
cancel_series-mark_sent_example =
    cancel_series-mark_sent 0 4 cancel_by_caller cancel_backstop sending sending_call
      fresh_attempt.0 fresh_attempt.1

given_up_over : (0 < given_up.next) × (is_over (given_up.store 0) ≡ true)
unfolding begin run_method attach track cancel_series find put
given_up_over = (omega arith, refl)

Steps-refused_example :
    ((now : ℕ) (tag : String) (route : DialogRoute) → (confirm now 0 tag route given_up).1 ≡ false)
    × ((reason : Dialogs.EndReason) → (lay_down 0 reason given_up).1 ≡ false)
Steps-refused_example = Steps-refused 10 0 (stays given_up) given_up_over.0 given_up_over.1

-- The call ends, and its end is still under way when another one comes.
abbrev ending : DialogTable
ending = (lay_down 0 end_shutdown up_call).0

up_ends : (0 < up_call.next) × ((lay_down 0 end_shutdown up_call).1 ≡ true)
unfolding begin run_method attach confirm lay_down find put
up_ends = (omega arith, refl)

lay_down-once_example : (lay_down 0 end_shutdown ending).1 ≡ false
lay_down-once_example =
    lay_down-once 10 0 end_shutdown end_shutdown up_call ending up_ends.0 up_ends.1 (stays ending)
