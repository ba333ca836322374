-- ===== src/Edge/Dialogs/Reach.antt =====
-- Runs of the dialog table from its start (internal/edge/dialog.go).
use freesbc.Base.{ℕ, ◌+◌, ◌≤◌, ◌<◌, String, ◌≡◌, refl, ap, inl, inr, arith, Bool-cases, false-true}
use freesbc.Edge.Dialogs.{
  is_ended, EndReason, DialogRoute, Plane, DialogTable, new_dialog_table, Invite, begin, close,
  remove_locked,
}
use freesbc.Edge.Dialogs.Calls.{
  attach, begin_update_offer, end_update_offer, begin_reinvite_offer, end_reinvite_offer,
  set_fork_route, set_fork_to, track, mark_sent, untrack, CancelReason, cancel_series, note_cseq,
  confirm, lay_down, finish,
}
use freesbc.Edge.Dialogs.Slots.{
  sum_upto, Counts, begin-cases, begin-Counts, confirm-Counts, lay_down-Counts,
}
use freesbc.Edge.Dialogs.Ends.{finish-Still, finish-Counts}
use freesbc.Edge.Dialogs.Calm.{
  Calm, attach-Calm, track-Calm, mark_sent-Calm, untrack-Calm, note_cseq-Calm, cancel_series-Calm,
  Calm-Counts,
}
use freesbc.Edge.Dialogs.Calm.Offers.{
  set_fork_route-Calm, set_fork_to-Calm, begin_update_offer-Calm, begin_reinvite_offer-Calm,
  end_update_offer-Calm, end_reinvite_offer-Calm,
}

-- The calls of a record's methods that neither bring it up nor end it.
pub data Method : Type 0 where
  attach_of : ℕ → ℕ → Method
  track_of : ℕ → ℕ → Method
  mark_sent_of : ℕ → Method
  untrack_of : ℕ → Method
  cancel_of : ℕ → CancelReason → Method
  note_cseq_of : ℕ → String → ℕ → Method
  fork_route_of : ℕ → String → DialogRoute → Method
  fork_to_of : ℕ → String → String → Method
  update_offer_of : ℕ → Method
  reinvite_offer_of : ℕ → Method
  update_answered_of : ℕ → Method
  reinvite_answered_of : ℕ → Method

unfoldable pub run_method : Method → DialogTable → DialogTable
run_method (attach_of r sess) t = (attach r sess t).0
run_method (track_of r a) t = (track r a t).0
run_method (mark_sent_of a) t = (mark_sent a t).0
run_method (untrack_of r) t = untrack r t
run_method (cancel_of r why) t = (cancel_series r why t).0
run_method (note_cseq_of r tag seq) t = note_cseq r tag seq t
run_method (fork_route_of r tag route) t = set_fork_route r tag route t
run_method (fork_to_of r tag uri) t = set_fork_to r tag uri t
run_method (update_offer_of r) t = (begin_update_offer r t).0
run_method (reinvite_offer_of r) t = (begin_reinvite_offer r t).0
run_method (update_answered_of r) t = end_update_offer r t
run_method (reinvite_answered_of r) t = end_reinvite_offer r t

pub run_method-Calm : (m : Method) (t : DialogTable) → Calm t (run_method m t)
unfolding run_method
run_method-Calm (attach_of r sess) t = attach-Calm r sess t
run_method-Calm (track_of r a) t = track-Calm r a t
run_method-Calm (mark_sent_of a) t = mark_sent-Calm a t
run_method-Calm (untrack_of r) t = untrack-Calm r t
run_method-Calm (cancel_of r why) t = cancel_series-Calm r why t
run_method-Calm (note_cseq_of r tag seq) t = note_cseq-Calm r tag seq t
run_method-Calm (fork_route_of r tag route) t = set_fork_route-Calm r tag route t
run_method-Calm (fork_to_of r tag uri) t = set_fork_to-Calm r tag uri t
run_method-Calm (update_offer_of r) t = begin_update_offer-Calm r t
run_method-Calm (reinvite_offer_of r) t = begin_reinvite_offer-Calm r t
run_method-Calm (update_answered_of r) t = end_update_offer-Calm r t
run_method-Calm (reinvite_answered_of r) t = end_reinvite_offer-Calm r t

-- One step: `begin` with the session cap that is set at that time, a method of a record, an `endBy`
-- until it releases the mutex, the rest of one, or `close`. Where `limit` is not 0, all caps are
-- at most `limit`, and none is off.
pub data Step (limit : ℕ) : DialogTable → DialogTable → Type 0 where
  begins :
      (req : Invite) (plane : Plane) (cap : ℕ) (t : DialogTable)
      → (0 < limit → (0 < cap) × (cap ≤ limit))
      → Step limit t (begin req plane cap t).0
  acts : (m : Method) (t : DialogTable) → Step limit t (run_method m t)
  confirms :
      (now r : ℕ) (tag : String) (route : DialogRoute) (t : DialogTable)
      → r < t.next
      → Step limit t (confirm now r tag route t).0
  ends :
      (r : ℕ) (reason : EndReason) (t : DialogTable)
      → r < t.next
      → Step limit t (lay_down r reason t).0
  finishes : (i : ℕ) (t : DialogTable) → Step limit t (finish i t)
  closes : (t : DialogTable) → Step limit t (close t)

-- Any steps, from one table to another.
pub data Steps (limit : ℕ) : DialogTable → DialogTable → Type 0 where
  stays : (t : DialogTable) → Steps limit t t
  goes : {t u v : DialogTable} → Steps limit t u → Step limit u v → Steps limit t v

lay_down-sessions :
    (r : ℕ) (reason : EndReason) (t : DialogTable) → (lay_down r reason t).0.sessions ≤ t.sessions
unfolding lay_down remove_locked
lay_down-sessions r reason t = elim (Bool-cases (is_ended (t.store r).state)) [
  | inl gone ↦ ground (arith, gone)
  | inr live ↦ ground (arith, live)
]

confirm-sessions :
    (now r : ℕ) (tag : String) (route : DialogRoute) (t : DialogTable)
    → (confirm now r tag route t).0.sessions ≡ t.sessions
unfolding confirm
confirm-sessions now r tag route t = ground arith

-- The counters are exact, and the sessions within the limit where there is one.
abbrev pub Exact : ℕ → DialogTable → Type 0
Exact limit t = Counts t × (0 < limit → t.sessions ≤ limit)

close-Exact : (limit : ℕ) (t : DialogTable) → Exact limit t → Exact limit (close t)
unfolding Counts
close-Exact limit t exact = exact

Step-Exact : (limit : ℕ) {t u : DialogTable} → Step limit t u → Exact limit t → Exact limit u
Step-Exact limit (begins req plane cap t small) (counts, capped) = (
  begin-Counts req plane cap t counts,
  λ pos. elim (begin-cases req plane cap t) [
    | inl same ↦ omega (arith, ap (λ x. x.sessions) same, capped pos)
    | inr (more, room) ↦
        let e : (begin req plane cap t).0.sessions ≡ t.sessions + 1 = ap (λ x. x.sessions) more in
        let l : t.sessions < cap = ground (arith, room, (small pos).0) in
        omega (arith, e, l, (small pos).1)
  ],
)
Step-Exact limit (acts m t) (counts, capped) =
    let calm = run_method-Calm m t in
    (
      Calm-Counts t (run_method m t) calm counts,
      λ pos. omega (arith, calm.same_sessions, capped pos),
    )
Step-Exact limit (confirms now r tag route t begun) (counts, capped) = (
  confirm-Counts now r tag route t begun counts,
  λ pos. omega (arith, confirm-sessions now r tag route t, capped pos),
)
Step-Exact limit (ends r reason t begun) (counts, capped) = (
  lay_down-Counts r reason t begun counts,
  λ pos. omega (arith, lay_down-sessions r reason t, capped pos),
)
Step-Exact limit (finishes i t) (counts, capped) =
    (finish-Counts i t counts, λ pos. omega (arith, (finish-Still i t).3, capped pos))
Step-Exact limit (closes t) exact = close-Exact limit t exact

Steps-Exact_from : (limit : ℕ) {t u : DialogTable} → Steps limit t u → Exact limit t → Exact limit u
Steps-Exact_from limit (stays t) exact = exact
Steps-Exact_from limit (goes steps step) exact =
    Step-Exact limit step (Steps-Exact_from limit steps exact)

new-Exact : (limit : ℕ) → Exact limit new_dialog_table
unfolding Counts sum_upto
new-Exact limit = ((refl, refl, λ r e. absurd (false-true e)), λ pos. omega arith)

-- After any steps of a new table, the session counter is the number of records that have not ended;
-- the gauge of the calls is the number of confirmed records and of the calls whose end has released
-- the mutex and has not lowered the gauge yet; each confirmed record has a media session; and the
-- session counter is at most `limit`, where each `begin` found a cap from 1 to `limit`, which may
-- change from one to the next.
pub Steps-Exact : (limit : ℕ) (t : DialogTable) → Steps limit new_dialog_table t → Exact limit t
Steps-Exact limit t steps = Steps-Exact_from limit steps (new-Exact limit)
