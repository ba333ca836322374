-- ===== src/Edge/Dialogs/Calls.antt =====
-- The calls' own operations: the methods of `dialog` in internal/edge/dialog.go.
use freesbc.Base.{
  ℕ, zero, suc, ◌+◌, ◌-◌, max, String, Bool, true, false, not, ◌&&◌, ◌||◌, Option, none, some, List,
  [], ◌∷◌, ◌++◌, text_discrete, ltb, if◌then◌else◌,
}
use freesbc.Base.Assoc.{find, put}
use freesbc.Edge.Dialogs.{
  dialog_confirmed, dialog_ended, is_early, is_confirmed, is_ended, EndReason, Ending, DialogRoute,
  EarlyFork, new_fork, Dialog, DialogTable, set_cell, same, remove_locked,
}

-- The record `r` is changed.
abbrev pub update : ℕ → (Dialog → Dialog) → DialogTable → DialogTable
update r f t = record t { store = set_cell r (f (t.store r)) t.store }

-- `attach`: whether the dialog owns the session now; one that it cannot own is closed.
unfoldable pub attach : ℕ → ℕ → DialogTable → DialogTable × Bool
attach r sess t =
    if t.closed || is_ended (t.store r).state
    then (record t { media_closed = sess ∷ t.media_closed }, false)
    else (update r (λ d. record d { media = some sess }) t, true)

-- `open`.
abbrev pub is_open : ℕ → DialogTable → Bool
is_open r t = not t.closed && not (is_ended (t.store r).state)

-- `setCarrier`, `setCalleeURI`.
abbrev pub set_carrier : ℕ → String → DialogTable → DialogTable
set_carrier r name t = update r (λ d. record d { carrier = name }) t

abbrev pub set_callee_uri : ℕ → String → DialogTable → DialogTable
set_callee_uri r uri t = update r (λ d. record d { callee_uri = uri }) t

-- `noteRelaxedNotify`: whether it was the first time.
unfoldable pub note_relaxed_notify : ℕ → DialogTable → DialogTable × Bool
note_relaxed_notify r t =
    (update r (λ d. record d { relaxed_notify = true }) t, not (t.store r).relaxed_notify)

-- `beginUpdateOffer`, `endUpdateOffer`, `beginReInviteOffer` and `endReInviteOffer`.
unfoldable pub begin_update_offer : ℕ → DialogTable → DialogTable × Bool
begin_update_offer r t =
    let d = t.store r in
    if ltb 0 d.update_offers || ltb 0 d.reinvite_offers || d.owed then (t, false) else (
      update r (λ d. record d { last_ack = false; update_offers = d.update_offers + 1 }) t,
      true,
    )

abbrev pub end_update_offer : ℕ → DialogTable → DialogTable
end_update_offer r t = update r (λ d. record d { update_offers = d.update_offers - 1 }) t

unfoldable pub begin_reinvite_offer : ℕ → DialogTable → DialogTable × Bool
begin_reinvite_offer r t =
    let d = t.store r in
    if ltb 0 d.update_offers || d.owed then (t, false) else (
      update r (λ d. record d { last_ack = false; reinvite_offers = d.reinvite_offers + 1 }) t,
      true,
    )

abbrev pub end_reinvite_offer : ℕ → DialogTable → DialogTable
end_reinvite_offer r t = update r (λ d. record d { reinvite_offers = d.reinvite_offers - 1 }) t

-- The fork of a To tag, new where there is none.
abbrev pub fork_or_new : Option EarlyFork → EarlyFork
fork_or_new none = new_fork
fork_or_new (some f) = f

abbrev pub fork_of : String → Dialog → EarlyFork
fork_of tag d = fork_or_new (find text_discrete tag d.forks)

-- `setForkRoute`.
unfoldable pub set_fork_route : ℕ → String → DialogRoute → DialogTable → DialogTable
set_fork_route r tag route t =
    if not (is_early (t.store r).state)
    then t
    else update r
        (λ d. record d {
          forks =
              put text_discrete tag (record (fork_of tag d) { route = route; routed = true })
                d.forks;
        })
        t

-- `setForkTo`.
unfoldable pub set_fork_to : ℕ → String → String → DialogTable → DialogTable
set_fork_to r tag uri t =
    if not (is_early (t.store r).state)
    then t
    else update r
        (λ d. record d {
          forks =
              put text_discrete tag (record (fork_of tag d) { to = uri; to_set = true }) d.forks;
        })
        t

-- `track`: whether the INVITE may be sent.
unfoldable pub track : ℕ → ℕ → DialogTable → DialogTable × Bool
track r a t =
    if (t.store r).cancelled
    then (t, false)
    else (update r (λ d. record d { in_flight = some a }) t, true)

-- `markSent`: whether the sender must send the CANCEL.
unfoldable pub mark_sent : ℕ → DialogTable → DialogTable × Bool
mark_sent a t =
    let at = t.attempts a in
    (record t { attempts = set_cell a (record at { sent = true }) t.attempts }, at.cancelled)

-- `untrack`.
abbrev pub untrack : ℕ → DialogTable → DialogTable
untrack r t = update r (λ d. record d { in_flight = none }) t

-- `cancelReason`.
pub data CancelReason : Type 0 where
  cancel_by_caller : CancelReason
  cancel_orphan : CancelReason
  cancel_backstop : CancelReason

abbrev pub is_orphan : CancelReason → Bool
is_orphan cancel_by_caller = false
is_orphan cancel_orphan = true
is_orphan cancel_backstop = false

abbrev pub is_by_caller : CancelReason → Bool
is_by_caller cancel_by_caller = true
is_by_caller cancel_orphan = false
is_by_caller cancel_backstop = false

-- `cancelSeries`: the attempt it took, and whether to send the CANCEL now.
unfoldable pub cancel_series : ℕ → CancelReason → DialogTable → DialogTable × Option (ℕ × Bool)
cancel_series r why t =
    let give_up = λ (d : Dialog). record d {
      cancelled = true;
      caller_gone = d.caller_gone || is_by_caller why;
    } in
    elim (t.store r).in_flight [
      | none ↦ if is_orphan why then (t, none) else (update r give_up t, none)
      | some a ↦
          let at = t.attempts a in
          (
            record (update r (λ d. record (give_up d) { in_flight = none }) t) {
              attempts = set_cell a (record at { cancelled = true }) t.attempts;
            },
            some (a, at.sent),
          )
    ]

-- `noteCSeq`.
unfoldable pub note_cseq : ℕ → String → ℕ → DialogTable → DialogTable
note_cseq r from_tag seq t =
    update r
      (λ d.
        if same from_tag d.caller_tag
        then record d { caller_cseq = max d.caller_cseq seq }
        else record d { callee_cseq = max d.callee_cseq seq })
      t

abbrev pub has_media : Option ℕ → Bool
has_media none = false
has_media (some m) = true

-- The record once the fork of this tag has answered.
abbrev pub accepted : ℕ → String → DialogRoute → Dialog → Dialog
accepted now callee_tag route d = record d {
  state = dialog_confirmed;
  callee_tag = callee_tag;
  confirmed_at = now;
  route = route;
  forks = [];
}

-- `confirm`: whether a 2xx from this fork may be relayed.
unfoldable pub confirm : ℕ → ℕ → String → DialogRoute → DialogTable → DialogTable × Bool
confirm now r callee_tag route t =
    let d = t.store r in
    if not (is_early d.state) || not (has_media d.media) || d.cancelled
    then (t, false)
    else (record (update r (accepted now callee_tag route) t) { gauge = t.gauge + 1 }, true)

-- The record once it has ended; the timers of `owed` and `ack` are stopped.
abbrev pub laid_down : Dialog → Dialog
laid_down d = record d {
  state = dialog_ended;
  in_flight = none;
  owed = false;
  ack = false;
  last_ack = false;
  hooked = false;
}

-- `endBy`, and so `end`, of a reason, until it releases the mutex: whether it ended a confirmed
-- dialog, which is what `endBy` returns in the end.
unfoldable pub lay_down : ℕ → EndReason → DialogTable → DialogTable × Bool
lay_down r reason t =
    let d = t.store r in
    let ending : Ending = record {
      call = r;
      session = d.media;
      was_up = is_confirmed d.state;
      reason = reason;
    } in
    if is_ended d.state
    then (t, false)
    else let t = remove_locked r (update r laid_down t) in
      (record t { sessions = t.sessions - 1; pending = ending ∷ t.pending }, is_confirmed d.state)

-- What `endBy` does after it has released the mutex.
unfoldable pub report : Ending → DialogTable → DialogTable
report e t = elim e.session [
  | none ↦ t
  | some sess ↦
      let t = record t { media_closed = sess ∷ t.media_closed } in
      if not e.was_up
      then t
      else record t { gauge = t.gauge - 1; ended_for = (e.call, e.reason) ∷ t.ended_for }
]

-- One of the ends that are under way, and the others.
abbrev pub pick : ℕ → List Ending → Option (Ending × List Ending)
pick i [] = none
pick zero (e ∷ es) = some (e, es)
pick (suc i) (e ∷ es) =
    let rest = pick i es in elim rest [ none ↦ none | some p ↦ some (p.0, e ∷ p.1) ]

-- One of the ends that are under way comes to its end, where there is one.
unfoldable pub finish_picked : Option (Ending × List Ending) → DialogTable → DialogTable
finish_picked none t = t
finish_picked (some p) t = report p.0 (record t { pending = p.1 })

unfoldable pub finish : ℕ → DialogTable → DialogTable
finish i t = finish_picked (pick i t.pending) t

-- The records that the table lists: the snapshot of `closeAll`.
abbrev pub listed_refs : List (String × List ℕ) → List ℕ
listed_refs [] = []
listed_refs ((k, rs) ∷ m) = rs ++ listed_refs m
