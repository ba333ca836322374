-- ===== src/Edge/Dialogs/Race.antt =====
-- The CANCEL of an attempt against the sending of its INVITE (internal/edge/dialog.go).
use freesbc.Base.{ℕ, ◌≡◌, true, false, none, some, arith}
use freesbc.Edge.Dialogs.{DialogTable}
use freesbc.Edge.Dialogs.Calls.{mark_sent, CancelReason, cancel_series}

-- A tracked attempt that is not on the wire and that no CANCEL took. If the INVITE is sent first,
-- `markSent` asks for no CANCEL and the cancellation that follows is to send it now; if the
-- cancellation comes first, it is not to send it and `markSent` asks the sender to. So the CANCEL is
-- sent once in either order, and never ahead of the INVITE. A second cancellation finds no attempt.
pub cancel_series-mark_sent :
    (r a : ℕ) (why again : CancelReason) (t : DialogTable)
    → (t.store r).in_flight ≡ some a
    → (t.attempts a).sent ≡ false
    → (t.attempts a).cancelled ≡ false
    → ((mark_sent a t).1 ≡ false)
      × ((cancel_series r why (mark_sent a t).0).1 ≡ some (a, true))
      × ((cancel_series r why t).1 ≡ some (a, false))
      × ((mark_sent a (cancel_series r why t).0).1 ≡ true)
      × ((cancel_series r again (cancel_series r why t).0).1 ≡ none)
unfolding mark_sent cancel_series
cancel_series-mark_sent r a why again t flying unsent free = (
  free,
  ground (arith, flying),
  ground (arith, flying, unsent),
  ground (arith, flying),
  ground (arith, flying),
)
