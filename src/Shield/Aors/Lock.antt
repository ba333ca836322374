-- ===== src/Shield/Aors/Lock.antt =====
-- The lock of an AoR: when it opens, how long it holds, what lifts it (internal/shield/aorstrikes.go).
use freesbc.Base.{ℕ, ◌+◌, ◌<◌, ◌≡◌, inl, inr, true, false, Option, some, List, arith, Option-cases}
use freesbc.Base.Assoc.{find, remove, find-front_self}
use freesbc.Shield.Offenders.{StrikeLimit}
use freesbc.Shield.Aors.{
  AorEntry, AorTable, Bytes-discrete, aor_key, holds_lock, make_room, reopened, count_strike, fresh,
  strike, is_locked,
}

-- The entry of an AoR.
abbrev pub entry : List ℕ → AorTable → Option AorEntry
entry aor t = find Bytes-discrete (aor_key aor) t.lru

-- A lock holds for its whole duration: a strike that opens the lock leaves the AoR locked at every
-- instant before now + ban, and it was number n + 1 or a later one of its window.
pub strike-locks :
    (aor : List ℕ) (lim : StrikeLimit) (ban now at : ℕ) (t : AorTable)
    → (strike aor lim ban now t).1.crossed ≡ true
    → at < now + ban
    → (is_locked aor at (strike aor lim ban now t).0 ≡ true)
      × (lim.n < (strike aor lim ban now t).1.count)
unfolding strike is_locked count_strike
strike-locks aor lim ban now at t opened before = elim (Option-cases (entry aor t)) [
  | inl new ↦ (
    ground (
      arith,
      new,
      find-front_self Bytes-discrete (aor_key aor) (count_strike lim ban now (fresh now)).0
          (make_room now t),
    ),
    ground (arith, new),
  )
  | inr (e, known) ↦ (
    ground (
      arith,
      known,
      find-front_self Bytes-discrete (aor_key aor)
          (count_strike lim ban now (reopened now lim.window e)).0
          (remove Bytes-discrete (aor_key aor) t.lru),
    ),
    ground (arith, known),
  )
]

-- A lock is not prolonged: a strike of an AoR that is locked reports the lock, opens none, and leaves
-- the end of the lock as it was.
pub strike_locked :
    (aor : List ℕ) (lim : StrikeLimit) (ban now : ℕ) (t : AorTable) (e : AorEntry)
    → entry aor t ≡ some e
    → holds_lock now e ≡ true
    → ((strike aor lim ban now t).1 ≡ record { count = e.count + 1; over = true; crossed = false })
      × (e' : AorEntry) × (entry aor (strike aor lim ban now t).0 ≡ some e')
      × (e'.locked ≡ e.locked)
unfolding strike count_strike reopened
strike_locked aor lim ban now t e known lock =
    rw (known, strike)
      (ground arith, _, find-front_self Bytes-discrete (aor_key aor) _ _, ground arith)
