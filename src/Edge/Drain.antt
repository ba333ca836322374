-- ===== src/Edge/Drain.antt =====
-- The drain mode: internal/edge/drain.go. `set` and `get` run under the mutex.
use freesbc.Base.{ℕ, ◌≡◌, refl, sym, Bool, true, false, List, [], ◌∷◌, if◌then◌else◌, false-true}

pub record DrainState : Type 0 where
  pub flag : Bool
  pub since : ℕ

abbrev pub new_drain_state : DrainState
new_drain_state = record { flag = false; since = 0 }

-- `on`.
abbrev pub draining : DrainState → Bool
draining d = d.flag

-- `set`, at the instant `now`: the state, and whether it changed.
unfoldable pub set_drain : ℕ → Bool → DrainState → DrainState × Bool
set_drain now true d = if d.flag then (d, false) else (record { flag = true; since = now }, true)
set_drain now false d = if d.flag then (record { flag = false; since = 0 }, true) else (d, false)

-- `get`.
abbrev pub get : DrainState → Bool × ℕ
get d = (d.flag, d.since)

-- A run of calls, each with its instant and the state it asks for.
unfoldable pub run : List (ℕ × Bool) → DrainState → DrainState
unfolding set_drain
run [] d = d
run (c ∷ cs) d = run cs (set_drain c.0 c.1 d).0

-- What the calls ask for: the last one's state with the first instant of the unbroken row of equal
-- ones that it ends, if it is a drain.
abbrev pub wanted : List (ℕ × Bool) → Bool × ℕ → Bool × ℕ
wanted [] w = w
wanted ((now, true) ∷ cs) (true, t) = wanted cs (true, t)
wanted ((now, true) ∷ cs) (false, t) = wanted cs (true, now)
wanted ((now, false) ∷ cs) w = wanted cs (false, 0)

run-wanted :
    (cs : List (ℕ × Bool)) (on : Bool) (t : ℕ)
    → (on ≡ false → t ≡ 0)
    → get (run cs (record { flag = on; since = t })) ≡ wanted cs (on, t)
unfolding run set_drain
run-wanted [] on t h = refl
run-wanted ((now, true) ∷ cs) true t h = run-wanted cs true t h
run-wanted ((now, true) ∷ cs) false t h = run-wanted cs true now (λ e. absurd (false-true (sym e)))
run-wanted ((now, false) ∷ cs) true t h = run-wanted cs false 0 (λ e. refl)
run-wanted ((now, false) ∷ cs) false t h = rw (h refl) (run-wanted cs false 0 (λ e. refl))

-- After any calls from a fresh start, `get` gives the state that the last call asked for, with the
-- instant of the call that entered the drain while it lasts: entering again keeps it, leaving clears
-- it.
pub get-run : (cs : List (ℕ × Bool)) → get (run cs new_drain_state) ≡ wanted cs (false, 0)
get-run cs = run-wanted cs false 0 (λ e. refl)
