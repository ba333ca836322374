-- ===== src/Media/Ports/Grant.antt =====
-- What a sweep hands out (internal/media/portpool.go).
use freesbc.Base.{
  ℕ, zero, suc, ◌+◌, ◌%◌, ◌≤◌, ◌≡◌, refl, sym, ap, ◌∙◌, ◌≢◌, inl, inr, true, false, Option, none,
  some, arith, ℕ_discrete, Bool-cases, Option-cases,
}
use freesbc.Base.Assoc.{find, put, find-remove, find-put}
use mathlib.Core.Path.{subst}
use freesbc.Media.Ports.{
  PortRange, PlanePool, even_up, pairs_in, cursor_in, reserve_next, release, sweep_loop, sweep,
}
use freesbc.Media.Ports.Reserve.{reserved, reserve_next_lem}

module _ {T : Type 0} (bind : ℕ → Option T) where
  -- A port that was handed out from a pool: in the range, even, opened, and not reserved before.
  abbrev pub Granted : ℕ → ℕ → PlanePool → PlanePool → ℕ → T → Type 0
  Granted lo hi p q x v =
      (lo ≤ x)
      × (x + 1 ≤ hi)
      × (x % 2 ≡ 0)
      × (bind x ≡ some v)
      × (reserved x p ≡ none)
      × (reserved x q ≡ some tt)
      × ((y : ℕ) → y ≢ x → reserved y q ≡ reserved y p)

  -- What one candidate of the loop does.
  free_was_new :
      (lo hi : ℕ) (p : PlanePool)
      → (reserve_next lo hi p).free ≡ true
      → (reserved (reserve_next lo hi p).port p ≡ none)
        × ((x : ℕ)
            → reserved x (release (reserve_next lo hi p).port (reserve_next lo hi p).pool)
              ≡ reserved x p)
  unfolding reserve_next release
  free_was_new lo hi p free =
      let port = cursor_in lo hi p.cursor in
      elim (Option-cases (find ℕ_discrete port p.in_use)) [
        | inr (u, known) ↦ absurd (ground (arith, known))
        | inl new ↦
            rw (new, reserve_next)
              (
                new,
                λ x. ground (
                  arith,
                  new,
                  find-remove ℕ_discrete x port (put ℕ_discrete port tt p.in_use),
                  find-put ℕ_discrete x port tt p.in_use,
                ),
              )
      ]

  used_is_same :
      (lo hi : ℕ) (p : PlanePool)
      → (reserve_next lo hi p).free ≡ false
      → (x : ℕ) → reserved x (reserve_next lo hi p).pool ≡ reserved x p
  unfolding reserve_next
  used_is_same lo hi p used x =
      elim (Option-cases (find ℕ_discrete (cursor_in lo hi p.cursor) p.in_use)) [
        | inl new ↦ absurd (ground (arith, new))
        | inr (u, known) ↦ rw (known, reserve_next) refl
      ]

  Granted-from :
      (lo hi : ℕ) (p p' q : PlanePool) (x : ℕ) (v : T)
      → ((y : ℕ) → reserved y p' ≡ reserved y p)
      → Granted lo hi p' q x v
      → Granted lo hi p q x v
  Granted-from lo hi p p' q x v same (low, high, even, opened, new, now, others) =
      (low, high, even, opened, sym (same x) ∙ new, now, λ y ne. others y ne ∙ same y)

  sweep_loop_grants :
      (lo hi n : ℕ) (p : PlanePool) (x : ℕ) (v : T)
      → lo % 2 ≡ 0
      → p.cursor % 2 ≡ 0
      → lo + 1 ≤ hi
      → (sweep_loop bind lo hi n p).1 ≡ some (x, v)
      → Granted lo hi p (sweep_loop bind lo hi n p).0 x v
  unfolding sweep_loop release
  sweep_loop_grants lo hi zero p x v even_lo even room found = absurd (ground (arith, found))
  sweep_loop_grants lo hi (suc n) p x v even_lo even room found =
      let c = reserve_next lo hi p in
      let (low, high, even_port, even_next, taken, others) =
        reserve_next_lem lo hi p even_lo even room in
      elim (Bool-cases c.free) [
        | inr used ↦
            let on : sweep_loop bind lo hi (suc n) p ≡ sweep_loop bind lo hi n c.pool =
              rw (used, sweep_loop) refl in
            let rest =
              sweep_loop_grants lo hi n c.pool x v even_lo even_next room
                (sym (ap (λ r. r.1) on) ∙ found) in
            subst (λ r. Granted lo hi p r.0 x v) (sym on)
              (Granted-from lo hi p c.pool (sweep_loop bind lo hi n c.pool).0 x v
                (used_is_same lo hi p used) rest)
        | inl free ↦
            let (new, same) = free_was_new lo hi p free in
            elim (Option-cases (bind c.port)) [
              | inl shut ↦
                  let p' = release c.port c.pool in
                  let on : sweep_loop bind lo hi (suc n) p ≡ sweep_loop bind lo hi n p' =
                    ground (arith, free, shut) in
                  let rest =
                    sweep_loop_grants lo hi n p' x v even_lo even_next room
                      (sym (ap (λ r. r.1) on) ∙ found) in
                  subst (λ r. Granted lo hi p r.0 x v) (sym on)
                    (Granted-from lo hi p p' (sweep_loop bind lo hi n p').0 x v same rest)
              | inr (w, opened) ↦
                  let on : sweep_loop bind lo hi (suc n) p ≡ (c.pool, some (c.port, w)) =
                    ground (arith, free, opened) in
                  let same_grant : some (c.port, w) ≡ some (x, v) =
                    sym (ap (λ r. r.1) on) ∙ found in
                  let is_port : c.port ≡ x = cc in
                  let is_socket : w ≡ v = cc in
                  subst (λ r. Granted lo hi p r.0 x v) (sym on)
                    (subst (λ y. Granted lo hi p c.pool y v) is_port
                      (low, high, even_port, rw (opened, is_socket) refl, new, taken, others))
            ]
      ]

  -- What a sweep hands out, from a pool whose cursor is even: an even
  -- port x with x and x + 1 in the range, which the operating system opened in this sweep and
  -- which was not reserved before; it is reserved now, and no other reservation has changed.
  pub sweep_grants :
      (par : PortRange) (p : PlanePool) (x : ℕ) (v : T)
      → p.cursor % 2 ≡ 0
      → (sweep bind par p).1 ≡ some (x, v)
      → Granted par.min_port par.max_port p (sweep bind par p).0 x v
  unfolding sweep sweep_loop
  sweep_grants par p x v even found =
      let lo = even_up par.min_port in
      let hi = par.max_port in
      let even_lo : lo % 2 ≡ 0 = ground arith in
      elim (ℕ_discrete (pairs_in lo hi) 0) [
        | yes none_fit ↦ absurd (empty (rw none_fit at found))
        | no some_fit ↦
            let (low, high, even_x, opened, new, now, others) =
              sweep_loop_grants lo hi (pairs_in lo hi) p x v even_lo even (omega arith) found in
            (ground arith, high, even_x, opened, new, now, others)
      ]
    where
      empty : {A : Type 0} {a : A} → none ≡ some a → ⊥
      empty h = cc
