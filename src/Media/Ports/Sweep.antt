-- ===== src/Media/Ports/Sweep.antt =====
-- A whole sweep that hands out nothing (internal/media/portpool.go).
use freesbc.Base.{
  ℕ, zero, suc, ◌+◌, ◌-◌, ◌*◌, ◌/◌, ◌%◌, ◌≤◌, ◌<◌, ◌≡◌, refl, sym, ap, ◌∙◌, ◌⊎◌, inl, inr, true,
  false, Option, none, some, arith, ℕ_discrete, ltb, leb, if◌then◌else◌, leb→le, leb_false→lt,
  Bool-cases, Option-cases,
}
use freesbc.Base.Assoc.{find, put, find-remove, find-put}
use mathlib.Core.Path.{subst}
use freesbc.Media.Ports.{
  PortRange, PlanePool, even_up, pairs_in, cursor_in, reserve_next, release, sweep_loop, sweep,
}
use freesbc.Media.Ports.Reserve.{reserved}

-- The pool's reservations are the same.
SameReserved : PlanePool → PlanePool → Type 0
SameReserved p q = (x : ℕ) → reserved x p ≡ reserved x q

-- The candidate is the cursor, brought into the range.
candidate_port :
    (lo hi : ℕ) (p : PlanePool) → (reserve_next lo hi p).port ≡ cursor_in lo hi p.cursor
unfolding reserve_next
candidate_port lo hi p = ground arith

candidate_next :
    (lo hi : ℕ) (p : PlanePool)
    → (reserve_next lo hi p).pool.cursor
      ≡ (if ltb hi (cursor_in lo hi p.cursor + 2 + 1) then lo else cursor_in lo hi p.cursor + 2)
unfolding reserve_next
candidate_next lo hi p = ground arith

-- A free candidate was not reserved; releasing it restores the reservations.
candidate_free :
    (lo hi : ℕ) (p : PlanePool)
    → (reserve_next lo hi p).free ≡ true
    → (reserved (reserve_next lo hi p).port p ≡ none)
      × ((x : ℕ)
          → reserved x (release (reserve_next lo hi p).port (reserve_next lo hi p).pool)
            ≡ reserved x p)
unfolding reserve_next release
candidate_free lo hi p free =
    let port = cursor_in lo hi p.cursor in
    elim (Option-cases (find ℕ_discrete port p.in_use)) [
      | inr (u, known) ↦ absurd (ground (arith, known))
      | inl new ↦
          rw (new, reserve_next)
            (
              new,
              λ x. ground (
                arith,
                new,
                find-remove ℕ_discrete x port (put ℕ_discrete port tt p.in_use),
                find-put ℕ_discrete x port tt p.in_use,
              ),
            )
    ]

candidate_used :
    (lo hi : ℕ) (p : PlanePool)
    → (reserve_next lo hi p).free ≡ false
    → (reserved (reserve_next lo hi p).port p ≡ some tt)
      × ((x : ℕ) → reserved x (reserve_next lo hi p).pool ≡ reserved x p)
unfolding reserve_next
candidate_used lo hi p used =
    elim (Option-cases (find ℕ_discrete (cursor_in lo hi p.cursor) p.in_use)) [
      | inl new ↦ absurd (ground (arith, new))
      | inr (u, known) ↦ rw (known, reserve_next) (known, λ x. refl)
    ]

module _ {T : Type 0} (bind : ℕ → Option T) where
  -- The pool had no socket to give on this port.
  abbrev pub Refused : PlanePool → ℕ → Type 0
  Refused p x = (reserved x p ≡ some tt) ⊎ (bind x ≡ none)

  Refused-same : (p q : PlanePool) (x : ℕ) → reserved x p ≡ reserved x q → Refused p x → Refused q x
  Refused-same p q x same (inl r) = inl (sym same ∙ r)
  Refused-same p q x same (inr n) = inr n

  -- What a sweep of `n` candidates that finds nothing has seen: each candidate from position `i` of
  -- the range on, wrapping round at its end.
  Seen : ℕ → ℕ → ℕ → ℕ → PlanePool → Type 0
  Seen lo pairs n i p =
      (j : ℕ) → j < pairs → ((i ≤ j) × (j < i + n)) ⊎ (j + pairs < i + n) → Refused p (lo + 2 * j)

  -- One round of the loop that goes on: the candidate is refused, and the reservations stay.
  abbrev Round : ℕ → ℕ → PlanePool → PlanePool → Type 0
  Round lo hi p q =
      Refused p (cursor_in lo hi p.cursor)
      × ((x : ℕ) → reserved x q ≡ reserved x p)
      × (q.cursor ≡ (
          if ltb hi (cursor_in lo hi p.cursor + 2 + 1) then lo else cursor_in lo hi p.cursor + 2))

  sweep_loop-Round :
      (lo hi n : ℕ) (p : PlanePool)
      → (sweep_loop bind lo hi (suc n) p).1 ≡ none
      → (q : PlanePool) × Round lo hi p q
        × (sweep_loop bind lo hi (suc n) p ≡ sweep_loop bind lo hi n q)
  unfolding sweep_loop release
  sweep_loop-Round lo hi n p nothing =
      let c = reserve_next lo hi p in
      let here = candidate_port lo hi p in
      let moved = candidate_next lo hi p in
      elim (Bool-cases c.free) [
        | inr used ↦
            let (taken, same) = candidate_used lo hi p used in
            (
              c.pool,
              (inl (subst (λ x. reserved x p ≡ some tt) here taken), same, moved),
              rw (used, sweep_loop),
            )
        | inl free ↦
            let (new, same) = candidate_free lo hi p free in
            elim (Option-cases (bind c.port)) [
              | inl shut ↦ (
                release c.port c.pool,
                (inr (subst (λ x. bind x ≡ none) here shut), same, moved),
                ground (arith, free, shut),
              )
              | inr (v, opened) ↦ absurd (ground (arith, free, opened, nothing))
            ]
      ]

  -- The candidate after position `i`, when there is a position after it, and when there is none.
  next_inside :
      (lo hi i : ℕ) (p q : PlanePool)
      → i + 1 < pairs_in lo hi
      → cursor_in lo hi p.cursor ≡ lo + 2 * i
      → q.cursor
        ≡ (if ltb hi (cursor_in lo hi p.cursor + 2 + 1) then lo else cursor_in lo hi p.cursor + 2)
      → cursor_in lo hi q.cursor ≡ lo + 2 * (i + 1)
  next_inside lo hi i p q inside here moved =
      let moved = subst (λ c. q.cursor ≡ (if ltb hi (c + 2 + 1) then lo else c + 2)) here moved in
      let at_next : q.cursor ≡ lo + 2 * i + 2 = ground (arith, moved, inside) in
      ground (arith, at_next, inside)

  next_wraps :
      (lo hi i : ℕ) (p q : PlanePool)
      → i + 1 ≡ pairs_in lo hi
      → cursor_in lo hi p.cursor ≡ lo + 2 * i
      → q.cursor
        ≡ (if ltb hi (cursor_in lo hi p.cursor + 2 + 1) then lo else cursor_in lo hi p.cursor + 2)
      → cursor_in lo hi q.cursor ≡ lo + 2 * 0
  next_wraps lo hi i p q last here moved =
      let moved = subst (λ c. q.cursor ≡ (if ltb hi (c + 2 + 1) then lo else c + 2)) here moved in
      let at_next : q.cursor ≡ lo = ground (arith, moved, last) in ground (arith, at_next, last)

  sweep_loop-Seen :
      (lo hi n i : ℕ) (p : PlanePool)
      → i < pairs_in lo hi
      → n ≤ pairs_in lo hi
      → cursor_in lo hi p.cursor ≡ lo + 2 * i
      → (sweep_loop bind lo hi n p).1 ≡ none
      → Seen lo (pairs_in lo hi) n i p × SameReserved (sweep_loop bind lo hi n p).0 p
  unfolding sweep_loop Seen SameReserved
  sweep_loop-Seen lo hi zero i p inside lap here nothing = (
    (λ j small where_. absurd (elim where_ [ inl h ↦ omega arith | inr h ↦ omega arith ])),
    λ x. refl,
  )
  sweep_loop-Seen lo hi (suc n) i p inside lap here nothing =
      let (q, (refused, same, moved), goes_on) = sweep_loop-Round lo hi n p nothing in
      let refused : Refused p (lo + 2 * i) = subst (Refused p) here refused in
      let back : (x : ℕ) → Refused q x → Refused p x = λ x. Refused-same q p x (same x) in
      let rest_nothing = sym (ap (λ r. r.1) goes_on) ∙ nothing in
      elim (ℕ_discrete (i + 1) (pairs_in lo hi)) [
        | yes last ↦
            let (seen, kept) =
              sweep_loop-Seen lo hi n 0 q (omega arith) (omega arith)
                (next_wraps lo hi i p q last here moved) rest_nothing in
            (
              (λ j small where_. elim where_ [
                | inl h ↦
                    (let e : i ≡ j = omega arith in subst (λ k. Refused p (lo + 2 * k)) e refused)
                | inr h ↦ back (lo + 2 * j) (seen j small (inl (omega arith, omega arith)))
              ]),
              λ x. ap (λ r. reserved x r.0) goes_on ∙ kept x ∙ same x,
            )
        | no more ↦
            let (seen, kept) =
              sweep_loop-Seen lo hi n (i + 1) q (omega arith) (omega arith)
                (next_inside lo hi i p q (omega arith) here moved) rest_nothing in
            (
              (λ j small where_. elim where_ [
                | inl h ↦ elim (ℕ_discrete i j) [
                  | yes e ↦ subst (λ k. Refused p (lo + 2 * k)) e refused
                  | no ne ↦ back (lo + 2 * j) (seen j small (inl (omega arith, omega arith)))
                ]
                | inr h ↦ back (lo + 2 * j) (seen j small (inr (omega arith)))
              ]),
              λ x. ap (λ r. reserved x r.0) goes_on ∙ kept x ∙ same x,
            )
      ]

  -- A sweep that hands out nothing, from a pool whose cursor is even, has found every even port of
  -- the range refused: an RTP port x with x and x + 1 in the range is reserved already or could not
  -- be opened, wherever the cursor stood. The pool's reservations are then as before the sweep.
  pub sweep_exhausted :
      (par : PortRange) (p : PlanePool)
      → p.cursor % 2 ≡ 0
      → (sweep bind par p).1 ≡ none
      → (x : ℕ) → x % 2 ≡ 0
      → par.min_port ≤ x
      → x + 1 ≤ par.max_port
      → Refused p x × ((y : ℕ) → reserved y (sweep bind par p).0 ≡ reserved y p)
  unfolding sweep Seen SameReserved
  sweep_exhausted par p even_cursor nothing x even_x low high =
      let lo = even_up par.min_port in
      let hi = par.max_port in
      let even_lo : lo % 2 ≡ 0 = ground arith in
      let from : lo ≤ x = ground arith in
      let i = (cursor_in lo hi p.cursor - lo) / 2 in
      let here : cursor_in lo hi p.cursor ≡ lo + 2 * i = ground (arith, even_lo) in
      let inside : i < pairs_in lo hi = ground (arith, even_lo) in
      let (seen, kept) =
        sweep_loop-Seen lo hi (pairs_in lo hi) i p inside (omega arith) here nothing in
      let j = (x - lo) / 2 in
      let at_x : lo + 2 * j ≡ x = omega arith in
      (
        subst (Refused p) at_x (
            seen j (omega arith)
              (elim (leb-cases i j) [ inl h ↦ inl (h, omega arith) | inr h ↦ inr (omega arith) ])),
        kept,
      )
    where
      leb-cases : (a b : ℕ) → (a ≤ b) ⊎ (b < a)
      leb-cases a b = elim (Bool-cases (leb a b)) [
        | inl h ↦ inl (leb→le a b h)
        | inr h ↦ inr (leb_false→lt a b h)
      ]
