-- ===== src/Media/Ports/Reserve.antt =====
-- One candidate of a sweep (internal/media/portpool.go).
use freesbc.Base.{
  ℕ, ◌+◌, ◌%◌, ◌≤◌, ◌≡◌, refl, ◌≢◌, inl, inr, Option, some, arith, ℕ_discrete, Option-cases,
}
use freesbc.Base.Assoc.{find, find-put_self, find-put_ne}
use freesbc.Media.Ports.{PlanePool, cursor_in, reserve_next}

-- Whether the pool has the port reserved.
abbrev pub reserved : ℕ → PlanePool → Option (Unit {0})
reserved port p = find ℕ_discrete port p.in_use

-- A candidate stands in the range with the port above it, is even, and is free exactly if it was not
-- reserved; it is reserved afterwards, and no other port's reservation changes.
pub reserve_next_lem :
    (lo hi : ℕ) (p : PlanePool)
    → lo % 2 ≡ 0
    → p.cursor % 2 ≡ 0
    → lo + 1 ≤ hi
    → let c = reserve_next lo hi p in
      (lo ≤ c.port)
      × (c.port + 1 ≤ hi)
      × (c.port % 2 ≡ 0)
      × (c.pool.cursor % 2 ≡ 0)
      × (reserved c.port c.pool ≡ some tt)
      × ((x : ℕ) → x ≢ c.port → reserved x c.pool ≡ reserved x p)
unfolding reserve_next
reserve_next_lem lo hi p even_lo even_cursor room =
    let port = cursor_in lo hi p.cursor in
    elim (Option-cases (find ℕ_discrete port p.in_use)) [
      | inl new ↦
          rw (new, reserve_next)
            (
              ground arith,
              ground arith,
              ground arith,
              ground arith,
              find-put_self ℕ_discrete port tt p.in_use,
              λ x ne. find-put_ne ℕ_discrete x port tt p.in_use ne,
            )
      | inr (u, known) ↦
          rw (known, reserve_next)
            (ground arith, ground arith, ground arith, ground arith, known, λ x ne. refl)
    ]
