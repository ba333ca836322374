-- ===== src/Shield/Samples.antt =====
-- Sample sources, and natural numbers in place of float64.
use freesbc.Base.{ℕ, ◌+◌, ◌-◌, ◌*◌, ◌/◌, ◌≤◌, min, arith, leb, ◌==◌, if◌then◌else◌}
use freesbc.Net.{Addr}
use freesbc.Shield.Limiter.{Float}

abbrev pub phone : Addr
phone = Addr.v4 0x0a000001

abbrev pub other_phone : Addr
other_phone = Addr.v4 0x0a000002

-- Natural numbers in place of float64, in whole seconds.
pub no_refill : (a rate n : ℕ) → a + (if n == 0 then 0 else ((0 / 1000000000) * rate) / n) ≤ a
no_refill a rate n = ground arith

abbrev pub whole : Float
whole = record {
  F = ℕ;
  of_ℕ = λ n. n;
  add = λ a b. a + b;
  sub = λ a b. a - b;
  mul = λ a b. a * b;
  div = λ a b. if b == 0 then 0 else a / b;
  min_f = λ a b. min a b;
  seconds = λ n. n / 1000000000;
  at_least_one = λ a. leb 1 a;
  le = λ a b. a ≤ b;
  le_trans = λ a b c h k. omega arith;
  min-le_left = λ a b. omega arith;
  min-le_right = λ a b. omega arith;
  sub-one-le = λ a n small h. omega arith;
  zero-lt-one = λ a h. ground arith;
  no_time = λ a rate interval h. no_refill a rate (interval / 1000000000);
}
