-- ===== src/Shield/Limiter/Burst.antt =====
-- How many requests a burst can get through the limiter, and what a request does to the bucket of
-- another source (internal/shield/ratelimit.go).
use freesbc.Base.{
  ℕ, zero, suc, ◌-◌, ◌^◌, ◌≤◌, ◌<◌, ◌≡◌, refl, ◌∙◌, inl, inr, Bool, true, false, Option, none, some,
  List, ◌∷◌, arith, if◌then◌else◌, Bool-cases, Option-cases,
}
use freesbc.Base.Assoc.{find, remove, find-front_self}
use freesbc.Base.Lru.{evict}
use freesbc.Shield.Limiter.{
  Float, RateKey, RateKey-discrete, Bucket, RateLimiter, full_bucket, refill, spend, take_keyed,
  take_token, bucket_cap,
}

module _ (fl : Float) where
  open fl use {
    of_ℕ, le, le_trans, sub-one-le, zero-lt-one, no_time, min-le_left, min-le_right, at_least_one,
  }

  -- `n` calls for one key at one instant: the limiter after them, and how many were admitted.
  pub burst : ℕ → RateKey → ℕ → ℕ → ℕ → RateLimiter fl → RateLimiter fl × ℕ
  burst zero key rate interval now r = (r, 0)
  burst (suc n) key rate interval now r =
      let (r', ok) = take_token fl key rate interval true now r in
      let (s, k) = burst n key rate interval now r' in (s, if ok then suc k else k)

  -- The bucket of a key holds at most `k` tokens at `now`, and was used then.
  abbrev HoldsAtMost : ℕ → ℕ → Option (Bucket fl) → Type 0
  HoldsAtMost k now none = ⊥
  HoldsAtMost k now (some b) = le b.tokens (of_ℕ k) × (b.last ≡ now)

  spend_left :
      (b : Bucket fl) (k : ℕ)
      → k < 2 ^ 53
      → le b.tokens (of_ℕ k)
      → ((spend fl b).1 ≡ true → (m : ℕ) × (k ≡ suc m) × le (spend fl b).0.tokens (of_ℕ m))
        × ((spend fl b).1 ≡ false → le (spend fl b).0.tokens (of_ℕ k))
        × ((spend fl b).0.last ≡ b.last)
  unfolding spend
  spend_left b zero small h = rw (zero-lt-one b.tokens h) (λ t. absurd (cc t), λ _. h, refl)
  spend_left b (suc m) small h = elim (Bool-cases (at_least_one b.tokens)) [
    | inl more ↦ rw more (λ _. (m, refl, sub-one-le b.tokens m small h), λ t. absurd (cc t), refl)
    | inr less ↦ rw less (λ t. absurd (cc t), λ _. h, refl)
  ]

  -- The bucket that `take` works on.
  abbrev start_bucket : ℕ → ℕ → Option (Bucket fl) → Bucket fl
  start_bucket rate now none = full_bucket fl rate now
  start_bucket rate now (some b) = b

  abbrev After : ℕ → Bool → RateKey → ℕ → RateLimiter fl → Type 0
  After k true key now r =
      (m : ℕ) × (k ≡ suc m) × HoldsAtMost m now (find RateKey-discrete key r.lru)
  After k false key now r = HoldsAtMost k now (find RateKey-discrete key r.lru)

  spend-After :
      (key : RateKey) (k now : ℕ) (b : Bucket fl) (r : RateLimiter fl)
      (l : List (RateKey × Bucket fl))
      → k < 2 ^ 53
      → b.last ≡ now
      → le b.tokens (of_ℕ k)
      → After k (spend fl b).1 key now (record r { lru = (key, (spend fl b).0) ∷ l })
  spend-After key k now b r l small at h = elim (Bool-cases (spend fl b).1) [
    | inl ok ↦
        let (more, less, same) = spend_left b k small h in
        let (m, e, left) = more ok in
        rw (ok, find-front_self RateKey-discrete key (spend fl b).0 l) (m, e, (left, same ∙ at))
    | inr no_token ↦
        let (more, less, same) = spend_left b k small h in
        rw (no_token, find-front_self RateKey-discrete key (spend fl b).0 l)
          (less no_token, same ∙ at)
  ]

  take_keyed-After :
      (key : RateKey) (rate interval k now : ℕ) (r : RateLimiter fl)
      → k < 2 ^ 53
      → le
          (refill fl rate interval now
            (start_bucket rate now (find RateKey-discrete key r.lru))).tokens
          (of_ℕ k)
      → After k
          (take_keyed fl key rate interval now r).1
          key
          now
          (take_keyed fl key rate interval now r).0
  unfolding take_keyed refill
  take_keyed-After key rate interval k now r small h =
      elim (Option-cases (find RateKey-discrete key r.lru)) [
        | inl new ↦
            rw (new, take_keyed)
              (spend-After key k now (refill fl rate interval now (full_bucket fl rate now)) r
                (evict bucket_cap r.lru) small refl (rw new at h))
        | inr (b, known) ↦
            rw (known, take_keyed)
              (spend-After key k now (refill fl rate interval now b) r
                (remove RateKey-discrete key r.lru) small refl (rw known at h))
      ]

  refill-le_rate :
      (rate interval now : ℕ) (b : Bucket fl)
      → le (refill fl rate interval now b).tokens (of_ℕ rate)
  unfolding refill
  refill-le_rate rate interval now b = min-le_left _ _

  -- At the instant of its last use a bucket gains nothing.
  refill-le_same :
      (rate interval k now : ℕ) (b : Bucket fl)
      → 0 < interval
      → HoldsAtMost k now (some b)
      → le (refill fl rate interval now b).tokens (of_ℕ k)
  unfolding refill
  refill-le_same rate interval k now b pos h =
      let none_passed : now - b.last ≡ 0 = omega arith in
      rw none_passed (
        le_trans _ _ _ (min-le_right _ _) (le_trans _ _ _ (no_time b.tokens rate interval pos) h.0))

  take_token-keyed :
      (key : RateKey) (rate interval now : ℕ) (r : RateLimiter fl)
      → 0 < rate
      → 0 < interval
      → take_token fl key rate interval true now r ≡ take_keyed fl key rate interval now r
  unfolding take_token
  take_token-keyed key rate interval now r p q = ground arith

  refill_held :
      (rate interval k now : ℕ) (o : Option (Bucket fl))
      → 0 < interval
      → HoldsAtMost k now o
      → le (refill fl rate interval now (start_bucket rate now o)).tokens (of_ℕ k)
  refill_held rate interval k now none q h = elim h [ ]
  refill_held rate interval k now (some b) q h = refill-le_same rate interval k now b q h

  -- From a bucket that is refilled to at most `k` tokens, at most `k` calls are admitted.
  burst-le :
      (n k : ℕ) (key : RateKey) (rate interval now : ℕ) (r : RateLimiter fl)
      → 0 < rate
      → 0 < interval
      → k < 2 ^ 53
      → le
          (refill fl rate interval now
            (start_bucket rate now (find RateKey-discrete key r.lru))).tokens
          (of_ℕ k)
      → (burst n key rate interval now r).1 ≤ k
  unfolding burst
  burst-le zero k key rate interval now r p q small h = omega arith
  burst-le (suc n) k key rate interval now r p q small h =
      rw (take_token-keyed key rate interval now r p q) (
        count_left (take_keyed fl key rate interval now r)
          (take_keyed-After key rate interval k now r small h)
          (λ m small' r' holds.
            burst-le n m key rate interval now r' p q small'
              (refill_held rate interval m now _ q holds)))
    where
      count_left :
          (t : RateLimiter fl × Bool)
          → After k t.1 key now t.0
          → ((m : ℕ)
              → m < 2 ^ 53
              → (r' : RateLimiter fl) → HoldsAtMost m now (find RateKey-discrete key r'.lru)
              → (burst n key rate interval now r').1 ≤ m)
          → (if t.1
              then suc (burst n key rate interval now t.0).1
              else (burst n key rate interval now t.0).1)
            ≤ k
      count_left (r', true) (m, e, left) rec = omega (arith, rec m (omega arith) r' left)
      count_left (r', false) left rec = rec k small r' left

  -- A burst is bounded by the rate: of any number of calls for one key at one instant, from any
  -- state of the limiter, at most `rate` are admitted. The rate and the interval are positive, and
  -- the rate is below 2^53, where float64 is exact.
  pub burst-le_rate :
      (n : ℕ) (key : RateKey) (rate interval now : ℕ) (r : RateLimiter fl)
      → 0 < rate
      → 0 < interval
      → rate < 2 ^ 53
      → (burst n key rate interval now r).1 ≤ rate
  burst-le_rate n key rate interval now r p q small =
      burst-le n rate key rate interval now r p q small (refill-le_rate rate interval now _)
