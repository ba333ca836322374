-- ===== src/Shield/Limiter/Isolation.antt =====
-- What one call does to the limiter's other buckets, and the limiter's bound
-- (internal/shield/ratelimit.go).
use freesbc.Base.{
  ℕ, ◌<◌, ◌≡◌, ◌≢◌, inl, inr, Bool, true, false, ◌||◌, arith, ◌==◌, Bool-cases, Option-cases,
  length, length-keep-le,
}
use freesbc.Base.Assoc.{find, NoDup-keep}
use freesbc.Base.Lru.{IsLru, IsLru-touch, IsLru-push, find-push_ne, find-touch_ne}
use freesbc.Shield.Limiter.{
  Float, RateKey, RateKey-discrete, Bucket, RateLimiter, new_rate_limiter, full_bucket, refill,
  spend, take_keyed, take_global, take_token, prune, bucket_cap,
}

module _ (fl : Float) where
  abbrev spent_bucket : ℕ → ℕ → ℕ → Bucket fl → Bucket fl
  spent_bucket rate interval now b = (spend fl (refill fl rate interval now b)).0

  -- The buckets are separate: a call for one key changes no other key's bucket, as long as the
  -- table has room, and leaves the global bucket alone.
  pub take_token-isolates :
      (j key : RateKey) (rate interval now : ℕ) (r : RateLimiter fl)
      → j ≢ key
      → length r.lru < bucket_cap
      → (find RateKey-discrete j (take_token fl key rate interval true now r).0.lru
          ≡ find RateKey-discrete j r.lru)
        × ((take_token fl key rate interval true now r).0.global ≡ r.global)
  unfolding take_token take_keyed
  take_token-isolates j key rate interval now r ne room =
      elim (Option-cases (find RateKey-discrete key r.lru)) [
        | inl new ↦
            let b = spent_bucket rate interval now (full_bucket fl rate now) in
            (
              ground (arith, new, find-push_ne RateKey-discrete bucket_cap j key b r.lru ne room),
              ground (arith, new),
            )
        | inr (b, known) ↦
            let b' = spent_bucket rate interval now b in
            (
              ground (arith, known, find-touch_ne RateKey-discrete j key b' r.lru ne),
              ground (arith, known),
            )
      ]

  abbrev pub IsCapped : RateLimiter fl → Type 0
  IsCapped r = IsLru RateKey-discrete bucket_cap r.lru

  take_keyed-IsCapped :
      (key : RateKey) (rate interval now : ℕ) (r : RateLimiter fl)
      → IsCapped r
      → IsCapped (take_keyed fl key rate interval now r).0
  unfolding take_keyed
  take_keyed-IsCapped key rate interval now r h =
      elim (Option-cases (find RateKey-discrete key r.lru)) [
        | inl new ↦
            rw (new, take_keyed)
              (IsLru-push RateKey-discrete bucket_cap key _ r.lru (omega arith) new h)
        | inr (b, known) ↦
            rw (known, take_keyed) (IsLru-touch RateKey-discrete bucket_cap key _ b r.lru known h)
      ]

  take_token-IsCapped :
      (key : RateKey) (rate interval : ℕ) (per_ip : Bool) (now : ℕ) (r : RateLimiter fl)
      → IsCapped r
      → IsCapped (take_token fl key rate interval per_ip now r).0
  unfolding take_token take_global
  take_token-IsCapped key rate interval true now r h =
      elim (Bool-cases (rate == 0 || interval == 0)) [
        | inl unlimited ↦ rw unlimited h
        | inr limited ↦ rw limited (take_keyed-IsCapped key rate interval now r h)
      ]
  take_token-IsCapped key rate interval false now r h =
      elim (Bool-cases (rate == 0 || interval == 0)) [
        | inl unlimited ↦ rw unlimited h
        | inr limited ↦ rw limited h
      ]

  prune-IsCapped : (now : ℕ) (r : RateLimiter fl) → IsCapped r → IsCapped (prune fl now r)
  unfolding prune
  prune-IsCapped now r h = record {
    bounded = omega (arith, length-keep-le {0} _ r.lru, h.bounded);
    distinct = NoDup-keep RateKey-discrete _ r.lru h.distinct;
  }

  pub data Reach : RateLimiter fl → Type 0 where
    start : Reach (new_rate_limiter fl)
    takes :
        {r : RateLimiter fl} (key : RateKey) (rate interval : ℕ) (per_ip : Bool) (now : ℕ)
        → Reach r
        → Reach (take_token fl key rate interval per_ip now r).0
    prunes : {r : RateLimiter fl} (now : ℕ) → Reach r → Reach (prune fl now r)

  -- The limiter is bounded: after any calls from a new one, at any instants and with any limits, it
  -- keeps at most 65,536 buckets, and one for a key at most.
  pub Reach-IsCapped : {r : RateLimiter fl} → Reach r → IsCapped r
  Reach-IsCapped start = record { bounded = omega arith; distinct = tt }
  Reach-IsCapped (takes {r} key rate interval per_ip now h) =
      take_token-IsCapped key rate interval per_ip now r (Reach-IsCapped h)
  Reach-IsCapped (prunes {r} now h) = prune-IsCapped now r (Reach-IsCapped h)
