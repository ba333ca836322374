-- ===== src/Shield/Limiter.antt =====
-- The token buckets of internal/shield/ratelimit.go. The map and its LRU list are one association
-- list, most recently used first. Calls run under the limiter's mutex. Tokens are float64: the
-- arithmetic is a parameter, with the IEEE facts that the code relies on as its laws. The clock is
-- monotonic (`time.Now`), so `now.Sub(b.last)` is never negative. A rate or an interval below 0 is
-- treated as 0 by the code, and is not modelled apart from it.
pub mod Burst
pub mod Isolation
use freesbc.Base.{
  ℕ, zero, suc, ◌+◌, ◌-◌, ◌*◌, ◌/◌, ◌%◌, ◌^◌, ◌≤◌, ◌<◌, min, max, String, ◌≡◌, refl, sym, ap, ◌∙◌,
  ◌≢◌, ◌↔◌, ◌⊎◌, inl, inr, ite, if_pos, if_neg, Bool, true, false, not, ◌&&◌, ◌||◌, Option, none,
  some, List, [], ◌∷◌, ◌++◌, map, arith, ℕ_discrete, text_discrete, ltb, leb, ◌==◌, if◌then◌else◌,
  ltb→lt, lt→ltb, ltb_false→le, leb→le, leb_false→lt, le→leb, Bool-cases, Option-cases, false-true,
  length, drop_back, take, drop, keep, All, length-append, length-drop_back, length-drop_back-le,
  length-keep-le, length-take-le,
}
use freesbc.Base.Assoc.{
  find, remove, put, NoDup, find-remove, find-put, find-remove_self, find-remove_ne, find-put_self,
  find-put_ne, length-remove-le, length-remove_known, length-put_known, length-put_new,
  NoDup-remove, NoDup-put, passing, find-keep-none, find-keep, NoDup-keep, find-drop_back,
  find-drop_back-none, NoDup-drop_back, NoDup-touch, find-front_self, find-front_ne,
}
use freesbc.Base.Lru.{
  evict, length-evict, IsLru, IsLru-touch, IsLru-push, find-push_ne, find-touch_ne,
}
use freesbc.Net.{Addr, AddrPort, AddrPort-discrete, bucket_key}

-- float64 as far as the limiter uses it. `le` is the order; integers up to 2^53 are exact.
pub record Float : Type 1 where
  pub F : Type 0
  pub of_ℕ : ℕ → F
  pub add : F → F → F
  pub sub : F → F → F
  pub mul : F → F → F
  pub div : F → F → F
  pub min_f : F → F → F
  -- `Duration.Seconds`, of a duration in nanoseconds.
  pub seconds : ℕ → F
  -- `t >= 1`.
  pub at_least_one : F → Bool
  pub le : F → F → Type 0
  pub le_trans : (a b c : F) → le a b → le b c → le a c
  pub min-le_left : (a b : F) → le (min_f a b) a
  pub min-le_right : (a b : F) → le (min_f a b) b
  pub sub-one-le :
      (a : F) (n : ℕ) → suc n < 2 ^ 53 → le a (of_ℕ (suc n)) → le (sub a (of_ℕ 1)) (of_ℕ n)
  pub zero-lt-one : (a : F) → le a (of_ℕ 0) → at_least_one a ≡ false
  pub no_time :
      (a : F) (rate interval : ℕ)
      → 0 < interval
      → le (add a (div (mul (seconds 0) (of_ℕ rate)) (seconds interval))) a

abbrev pub bucket_cap : ℕ
bucket_cap = 65536

pub record RateKey : Type 0 where
  pub src : AddrPort
  pub stream : Bool
  pub socket : Bool

pub RateKey-discrete : Discrete RateKey
RateKey-discrete = hlevel AddrPort-discrete

module _ (fl : Float) where
  open fl use {F, of_ℕ, add, sub, mul, div, min_f, seconds, at_least_one}

  pub record Bucket : Type 0 where
    pub tokens : F
    pub last : ℕ
    pub interval : ℕ

  pub record RateLimiter : Type 0 where
    pub lru : List (RateKey × Bucket)
    pub global : Option Bucket

  abbrev pub new_rate_limiter : RateLimiter
  new_rate_limiter = record { lru = []; global = none }

  -- A bucket starts full.
  abbrev pub full_bucket : ℕ → ℕ → Bucket
  full_bucket rate now = record { tokens = of_ℕ rate; last = now; interval = 0 }

  -- The refill of `take`: up to the capacity.
  unfoldable pub refill : ℕ → ℕ → ℕ → Bucket → Bucket
  refill rate interval now b = record b {
    tokens =
        min_f (of_ℕ rate)
          (add b.tokens (div (mul (seconds (now - b.last)) (of_ℕ rate)) (seconds interval)));
    last = now;
    interval = interval;
  }

  -- A token is taken if one is there.
  unfoldable pub spend : Bucket → Bucket × Bool
  spend b =
      if at_least_one b.tokens
      then (record b { tokens = sub b.tokens (of_ℕ 1) }, true)
      else (b, false)

  -- `take` of a per-source bucket.
  unfoldable pub take_keyed : RateKey → ℕ → ℕ → ℕ → RateLimiter → RateLimiter × Bool
  take_keyed key rate interval now r = elim (find RateKey-discrete key r.lru) [
    | some b ↦
        let (b', ok) = spend (refill rate interval now b) in
        (record r { lru = (key, b') ∷ remove RateKey-discrete key r.lru }, ok)
    | none ↦
        let (b', ok) = spend (refill rate interval now (full_bucket rate now)) in
        (record r { lru = (key, b') ∷ evict bucket_cap r.lru }, ok)
  ]

  abbrev bucket_or : Bucket → Option Bucket → Bucket
  bucket_or b none = b
  bucket_or b (some c) = c

  -- `take` of the global bucket.
  unfoldable pub take_global : ℕ → ℕ → ℕ → RateLimiter → RateLimiter × Bool
  take_global rate interval now r =
      let (b', ok) = spend (refill rate interval now (bucket_or (full_bucket rate now) r.global)) in
      (record r { global = some b' }, ok)

  -- `take`: a limit with no rate or no interval never throttles.
  unfoldable pub take_token : RateKey → ℕ → ℕ → Bool → ℕ → RateLimiter → RateLimiter × Bool
  take_token key rate interval per_ip now r =
      if rate == 0 || interval == 0
      then (r, true)
      else if per_ip
      then take_keyed key rate interval now r
      else take_global rate interval now r

  -- `allow`: the datagram class of the source's per-IP bucket.
  unfoldable pub allow : Addr → ℕ → ℕ → Bool → ℕ → RateLimiter → RateLimiter × Bool
  unfolding take_token
  allow src rate interval per_ip now r =
      take_token
        (record {
          src = record { addr = bucket_key src; port = 0 };
          stream = false;
          socket = false;
        })
        rate interval per_ip now r

  -- `prune`: drops the buckets that were idle for their own refill interval.
  unfoldable pub prune : ℕ → RateLimiter → RateLimiter
  prune now r = record r { lru = keep (λ e. ltb now (e.1.last + e.1.interval)) r.lru }

-- `Limiter.Allow`: the global limiter of the rest of the program, whose bucket is never per source.
unfoldable pub limiter_allow : (fl : Float) → ℕ → ℕ → ℕ → RateLimiter fl → RateLimiter fl × Bool
limiter_allow fl rate interval now r = allow fl Addr.invalid rate interval false now r
