-- ===== src/Edge/Cooldown.antt =====
-- The passive health of the switch nodes, and the REGISTER circuit breaker: internal/edge/cooldown.go.
-- Instants are nanoseconds since the zero time, 0 is the zero time. Calls run under the table's mutex.
pub mod Breaker
pub mod Held
use freesbc.Base.{
  ℕ, zero, suc, ◌+◌, ◌-◌, ◌*◌, ◌/◌, ◌%◌, ◌^◌, ◌≤◌, ◌<◌, min, max, String, ◌≡◌, refl, sym, ap, ◌∙◌,
  ◌≢◌, ◌↔◌, ◌⊎◌, inl, inr, ite, if_pos, if_neg, Bool, true, false, not, ◌&&◌, ◌||◌, Option, none,
  some, List, [], ◌∷◌, ◌++◌, map, arith, ℕ_discrete, text_discrete, ltb, leb, ◌==◌, if◌then◌else◌,
  ltb→lt, lt→ltb, ltb_false→le, leb→le, leb_false→lt, le→leb, Bool-cases, Option-cases, false-true,
  length, drop_back, take, drop, keep, All, length-append, length-drop_back, length-drop_back-le,
  length-keep-le, length-take-le,
}
use freesbc.Base.Assoc.{
  find, remove, put, NoDup, find-remove, find-put, find-remove_self, find-remove_ne, find-put_self,
  find-put_ne, length-remove-le, length-remove_known, length-put_known, length-put_new,
  NoDup-remove, NoDup-put, passing, find-keep-none, find-keep, NoDup-keep, find-drop_back,
  find-drop_back-none, NoDup-drop_back, NoDup-touch, find-front_self, find-front_ne,
}
use freesbc.Base.Lru.{
  evict, length-evict, IsLru, IsLru-touch, IsLru-push, find-push_ne, find-touch_ne,
}

-- `regBreaker`.
pub record RegBreaker : Type 0 where
  pub fails : ℕ
  pub level : ℕ
  pub is_open : Bool
  pub open_until : ℕ
  pub probe_by : ℕ
  pub last_warn : ℕ

abbrev pub zero_breaker : RegBreaker
zero_breaker = record {
  fails = 0;
  level = 0;
  is_open = false;
  open_until = 0;
  probe_by = 0;
  last_warn = 0;
}

pub record CooldownTable : Type 0 where
  pub until : List (String × ℕ)
  pub last_fail : List (String × ℕ)
  pub reg : List (String × RegBreaker)

abbrev pub new_cooldown_table : CooldownTable
new_cooldown_table = record { until = []; last_fail = []; reg = [] }

abbrev pub register_breaker_threshold : ℕ
register_breaker_threshold = 3

-- Thirty seconds.
abbrev pub register_warn_window : ℕ
register_warn_window = 30000000000

-- `registerBreakerBackoff[i]`: 30 s, 1 m, 5 m. An index past the array is a panic.
unfoldable pub register_breaker_backoff : ℕ → Option ℕ
register_breaker_backoff zero = some 30000000000
register_breaker_backoff (suc zero) = some 60000000000
register_breaker_backoff (suc (suc zero)) = some 300000000000
register_breaker_backoff (suc (suc (suc i))) = none

abbrev pub breaker : String → CooldownTable → Option RegBreaker
breaker name h = find text_discrete name h.reg

abbrev pub with_breaker : String → RegBreaker → CooldownTable → CooldownTable
with_breaker name b h = record h { reg = put text_discrete name b h.reg }

-- `RegisterAllow` of a known breaker: the breaker, and whether the dial is allowed and is a probe.
unfoldable pub allow_breaker : ℕ → ℕ → RegBreaker → RegBreaker × Bool × Bool
allow_breaker budget now b =
    if not b.is_open
    then (b, true, false)
    else if ltb now b.open_until || ltb now b.probe_by
    then (b, false, false)
    else (record b { probe_by = now + budget }, true, true)

unfoldable pub register_allow : String → ℕ → ℕ → CooldownTable → CooldownTable × Bool × Bool
register_allow name budget now h = elim (breaker name h) [
  | none ↦ (h, true, false)
  | some b ↦
      let (b', allowed, probe) = allow_breaker budget now b in
      (with_breaker name b' h, allowed, probe)
]

unfoldable pub register_release : String → CooldownTable → CooldownTable
register_release name h = elim (breaker name h) [
  | none ↦ h
  | some b ↦ with_breaker name (record b { probe_by = 0 }) h
]

unfoldable pub register_answered : String → CooldownTable → CooldownTable
register_answered name h = elim (breaker name h) [
  | none ↦ h
  | some b ↦
      with_breaker name
        (record b { fails = 0; level = 0; is_open = false; open_until = 0; probe_by = 0 }) h
]

-- What `RegisterUnanswered` reports: whether the breaker opened, its window, whether to warn.
pub record Unanswered : Type 0 where
  pub opened : Bool
  pub window : ℕ
  pub warn : Bool

-- `b.open && probe || !b.open && b.fails >= registerBreakerThreshold`, after the count.
abbrev pub opens_now : Bool → RegBreaker → Bool
opens_now probe b =
    (b.is_open && probe) || (not b.is_open && leb register_breaker_threshold b.fails)

-- The warning of `RegisterUnanswered`.
unfoldable pub warned : Bool → ℕ → ℕ → RegBreaker → RegBreaker × Unanswered
warned opened window now b =
    if opened || leb (b.last_warn + register_warn_window) now
    then (record b { last_warn = now }, record { opened = opened; window = window; warn = true })
    else (b, record { opened = opened; window = window; warn = false })

-- `RegisterUnanswered` of a breaker; `none` is the panic of an index out of range.
unfoldable pub unanswered_breaker : Bool → ℕ → RegBreaker → Option (RegBreaker × Unanswered)
unanswered_breaker probe now b =
    let c = record b { fails = b.fails + 1 } in
    if opens_now probe c
    then elim (register_breaker_backoff (min c.level 2)) [
      | none ↦ none
      | some window ↦ some (
          warned true window now (record c {
            level = c.level + 1;
            is_open = true;
            open_until = now + window;
            probe_by = 0;
          }))
    ]
    else some (warned false 0 now c)

abbrev pub breaker_or_new : Option RegBreaker → RegBreaker
breaker_or_new none = zero_breaker
breaker_or_new (some b) = b

unfoldable pub register_unanswered :
    String → Bool → ℕ → CooldownTable → Option (CooldownTable × Unanswered)
register_unanswered name probe now h =
    elim (unanswered_breaker probe now (breaker_or_new (breaker name h))) [
      | none ↦ none
      | some (b, report) ↦ some (with_breaker name b h, report)
    ]

-- `Available`.
unfoldable pub available : String → ℕ → CooldownTable → Bool
available name now h = elim (find text_discrete name h.until) [ none ↦ true | some t ↦ leb t now ]

-- `Penalize`.
unfoldable pub penalize : String → ℕ → ℕ → CooldownTable → CooldownTable
penalize name cooldown now h = record h {
  until = put text_discrete name (now + cooldown) h.until;
  last_fail = put text_discrete name now h.last_fail;
}

-- `Recover`.
unfoldable pub recover : String → CooldownTable → CooldownTable
recover name h = record h { until = remove text_discrete name h.until }

-- The operator's view of a node.
pub record SwitchNodeInfo : Type 0 where
  pub address : String
  pub cooling_down : Bool
  pub cooldown_remaining : ℕ
  pub cooldown_until : ℕ
  pub last_failure : ℕ

abbrev pub instant_of : Option ℕ → ℕ
instant_of none = 0
instant_of (some t) = t

-- The end of a node's unavailability in `snapshot`: an open breaker may outlast the cooldown.
unfoldable pub blocked_until : Option ℕ → Option RegBreaker → Option ℕ
blocked_until cool none = cool
blocked_until cool (some b) =
    if b.is_open && ltb (instant_of cool) b.open_until then some b.open_until else cool

unfoldable pub node_info : String → ℕ → CooldownTable → SwitchNodeInfo
unfolding blocked_until
node_info n now h =
    let healthy : SwitchNodeInfo = record {
      address = n;
      cooling_down = false;
      cooldown_remaining = 0;
      cooldown_until = 0;
      last_failure = instant_of (find text_discrete n h.last_fail);
    } in
    elim (blocked_until (find text_discrete n h.until) (breaker n h)) [
      | none ↦ healthy
      | some t ↦
          if ltb now t
          then record healthy {
            cooling_down = true;
            cooldown_remaining = t - now;
            cooldown_until = t;
          }
          else healthy
    ]

-- `snapshot`: the nodes in the order given.
unfoldable pub snapshot : List String → ℕ → CooldownTable → List SwitchNodeInfo
unfolding node_info
snapshot names now h = map (λ n. node_info n now h) names
