-- ===== src/Edge/Admission.antt =====
-- Who may send a request to the public side, and what becomes of a dropped one:
-- internal/edge/admission.go. The carriers' snapshot is a parameter: whether it has an address
-- (`isSource`), and its carrier for a socket and a transport (`carrierFor`); so are
-- `strings.EqualFold` and the parser of a limit. The log lines are not in the model, but for
-- whether the first of a source is a warning.
pub mod Summary
pub mod Spared
pub mod Registered
use freesbc.Base.{
  ℕ, zero, suc, ◌+◌, ◌-◌, ◌*◌, ◌/◌, ◌%◌, ◌^◌, ◌≤◌, ◌<◌, min, max, String, ◌≡◌, refl, sym, ap, ◌∙◌,
  ◌≢◌, ◌↔◌, ◌⊎◌, inl, inr, ite, if_pos, if_neg, Bool, true, false, not, ◌&&◌, ◌||◌, Option, none,
  some, List, [], ◌∷◌, ◌++◌, map, arith, ℕ_discrete, text_discrete, ltb, leb, ◌==◌, if◌then◌else◌,
  ltb→lt, lt→ltb, ltb_false→le, leb→le, leb_false→lt, le→leb, Bool-cases, Option-cases, false-true,
  length, drop_back, take, drop, keep, All, length-append, length-drop_back, length-drop_back-le,
  length-keep-le, length-take-le,
}
use freesbc.Base.Assoc.{
  find, remove, put, NoDup, find-remove, find-put, find-remove_self, find-remove_ne, find-put_self,
  find-put_ne, length-remove-le, length-remove_known, length-put_known, length-put_new,
  NoDup-remove, NoDup-put, passing, find-keep-none, find-keep, NoDup-keep, find-drop_back,
  find-drop_back-none, NoDup-drop_back, NoDup-touch, find-front_self, find-front_ne,
}
use freesbc.Base.Lru.{
  evict, length-evict, IsLru, IsLru-touch, IsLru-push, find-push_ne, find-touch_ne,
}
use freesbc.Base.Every.{set_at}
use freesbc.Net.{Addr, Addr-discrete, AddrPort, unmap, without_zone}
use freesbc.Shield.Limiter.{Float}
use freesbc.Shield.Offenders.{StrikeLimit}
use freesbc.Shield.Gate.{Shield, ShieldConfig}
use freesbc.Shield.Strikes.{strike_on}
use freesbc.Edge.Location.{Binding, Location}
use freesbc.Edge.Location.Table.{has_source, source_binding, has_ip}

-- `dropReason`.
pub data DropReason : Type 0 where
  drop_invite_not_admitted : DropReason
  drop_register_enumeration : DropReason
  drop_subscribe_not_admitted : DropReason
  drop_message_not_admitted : DropReason
  drop_dialogless : DropReason
  drop_register_aor_locked : DropReason
  drop_options : DropReason

abbrev pub is_aor_locked : DropReason → Bool
is_aor_locked drop_invite_not_admitted = false
is_aor_locked drop_register_enumeration = false
is_aor_locked drop_subscribe_not_admitted = false
is_aor_locked drop_message_not_admitted = false
is_aor_locked drop_dialogless = false
is_aor_locked drop_register_aor_locked = true
is_aor_locked drop_options = false

-- `summaryCount` and `dropSummary`.
pub record SummaryCount : Type 0 where
  pub admission : ℕ
  pub malformed : ℕ

pub record DropSummary : Type 0 where
  pub admission : ℕ
  pub malformed : ℕ
  pub by_src : List (Addr × SummaryCount)
  pub overflow : Bool

abbrev pub max_summary_sources : ℕ
max_summary_sources = 1024

abbrev pub new_drop_summary : DropSummary
new_drop_summary = record { admission = 0; malformed = 0; by_src = []; overflow = false }

abbrev pub count_or_none : Option SummaryCount → SummaryCount
count_or_none none = record { admission = 0; malformed = 0 }
count_or_none (some c) = c

abbrev pub is_known : Option SummaryCount → Bool
is_known none = false
is_known (some c) = true

abbrev pub bump : Bool → SummaryCount → SummaryCount
bump malformed c =
    if malformed
    then record c { malformed = c.malformed + 1 }
    else record c { admission = c.admission + 1 }

-- `add`.
unfoldable pub add_drop : Addr → Bool → DropSummary → DropSummary
add_drop ip malformed d =
    let ip = without_zone (unmap ip) in
    let c = find Addr-discrete ip d.by_src in
    let full = not (is_known c) && leb max_summary_sources (length d.by_src) in
    let d =
      if malformed
      then record d { malformed = d.malformed + 1 }
      else record d { admission = d.admission + 1 } in
    if full
    then record d { overflow = true }
    else record d { by_src = put Addr-discrete ip (bump malformed (count_or_none c)) d.by_src }

-- `take`: the interval's summary, where there is something to report, and the new one.
unfoldable pub take_summary : DropSummary → DropSummary × Option DropSummary
take_summary d = (new_drop_summary, if d.admission + d.malformed == 0 then none else some d)

-- `warnKey`, with the reason as its number.
pub record WarnKey : Type 0 where
  pub reason : ℕ
  pub ip : Addr

pub WarnKey-discrete : Discrete WarnKey
WarnKey-discrete = hlevel (ℕ_discrete, Addr-discrete)

-- `warnOnce`.
pub record WarnOnce : Type 0 where
  pub seen : List (WarnKey × Unit {0})
  pub ring : List WarnKey
  pub next : ℕ
  pub max_keys : ℕ

abbrev pub max_warned_sources : ℕ
max_warned_sources = 4096

abbrev pub new_warn_once : ℕ → WarnOnce
new_warn_once n = record { seen = []; ring = []; next = 0; max_keys = n }

abbrev pub reason_number : DropReason → ℕ
reason_number drop_invite_not_admitted = 0
reason_number drop_register_enumeration = 1
reason_number drop_subscribe_not_admitted = 2
reason_number drop_message_not_admitted = 3
reason_number drop_dialogless = 4
reason_number drop_register_aor_locked = 5
reason_number drop_options = 6

abbrev pub nth_key : ℕ → List WarnKey → Option WarnKey
nth_key n [] = none
nth_key zero (k ∷ ks) = some k
nth_key (suc n) (k ∷ ks) = nth_key n ks

abbrev pub forget : Option WarnKey → List (WarnKey × Unit {0}) → List (WarnKey × Unit {0})
forget none m = m
forget (some k) m = remove WarnKey-discrete k m

-- `first`: whether this is the first drop remembered for the reason and the address.
unfoldable pub first_warning : DropReason → Addr → WarnOnce → WarnOnce × Bool
first_warning reason ip w =
    let k : WarnKey = record { reason = reason_number reason; ip = without_zone (unmap ip) } in
    elim (find WarnKey-discrete k w.seen) [
      | some u ↦ (w, false)
      | none ↦
          if ltb (length w.ring) w.max_keys
          then (
            record w { ring = w.ring ++ (k ∷ []); seen = put WarnKey-discrete k tt w.seen },
            true,
          )
          else (
            record w {
              ring = set_at w.next k w.ring;
              next = (w.next + 1) % w.max_keys;
              seen = put WarnKey-discrete k tt (forget (nth_key w.next w.ring) w.seen);
            },
            true,
          )
    ]

-- `inviteSource`, a carrier with its name.
pub data InviteSource : Type 0 where
  src_drop : InviteSource
  src_client : InviteSource
  src_carrier : String → InviteSource

-- `outOfDialogVerdict`, with the binding of a registered source.
pub data OutOfDialogVerdict : Type 0 where
  ood_admitted : Binding → OutOfDialogVerdict
  ood_carrier : OutOfDialogVerdict
  ood_dropped : OutOfDialogVerdict

-- What an admission check may change: the counters of the drops by reason, the summary, the
-- warnings, and the shield, where there is one.
pub record DropState (fl : Float) : Type 0 where
  pub dropped : List DropReason
  pub summary : DropSummary
  pub warned : WarnOnce
  pub shield : Option (Shield fl)

module _ (equal_fold : String → String → Bool)
    (carrier_for : AddrPort → String → Option String) where
  -- `admitPublicInvite`, over the lower-case transport.
  unfoldable pub admit_public_invite : ℕ → String → AddrPort → Location → InviteSource
  admit_public_invite now transport src loc =
      if has_source equal_fold now transport src loc
      then src_client
      else elim (carrier_for src transport) [ some name ↦ src_carrier name | none ↦ src_drop ]

module _ (fl : Float) (parse : List ℕ → Option StrikeLimit) (is_source : Addr → Bool) where
  -- `admissionStrike` and, for a malformed read, the shield's part of `malformedStrike`.
  unfoldable pub admission_strike :
      ShieldConfig → ℕ → Addr → String → List ℕ → Location → Option (Shield fl) → Option (Shield fl)
  admission_strike cfg now ip reason transport loc none = none
  admission_strike cfg now ip reason transport loc (some sh) =
      if is_source (unmap ip) || has_ip (unmap ip) loc
      then some sh
      else some (strike_on fl parse is_source (unmap ip) reason transport cfg now sh).0

  -- `malformedStrike`.
  unfoldable pub malformed_strike :
      ShieldConfig → ℕ → Addr → List ℕ → Location → DropState fl → DropState fl
  malformed_strike cfg now ip transport loc st = elim st.shield [
    | none ↦ st
    | some sh ↦ if is_source (unmap ip) || has_ip (unmap ip) loc then st else record st {
      summary = add_drop (unmap ip) true st.summary;
      shield = some (strike_on fl parse is_source (unmap ip) "malformed" transport cfg now sh).0;
    }
  ]

  -- `dropSilently`: whether the drop is logged as a warning.
  unfoldable pub drop_silently :
      ShieldConfig
      → ℕ
      → DropReason
      → List ℕ
      → AddrPort
      → Location
      → DropState fl
      → DropState fl × Bool
  drop_silently cfg now reason transport src loc st =
      let (w, warns) = first_warning reason src.addr st.warned in
      (
        record {
          dropped = reason ∷ st.dropped;
          summary = add_drop src.addr false st.summary;
          warned = w;
          shield =
              if is_aor_locked reason
              then st.shield
              else admission_strike cfg now src.addr "admission" transport loc st.shield;
        },
        warns,
      )

  module _ (equal_fold : String → String → Bool)
      (carrier_for : AddrPort → String → Option String) where
    -- `admitPublicOutOfDialog`; `transport` is the lower-case transport, `codes` its bytes, and
    -- `user` the From user.
    unfoldable pub admit_public_out_of_dialog :
        ShieldConfig
        → ℕ
        → String
        → List ℕ
        → AddrPort
        → String
        → DropReason
        → Location
        → DropState fl
        → DropState fl × OutOfDialogVerdict
    admit_public_out_of_dialog cfg now transport codes src user reason loc st =
        elim (source_binding equal_fold now transport src user loc) [
          | some b ↦ (st, ood_admitted b)
          | none ↦ elim (carrier_for src transport) [
            | some name ↦ (st, ood_carrier)
            | none ↦ ((drop_silently cfg now reason codes src loc st).0, ood_dropped)
          ]
        ]

    -- `admitDialogless`.
    abbrev pub is_drop : InviteSource → Bool
    is_drop src_drop = true
    is_drop src_client = false
    is_drop (src_carrier name) = false

    unfoldable pub admit_dialogless :
        ShieldConfig
        → ℕ
        → String
        → List ℕ
        → AddrPort
        → Location
        → DropState fl
        → DropState fl × Bool
    admit_dialogless cfg now transport codes src loc st =
        if is_drop (admit_public_invite equal_fold carrier_for now transport src loc)
        then ((drop_silently cfg now drop_dialogless codes src loc st).0, false)
        else (st, true)
