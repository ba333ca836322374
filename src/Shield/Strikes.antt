-- ===== src/Shield/Strikes.antt =====
-- Strikes: the methods of Shield in internal/shield/offenders.go and aorstrikes.go. A strike is
-- counted against its budget, and past the threshold the source is banned. Reasons are the source's
-- strings. Log lines are left out.
use freesbc.Base.{
  ℕ, zero, suc, ◌+◌, ◌-◌, ◌*◌, ◌/◌, ◌%◌, ◌^◌, ◌≤◌, ◌<◌, min, max, String, ◌≡◌, refl, sym, ap, ◌∙◌,
  ◌≢◌, ◌↔◌, ◌⊎◌, inl, inr, ite, if_pos, if_neg, Bool, true, false, not, ◌&&◌, ◌||◌, Option, none,
  some, List, [], ◌∷◌, ◌++◌, map, arith, ℕ_discrete, text_discrete, ltb, leb, ◌==◌, if◌then◌else◌,
  ltb→lt, lt→ltb, ltb_false→le, leb→le, leb_false→lt, le→leb, Bool-cases, Option-cases, false-true,
  length, drop_back, take, drop, keep, All, length-append, length-drop_back, length-drop_back-le,
  length-keep-le, length-take-le,
}
use freesbc.Base.Assoc.{
  find, remove, put, NoDup, find-remove, find-put, find-remove_self, find-remove_ne, find-put_self,
  find-put_ne, length-remove-le, length-remove_known, length-put_known, length-put_new,
  NoDup-remove, NoDup-put, passing, find-keep-none, find-keep, NoDup-keep, find-drop_back,
  find-drop_back-none, NoDup-drop_back, NoDup-touch, find-front_self, find-front_ne,
}
use freesbc.Base.Lru.{
  evict, length-evict, IsLru, IsLru-touch, IsLru-push, find-push_ne, find-touch_ne,
}
pub mod Datagrams
pub mod Effect
use Prim.Native.String.{◌++◌ as text_append}
use freesbc.Net.{Addr, Addr-discrete, unmap, bucket_key}
use freesbc.Shield.BanList
use freesbc.Shield.Limiter.{Float}
use freesbc.Shield.Offenders
use freesbc.Shield.Offenders.{StrikeLimit, Report, OffenderKey}
use freesbc.Shield.Aors
use freesbc.Shield.Gate.{Shield, ShieldConfig, bannable_transport}

abbrev pub strike_off : StrikeLimit
strike_off = record { n = 0; window = 0; off = true }

abbrev pub strike_unset : StrikeLimit
strike_unset = record { n = 0; window = 0; off = false }

-- The threshold that a reason is held to: the name it is cached under, and its text.
unfoldable pub threshold : ShieldConfig → String → Option (String × List ℕ)
threshold cfg reason = ite (text_discrete reason "register") (some ("register", cfg.register_ban)) (
    ite (text_discrete reason "admission") (some ("admission", cfg.admission_ban)) (
      ite (text_discrete reason "malformed") (some ("admission", cfg.admission_ban)) (
        ite (text_discrete reason "register_aor") (some ("register_aor", cfg.register_ban_aor))
          none)))

-- What the caches hold of a name: the zero values, if nothing yet.
abbrev pub cached : Option (List ℕ × StrikeLimit) → List ℕ × StrikeLimit
cached none = ([], strike_unset)
cached (some c) = c

-- A threshold that does not parse is off.
abbrev pub parsed : Option StrikeLimit → StrikeLimit
parsed none = strike_off
parsed (some lim) = lim

-- `lim.Off || lim.N <= 0 || lim.Window <= 0`.
abbrev pub counts_nothing : StrikeLimit → Bool
counts_nothing lim = lim.off || lim.n == 0 || lim.window == 0

-- The budget of a reason: malformed datagrams share the one of admission.
unfoldable pub budget_of : String → String
budget_of reason = ite (text_discrete reason "malformed") "admission" reason

abbrev pub scoped : Bool → String → String
scoped true reason = text_append reason "_udp"
scoped false reason = reason

-- The part that a strike is tallied under in the offender view.
unfoldable pub part_of : Bool → String → String
part_of udp reason = ite (text_discrete (budget_of reason) "admission") (scoped udp reason) ""

module _ (fl : Float) where
  -- `ClearStrikes`.
  unfoldable pub clear_strikes : Addr → String → Shield fl → Shield fl
  clear_strikes src reason s =
      let t = Offenders.clear (record { src = bucket_key src; reason = reason }) s.offenders in
      let u = Offenders.clear (record { src = bucket_key src; reason = "admission_udp" }) t in
      record s { offenders = ite (text_discrete reason "admission") u t }

  -- The ban of a source that is over its threshold, in the table of the strike's scope.
  unfoldable pub strike_ban : Bool → Addr → String → ℕ → ℕ → Shield fl → Shield fl × Bool
  strike_ban true src reason dur now s =
      let (b, ok) = BanList.ban Addr-discrete src dur reason now s.udp_bans in
      (record s { udp_bans = b }, ok)
  strike_ban false src reason dur now s =
      let (b, ok) = BanList.ban Addr-discrete src dur reason now s.bans in
      (record s { bans = b }, ok)

  module _ (parse : List ℕ → Option StrikeLimit) where
    -- `strikeLimit`: parsed again when the text changes.
    unfoldable pub strike_limit : ShieldConfig → String → Shield fl → Shield fl × StrikeLimit
    strike_limit cfg reason s = elim (threshold cfg reason) [
      | none ↦ (s, strike_off)
      | some (name, text) ↦
          let known = cached (find text_discrete name s.strike_cache) in
          let lim = parsed (parse text) in
          ite (Aors.Bytes-discrete known.0 text) (s, known.1)
            (record s { strike_cache = put text_discrete name (text, lim) s.strike_cache }, lim)
    ]

    -- `AORLocked`.
    unfoldable pub aor_locked : List ℕ → ShieldConfig → ℕ → Shield fl → Shield fl × Bool
    aor_locked [] cfg now s = (s, false)
    aor_locked (c ∷ aor) cfg now s =
        let (s', lim) = strike_limit cfg "register_aor" s in
        if counts_nothing lim then (s', false) else (s', Aors.is_locked (c ∷ aor) now s'.aors)

    -- `StrikeAOR`.
    unfoldable pub strike_aor : List ℕ → ShieldConfig → ℕ → Shield fl → Shield fl × Bool
    strike_aor [] cfg now s = (s, false)
    strike_aor (c ∷ aor) cfg now s =
        let (s', lim) = strike_limit cfg "register_aor" s in
        let (t, report) = Aors.strike (c ∷ aor) lim cfg.ban now s'.aors in
        if counts_nothing lim then (s', false) else (record s' { aors = t }, report.over)

    module _ (is_carrier : Addr → Bool) where
      -- The unexported `strike`, past its exemptions: the count, and the ban it leads to.
      unfoldable pub strike_counted :
          Bool → Addr → String → StrikeLimit → ShieldConfig → ℕ → Shield fl → Shield fl × Bool
      strike_counted udp src reason lim cfg now s =
          let key : OffenderKey = record {
            src = bucket_key src;
            reason = scoped udp (budget_of reason);
          } in
          let (t, report) = Offenders.strike key (part_of udp reason) lim now s.offenders in
          let counted = record s { offenders = t } in
          if report.over then strike_ban udp src reason cfg.ban now counted else (counted, false)

      unfoldable pub strike : Bool → Addr → String → ShieldConfig → ℕ → Shield fl → Shield fl × Bool
      strike udp src reason cfg now s =
          let (s', lim) = strike_limit cfg reason s in
          if is_carrier (unmap src)
          then (s, false)
          else if counts_nothing lim
          then (s', false)
          else strike_counted udp (unmap src) reason lim cfg now s'

      -- `Strike`.
      unfoldable pub strike_ip : Addr → String → ShieldConfig → ℕ → Shield fl → Shield fl × Bool
      strike_ip src reason cfg now s = strike false src reason cfg now s

      -- `StrikeOn`.
      unfoldable pub strike_on :
          Addr → String → List ℕ → ShieldConfig → ℕ → Shield fl → Shield fl × Bool
      strike_on src reason transport cfg now s =
          strike (not (bannable_transport transport)) src reason cfg now s

  -- `ClearAOR`.
  unfoldable pub clear_aor : List ℕ → Shield fl → Shield fl
  clear_aor aor s = record s { aors = Aors.clear aor s.aors }
