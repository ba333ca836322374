-- ===== src/Edge/RegProof.antt =====
-- What a public REGISTER and its answer do to the edge's state: internal/edge/registerproof.go and
-- the handlers' half of internal/edge/regguard.go. Text comparison and case folding
-- (`strings.EqualFold`, `strings.ToLower`), the hash of the guard and the parser of a limit are
-- parameters, as is the test of a carrier's address (the snapshot's `isSource`).
pub mod Proof
use freesbc.Base.{
  ℕ, zero, suc, ◌+◌, ◌-◌, ◌*◌, ◌/◌, ◌%◌, ◌^◌, ◌≤◌, ◌<◌, min, max, String, ◌≡◌, refl, sym, ap, ◌∙◌,
  ◌≢◌, ◌↔◌, ◌⊎◌, inl, inr, ite, if_pos, if_neg, Bool, true, false, not, ◌&&◌, ◌||◌, Option, none,
  some, List, [], ◌∷◌, ◌++◌, map, arith, ℕ_discrete, text_discrete, ltb, leb, ◌==◌, if◌then◌else◌,
  ltb→lt, lt→ltb, ltb_false→le, leb→le, leb_false→lt, le→leb, Bool-cases, Option-cases, false-true,
  length, drop_back, take, drop, keep, All, length-append, length-drop_back, length-drop_back-le,
  length-keep-le, length-take-le,
}
use freesbc.Base.Assoc.{
  find, remove, put, NoDup, find-remove, find-put, find-remove_self, find-remove_ne, find-put_self,
  find-put_ne, length-remove-le, length-remove_known, length-put_known, length-put_new,
  NoDup-remove, NoDup-put, passing, find-keep-none, find-keep, NoDup-keep, find-drop_back,
  find-drop_back-none, NoDup-drop_back, NoDup-touch, find-front_self, find-front_ne,
}
use freesbc.Base.Lru.{
  evict, length-evict, IsLru, IsLru-touch, IsLru-push, find-push_ne, find-touch_ne,
}
use freesbc.Base.Text.{codes}
use freesbc.Net.{Addr, Addr-discrete, AddrPort, unmap}
use freesbc.Shield.Limiter.{Float}
use freesbc.Shield.Offenders.{StrikeLimit}
use freesbc.Shield.Gate.{Shield, ShieldConfig}
use freesbc.Shield.Strikes.{clear_strikes, clear_aor, strike_aor, strike_ip, aor_locked}
use freesbc.Edge.Location.{Binding, Location}
use freesbc.Edge.Location.Table.{lookup_aor}
use freesbc.Edge.RegGuard.{RegGuard, enum_key, challenged, countable, is_blank}

-- `fsip.RegisterHead`: what `ScanRegister` reads of a REGISTER.
pub record RegisterHead : Type 0 where
  pub auth : Bool
  pub user : String
  pub aor : String
  pub call_id : String
  pub branch : String
  pub nonce : String
  pub auth_key : ℕ

-- `bindingInput`, as far as the answer's handling reads it.
pub record BindingInput : Type 0 where
  pub has_contact : Bool
  pub head : RegisterHead
  pub user : String
  pub aor : String
  pub call_id : String
  pub source : AddrPort

-- `bindingReject`.
pub data BindingReject : Type 0 where
  reject_no_contact : BindingReject
  reject_no_auth : BindingReject
  reject_auth_mismatch : BindingReject

-- The verdict of `bindingProof`.
pub data BindingProof : Type 0 where
  proven : BindingProof
  rejected_for : BindingReject → BindingProof

-- The registrar's final answer: its status, the nonces of its challenges, and whether one is stale
-- (`challengeNonces`).
pub record RegisterAnswer : Type 0 where
  pub code : ℕ
  pub nonces : List String
  pub stale : Bool

-- What the handlers share: the shield, where there is one, the bindings, the guard, and the
-- counter of refused credentials.
pub record EdgeState (fl : Float) : Type 0 where
  pub shield : Option (Shield fl)
  pub loc : Location
  pub reg_guard : RegGuard
  pub auth_failed : ℕ

abbrev pub holds_key : Addr → List Binding → Bool
holds_key ip [] = false
holds_key ip (b ∷ bs) =
    ite (Addr-discrete (enum_key b.source.addr) (enum_key ip)) true false || holds_key ip bs

abbrev pub same : String → String → Bool
same s t = ite (text_discrete s t) true false

module _ (lower : String → String) where
  -- `refreshesBinding`.
  unfoldable pub refreshes_binding : ℕ → Addr → String → String → Location → Bool
  refreshes_binding now ip aor call_id loc =
      not (is_blank aor || is_blank call_id)
      && holds_key ip (keep (λ b. same b.call_id call_id) (lookup_aor lower now aor loc))

  module _ (equal_fold : String → String → Bool) (allow_mismatch : Bool) where
    -- `credentialMatches`.
    unfoldable pub credential_matches : BindingInput → Bool
    credential_matches i =
        i.head.auth
        && (allow_mismatch || (not (is_blank i.head.user) && equal_fold i.head.user i.user))

    -- `bindingProof`.
    unfoldable pub binding_proof : ℕ → BindingInput → Location → BindingProof
    binding_proof now i loc =
        if not i.has_contact
        then rejected_for reject_no_contact
        else if credential_matches i
        then proven
        else if refreshes_binding now (unmap i.source.addr) i.aor i.call_id loc
        then proven
        else if i.head.auth
        then rejected_for reject_auth_mismatch
        else rejected_for reject_no_auth

  module _ (fl : Float) (parse : List ℕ → Option StrikeLimit) (is_source : Addr → Bool)
      (reg_hash : String → ℕ) where
    -- The strikes of `registerStrike`, once the attempt is counted.
    unfoldable pub strike_attempt :
        ShieldConfig → ℕ → Addr → RegisterHead → Shield fl → EdgeState fl → EdgeState fl × Bool
    strike_attempt cfg now ip head sh st =
        let (sh1, locked) = strike_aor fl parse (codes head.aor) cfg now sh in
        let (sh2, banned) = strike_ip fl parse is_source ip "register" cfg now sh1 in
        (record st { shield = some sh2; auth_failed = st.auth_failed + 1 }, banned)

    -- `registerStrike`: whether the strike banned the source.
    unfoldable pub register_strike :
        ShieldConfig → ℕ → AddrPort → RegisterHead → Bool → EdgeState fl → EdgeState fl × Bool
    register_strike cfg now src head replay st =
        let ip = unmap src.addr in
        let (g, counts) =
          countable reg_hash now ip head.branch head.nonce head.auth_key replay st.reg_guard in
        elim st.shield [
          | none ↦ (st, false)
          | some sh ↦
              if not head.auth
              then (st, false)
              else if is_source ip || refreshes_binding now ip head.aor head.call_id st.loc
              then (st, false)
              else if not counts
              then (record st { reg_guard = g }, false)
              else strike_attempt cfg now ip head sh (record st { reg_guard = g })
        ]

    -- `aorLockedFor`.
    unfoldable pub aor_locked_for :
        ShieldConfig → ℕ → Addr → String → EdgeState fl → EdgeState fl × Bool
    aor_locked_for cfg now src aor st = elim st.shield [
      | none ↦ (st, false)
      | some sh ↦
          let (sh1, locked) = aor_locked fl parse (codes aor) cfg now sh in
          (
            record st { shield = some sh1 },
            locked
                && not (is_source (unmap src))
                && not (holds_key (unmap src) (lookup_aor lower now aor st.loc)),
          )
    ]

    -- The codes that refuse a credential, and those that challenge for one.
    abbrev pub is_refusal : ℕ → Bool
    is_refusal code = code == 401 || code == 403 || code == 404 || code == 407

    abbrev pub is_challenge : ℕ → Bool
    is_challenge code = code == 401 || code == 407

    module _ (equal_fold : String → String → Bool) (allow_mismatch : Bool) where
      -- What a 2xx clears, where its request proved a credential.
      unfoldable pub clear_source : BindingInput → EdgeState fl → EdgeState fl
      clear_source i st = elim st.shield [
        | none ↦ st
        | some sh ↦ record st {
          shield = some (
              clear_aor fl (codes i.aor) (
                clear_strikes fl i.source.addr "admission"
                  (clear_strikes fl i.source.addr "register" sh)));
        }
      ]

      -- `registerOutcome`.
      unfoldable pub register_outcome :
          ShieldConfig → ℕ → BindingInput → RegisterAnswer → EdgeState fl → EdgeState fl
      register_outcome cfg now i res st =
          let cleared = clear_source i st in
          let struck = (register_strike cfg now i.source i.head false st).0 in
          let st1 = if is_refusal res.code && not res.stale then struck else st in
          if res.code / 100 == 2
          then (if credential_matches equal_fold allow_mismatch i then cleared else st)
          else if is_challenge res.code
          then record st1 {
            reg_guard =
                challenged reg_hash now i.source.addr i.head.branch res.nonces st1.reg_guard;
          }
          else st1
