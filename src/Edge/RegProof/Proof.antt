-- ===== src/Edge/RegProof/Proof.antt =====
-- When a REGISTER proves itself, is struck, or is forgiven (internal/edge/registerproof.go,
-- internal/edge/regguard.go).
use freesbc.Base.{
  ℕ, ◌/◌, String, ◌≡◌, refl, ap, ◌↔◌, inl, inr, Bool, true, false, not, ◌||◌, Option, List, arith,
  ◌==◌, Bool-cases, Option-cases, false-true,
}
use freesbc.Net.{Addr, AddrPort, unmap}
use freesbc.Shield.Limiter.{Float}
use freesbc.Shield.Offenders.{StrikeLimit}
use freesbc.Shield.Gate.{ShieldConfig}
use freesbc.Edge.Location.{Location}
use freesbc.Edge.Location.Table.{lookup_aor}
use freesbc.Edge.RegProof.{
  RegisterHead, BindingInput, BindingReject, reject_no_contact, reject_no_auth,
  reject_auth_mismatch, BindingProof, proven, rejected_for, RegisterAnswer, EdgeState, holds_key,
  refreshes_binding, credential_matches, binding_proof, register_strike, aor_locked_for,
  register_outcome,
}

is_proven : BindingProof → Bool
is_proven proven = true
is_proven (rejected_for why) = false

not_proven : (why : BindingReject) → rejected_for why ≡ proven → ⊥
unfolding is_proven
not_proven why e = false-true (ap is_proven e)

module _ (lower : String → String) (equal_fold : String → String → Bool)
    (allow_mismatch : Bool) where
  -- The 2xx to a REGISTER proves its binding if and only if the REGISTER had a Contact and carried a
  -- credential that counts for its AoR or refreshes a live binding of its AoR and Call-ID from the
  -- same source key.
  pub binding_proof-proven_iff :
      (now : ℕ) (i : BindingInput) (loc : Location)
      → (binding_proof lower equal_fold allow_mismatch now i loc ≡ proven) ↔ (
          (i.has_contact ≡ true)
          × (credential_matches lower equal_fold allow_mismatch i
                || refreshes_binding lower now (unmap i.source.addr) i.aor i.call_id loc
              ≡ true))
  unfolding binding_proof credential_matches
  binding_proof-proven_iff now i loc =
      let matches = credential_matches lower equal_fold allow_mismatch i in
      let again = refreshes_binding lower now (unmap i.source.addr) i.aor i.call_id loc in
      elim (Bool-cases i.has_contact) [
        | inr none_given ↦ (
          λ e. absurd (not_proven reject_no_contact (rw none_given at e)),
          λ h. absurd (ground (arith, h, none_given)),
        )
        | inl given ↦ elim (Bool-cases matches) [
          | inl m ↦ rw (given, m) (λ e. (refl, refl), λ h. refl)
          | inr m ↦ elim (Bool-cases again) [
            | inl a ↦ rw (given, m, a) (λ e. (refl, refl), λ h. refl)
            | inr a ↦ elim (Bool-cases i.head.auth) [
              | inl t ↦ (
                λ e. absurd (not_proven reject_auth_mismatch (rw (given, m, a, t) at e)),
                λ h. absurd (ground (arith, h, m, a)),
              )
              | inr t ↦ (
                λ e. absurd (not_proven reject_no_auth (rw (given, m, a, t) at e)),
                λ h. absurd (ground (arith, h, m, a)),
              )
            ]
          ]
        ]
      ]

module _ (lower : String → String) (fl : Float) (parse : List ℕ → Option StrikeLimit)
    (is_source : Addr → Bool) (reg_hash : String → ℕ) where
  -- A carrier's address is never struck for a REGISTER, nor is a source that refreshes a live
  -- binding of its own, nor one that sent no credential: whatever the attempt, nothing changes.
  pub register_strike-spares :
      (cfg : ShieldConfig) (now : ℕ) (src : AddrPort) (head : RegisterHead) (replay : Bool)
      (st : EdgeState fl)
      → not head.auth
          || (is_source (unmap src.addr)
              || refreshes_binding lower now (unmap src.addr) head.aor head.call_id st.loc)
        ≡ true
      → register_strike lower fl parse is_source reg_hash cfg now src head replay st ≡ (st, false)
  unfolding register_strike
  register_strike-spares cfg now src head replay st exempt = elim (Option-cases st.shield) [
    | inl unshielded ↦ ground (arith, unshielded)
    | inr (sh, shielded) ↦ ground (arith, shielded, exempt)
  ]

  -- A carrier's address is never locked out of an AoR, nor is a source whose key holds a live
  -- binding of the AoR, however many strikes the AoR has.
  pub aor_locked_for-spares :
      (cfg : ShieldConfig) (now : ℕ) (src : Addr) (aor : String) (st : EdgeState fl)
      → is_source (unmap src) || holds_key (unmap src) (lookup_aor lower now aor st.loc) ≡ true
      → (aor_locked_for lower fl parse is_source reg_hash cfg now src aor st).1 ≡ false
  unfolding aor_locked_for
  aor_locked_for-spares cfg now src aor st exempt = elim (Option-cases st.shield) [
    | inl unshielded ↦ ground (arith, unshielded)
    | inr (sh, shielded) ↦ ground (arith, shielded, exempt)
  ]

  module _ (equal_fold : String → String → Bool) (allow_mismatch : Bool) where
    -- A 2xx to a REGISTER whose credential does not count for its AoR, a query or a refresh without
    -- one among them, forgives nothing: no strike is cleared, and the guard and the bindings stay.
    pub register_outcome-unproven :
        (cfg : ShieldConfig) (now : ℕ) (i : BindingInput) (res : RegisterAnswer) (st : EdgeState fl)
        → res.code / 100 ≡ 2
        → credential_matches lower equal_fold allow_mismatch i ≡ false
        → register_outcome lower fl parse is_source reg_hash equal_fold allow_mismatch cfg now i res
            st
          ≡ st
    unfolding register_outcome
    register_outcome-unproven cfg now i res st ok unproven =
        let two : (res.code / 100 == 2) ≡ true = ground (arith, ok) in ground (arith, two, unproven)
