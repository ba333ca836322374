-- ===== src/Edge/Admission/Spared.antt =====
-- The sources that admission never strikes (internal/edge/admission.go).
use freesbc.Base.{
  ℕ, String, ◌≡◌, refl, ◌∙◌, inl, inr, Bool, true, ◌||◌, Option, none, some, List, [], ◌∷◌, arith,
  Bool-cases, Option-cases,
}
use freesbc.Net.{Addr, unmap}
use freesbc.Shield.Limiter.{Float}
use freesbc.Shield.Offenders.{StrikeLimit}
use freesbc.Shield.Gate.{Shield, ShieldConfig}
use freesbc.Edge.Location.{Location}
use freesbc.Edge.Location.Table.{has_ip}
use freesbc.Edge.Admission.{
  DropReason, is_aor_locked, DropState, admission_strike, malformed_strike, drop_silently,
}

-- What a source may do that admission counts: a request that is dropped, for a reason, over a
-- transport and from a port, or a malformed read over a transport.
pub data Offence : Type 0 where
  dropped_request : DropReason → List ℕ → ℕ → Offence
  malformed_read : List ℕ → Offence

module _ (fl : Float) (parse : List ℕ → Option StrikeLimit) (is_source : Addr → Bool) where
  unfoldable pub offend : ShieldConfig → ℕ → Addr → Location → Offence → DropState fl → DropState fl
  offend cfg now ip loc (dropped_request reason transport port) st =
      (drop_silently fl parse is_source cfg now reason transport (record { addr = ip; port = port })
        loc st).0
  offend cfg now ip loc (malformed_read transport) st =
      malformed_strike fl parse is_source cfg now ip transport loc st

  -- The offences of one source, each at its time.
  unfoldable pub offend_all :
      ShieldConfig → Addr → Location → List (ℕ × Offence) → DropState fl → DropState fl
  offend_all cfg ip loc [] st = st
  offend_all cfg ip loc ((now, o) ∷ os) st = offend_all cfg ip loc os (offend cfg now ip loc o st)

  admission_strike-spares :
      (cfg : ShieldConfig) (now : ℕ) (ip : Addr) (reason : String) (transport : List ℕ)
      (loc : Location) (sh : Option (Shield fl))
      → is_source (unmap ip) || has_ip (unmap ip) loc ≡ true
      → admission_strike fl parse is_source cfg now ip reason transport loc sh ≡ sh
  unfolding admission_strike
  admission_strike-spares cfg now ip reason transport loc none exempt = refl
  admission_strike-spares cfg now ip reason transport loc (some sh) exempt = rw exempt refl

  offend-spares :
      (cfg : ShieldConfig) (now : ℕ) (ip : Addr) (loc : Location) (o : Offence) (st : DropState fl)
      → is_source (unmap ip) || has_ip (unmap ip) loc ≡ true
      → (offend cfg now ip loc o st).shield ≡ st.shield
  unfolding offend drop_silently malformed_strike
  offend-spares cfg now ip loc (dropped_request reason transport port) st exempt =
      elim (Bool-cases (is_aor_locked reason)) [
        | inl t ↦ rw t refl
        | inr t ↦
            rw t (admission_strike-spares cfg now ip "admission" transport loc st.shield exempt)
      ]
  offend-spares cfg now ip loc (malformed_read transport) st exempt =
      elim (Option-cases st.shield) [
        | inl unshielded ↦ ground (arith, unshielded)
        | inr (sh, shielded) ↦ ground (arith, shielded, exempt)
      ]

  -- A carrier's address, or one that holds a registration on any port, is never struck by admission:
  -- whatever requests from it are dropped, for whatever reasons and over whatever transports, and
  -- whatever malformed reads it sends, the shield stays as it was, so none of them leads to a ban.
  pub offend_all-spares :
      (cfg : ShieldConfig) (ip : Addr) (loc : Location) (os : List (ℕ × Offence))
      (st : DropState fl)
      → is_source (unmap ip) || has_ip (unmap ip) loc ≡ true
      → (offend_all cfg ip loc os st).shield ≡ st.shield
  unfolding offend_all
  offend_all-spares cfg ip loc [] st exempt = refl
  offend_all-spares cfg ip loc ((now, o) ∷ os) st exempt =
      offend_all-spares cfg ip loc os (offend cfg now ip loc o st) exempt
      ∙ offend-spares cfg now ip loc o st exempt
