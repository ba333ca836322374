-- ===== src/Edge/RegGuard/Forgery.antt =====
-- What a counted attempt proves (internal/edge/regguard.go).
use freesbc.Base.{
  ℕ, ◌+◌, ◌-◌, ◌%◌, ◌<◌, String, ◌≡◌, refl, sym, ◌≢◌, ◌⊎◌, inl, inr, Bool, true, not, ◌&&◌, ◌||◌,
  List, [], ◌∷◌, arith, ltb, ◌==◌, Bool-cases, Option-cases, false-true, All,
}
use freesbc.Base.Assoc.{find}
use mathlib.Core.Path.{subst}
use freesbc.Base.Every.{set_at, All-weaken, All-set_at, All-evict, All-remove, All-put, All-find}
use freesbc.Net.{Addr, Addr-discrete}
use freesbc.Edge.RegGuard.{
  RegStamp, RegRecord, RegGuard, zero_stamp, zero_record, new_reg_guard, enum_key, recent,
  has_value, is_blank, add_nonces, add_branch, challenged, attempt_id, countable, reg_nonce_ttl,
  reg_replay_window, reg_nonces_per_source,
}

-- A challenge that was relayed: when, to whom, in answer to which branch, with which nonces.
pub record Challenge : Type 0 where
  pub at_time : ℕ
  pub src : Addr
  pub branch : String
  pub nonces : List String

module _ (reg_hash : String → ℕ) where
  abbrev pub Relays : ℕ → List String → Type 0
  Relays x [] = ⊥
  Relays x (n ∷ ns) = (reg_hash n ≡ x) ⊎ Relays x ns

  -- Some challenge of the history was relayed to this source key at this instant, with a nonce of
  -- this hash.
  abbrev pub Issued : List Challenge → Addr → ℕ → ℕ → Type 0
  Issued [] key x t = ⊥
  Issued (c ∷ cs) key x t =
      ((enum_key c.src ≡ key) × (c.at_time ≡ t) × Relays x c.nonces) ⊎ Issued cs key x t

  Backed : List Challenge → Addr → RegStamp → Type 0
  Backed cs key s = s.at_time ≢ 0 → Issued cs key s.h s.at_time

  Sound : List Challenge → List (Addr × RegRecord) → Type 0
  Sound cs m = All (λ e. All (Backed cs e.0) e.1.nonces) m

  -- Noting a challenge keeps every stamp backed.
  add_nonces-Backed :
      (cs : List Challenge) (key : Addr) (now : ℕ) (ns : List String) (r : RegRecord)
      → ((x : ℕ) → Relays x ns → Issued cs key x now)
      → All (Backed cs key) r.nonces
      → All (Backed cs key) (add_nonces reg_hash now ns r).nonces
  unfolding add_nonces Backed
  add_nonces-Backed cs key now [] r issued h = h
  add_nonces-Backed cs key now (n ∷ ns) r issued h =
      let stamp : RegStamp = record { h = reg_hash n; at_time = now } in
      let here : Backed cs key stamp = λ set. issued (reg_hash n) (inl refl) in
      add_nonces-Backed cs key now ns
        (record r { nonces = set_at r.ni stamp r.nonces; ni = (r.ni + 1) % reg_nonces_per_source })
        (λ x relayed. issued x (inr relayed))
        (All-set_at (Backed cs key) r.ni stamp r.nonces here h)

  add_branch-nonces :
      (now : ℕ) (branch : String) (r : RegRecord)
      → (add_branch reg_hash now branch r).nonces ≡ r.nonces
  unfolding add_branch
  add_branch-nonces now branch r = elim (Bool-cases (is_blank branch)) [
    | inl blank ↦ rw blank refl
    | inr named ↦ rw named refl
  ]

  -- A stamp that is found recent is one of the ring.
  recent-Backed :
      (cs : List Challenge) (key : Addr) (ring : List RegStamp) (x now ttl : ℕ)
      → All (Backed cs key) ring
      → recent ring x now ttl ≡ true
      → (t : ℕ) × Issued cs key x t × (now - t < ttl)
  unfolding recent Backed
  recent-Backed cs key [] x now ttl h found = absurd (false-true found)
  recent-Backed cs key (s ∷ ring) x now ttl h found =
      elim (Bool-cases (s.h == x && not (s.at_time == 0) && ltb (now - s.at_time) ttl)) [
        | inl here ↦
            let set : s.at_time ≢ 0 = λ e. ground (arith, here, e) in
            let is_x : s.h ≡ x = ground (arith, here) in
            (s.at_time, subst (λ y. Issued cs key y s.at_time) is_x (h.0 set), ground (arith, here))
        | inr there ↦ recent-Backed cs key ring x now ttl h.1 (rw there at found)
      ]

  -- A longer history backs the same stamps.
  Sound-later :
      (c : Challenge) (cs : List Challenge) (m : List (Addr × RegRecord))
      → Sound cs m
      → Sound (c ∷ cs) m
  unfolding Sound Backed
  Sound-later c cs m h =
      All-weaken (λ e. All (Backed cs e.0) e.1.nonces) (λ e. All (Backed (c ∷ cs) e.0) e.1.nonces) m
        (λ e k.
          All-weaken (Backed cs e.0) (Backed (c ∷ cs) e.0) e.1.nonces (λ s b set. inr (b set)) k)
        h

  zero_record-Backed : (cs : List Challenge) (key : Addr) → All (Backed cs key) zero_record.nonces
  unfolding Backed
  zero_record-Backed cs key =
      let none_set : Backed cs key zero_stamp = λ set. absurd (set refl) in
      (none_set, (none_set, (none_set, (none_set, tt))))

  -- What `challenged` notes in a source's record.
  noted-Backed :
      (c : Challenge) (cs : List Challenge) (key : Addr) (r : RegRecord)
      → enum_key c.src ≡ key
      → All (Backed (c ∷ cs) key) r.nonces
      → All
          (Backed (c ∷ cs) key)
          (add_branch reg_hash c.at_time c.branch (add_nonces reg_hash c.at_time c.nonces r)).nonces
  noted-Backed c cs key r is_key h =
      subst (All (Backed (c ∷ cs) key))
        (sym (add_branch-nonces c.at_time c.branch (add_nonces reg_hash c.at_time c.nonces r)))
        (add_nonces-Backed (c ∷ cs) key c.at_time c.nonces r
          (λ x relayed. inl (is_key, refl, relayed)) h)

  challenged-Sound :
      (now : ℕ) (src : Addr) (branch : String) (ns : List String) (cs : List Challenge)
      (g : RegGuard)
      → Sound cs g.entries
      → Sound
          (record { at_time = now; src = src; branch = branch; nonces = ns } ∷ cs)
          (challenged reg_hash now src branch ns g).entries
  unfolding challenged Sound
  challenged-Sound now src branch [] cs g h =
      Sound-later (record { at_time = now; src = src; branch = branch; nonces = [] }) cs g.entries h
  challenged-Sound now src branch (n ∷ ns) cs g h =
      let c : Challenge = record { at_time = now; src = src; branch = branch; nonces = n ∷ ns } in
      let key = enum_key src in
      let P : Addr × RegRecord → Type 0 = λ e. All (Backed (c ∷ cs) e.0) e.1.nonces in
      let later = Sound-later c cs g.entries h in
      elim (Option-cases (find Addr-discrete key g.entries)) [
        | inl new ↦
            rw (new, challenged)
              (
                noted-Backed c cs key zero_record refl (zero_record-Backed (c ∷ cs) key),
                All-evict P g.max_entries g.entries later,
              )
        | inr (r, known) ↦
            rw (known, challenged)
              (
                noted-Backed c cs key r refl (All-find Addr-discrete P key r g.entries later known),
                All-remove Addr-discrete P key g.entries later,
              )
      ]

  countable-Sound :
      (now : ℕ) (src : Addr) (branch nonce : String) (attempt : ℕ) (replay : Bool)
      (cs : List Challenge) (g : RegGuard)
      → Sound cs g.entries
      → Sound cs (countable reg_hash now src branch nonce attempt replay g).0.entries
        × ((countable reg_hash now src branch nonce attempt replay g).1 ≡ true
            → (t : ℕ) × Issued cs (enum_key src) (reg_hash nonce) t × (now - t < reg_nonce_ttl))
  unfolding countable Sound
  countable-Sound now src branch nonce attempt replay cs g h =
      let key = enum_key src in
      let P : Addr × RegRecord → Type 0 = λ e. All (Backed cs e.0) e.1.nonces in
      elim (Bool-cases (is_blank nonce)) [
        | inl blank ↦ rw blank (h, λ e. absurd (false-true e))
        | inr given ↦ elim (Option-cases (find Addr-discrete key g.entries)) [
          | inl new ↦ rw (given, new, countable) (h, λ e. absurd (false-true e))
          | inr (r, known) ↦
              let ring = All-find Addr-discrete P key r g.entries h known in
              elim (Bool-cases (recent r.nonces (reg_hash nonce) now reg_nonce_ttl)) [
                | inr old ↦ rw (given, known, old, countable) (h, λ e. absurd (false-true e))
                | inl fresh ↦
                    let proof =
                      recent-Backed cs key r.nonces (reg_hash nonce) now reg_nonce_ttl ring fresh in
                    elim (Bool-cases (
                      replay
                      && (is_blank branch
                          || not (recent r.branches (reg_hash branch) now reg_replay_window)))) [
                            | inl other ↦
                                rw (given, known, fresh, other, countable)
                                  (h, λ e. absurd (false-true e))
                            | inr same_exchange ↦
                                elim (Bool-cases
                                  (has_value (attempt_id reg_hash branch attempt) r.struck)) [
                                    | inl counted ↦
                                        rw (given, known, fresh, same_exchange, counted, countable)
                                          (h, λ e. absurd (false-true e))
                                    | inr new_strike ↦
                                        rw
                                          (
                                            given, known, fresh, same_exchange, new_strike,
                                            countable,
                                          )
                                          (
                                            All-put Addr-discrete P key _ g.entries ring h,
                                            λ e. proof,
                                          )
                                  ]
                          ]
              ]
        ]
      ]

  -- The guards that relayed challenges and judged attempts lead to from an empty one, with the
  -- challenges so far, the last one first.
  pub data Reach : List Challenge → RegGuard → Type 0 where
    start : Reach [] new_reg_guard
    relay :
        {cs : List Challenge} {g : RegGuard} (now : ℕ) (src : Addr) (branch : String)
        (ns : List String)
        → Reach cs g
        → Reach
            (record { at_time = now; src = src; branch = branch; nonces = ns } ∷ cs)
            (challenged reg_hash now src branch ns g)
    judge :
        {cs : List Challenge} {g : RegGuard} (now : ℕ) (src : Addr) (branch nonce : String)
        (attempt : ℕ) (replay : Bool)
        → Reach cs g
        → Reach cs (countable reg_hash now src branch nonce attempt replay g).0

  Reach-Sound : {cs : List Challenge} {g : RegGuard} → Reach cs g → Sound cs g.entries
  unfolding Sound
  Reach-Sound start = tt
  Reach-Sound (relay {cs} {g} now src branch ns before) =
      challenged-Sound now src branch ns cs g (Reach-Sound before)
  Reach-Sound (judge {cs} {g} now src branch nonce attempt replay before) =
      (countable-Sound now src branch nonce attempt replay cs g (Reach-Sound before)).0

  -- An attempt counts as a strike against a source only if a challenge was relayed to the same
  -- source key less than `regNonceTTL` ago with a nonce of the attempt's hash, whatever challenges
  -- and attempts the guard has seen.
  pub countable-Issued :
      {cs : List Challenge} {g : RegGuard} (now : ℕ) (src : Addr) (branch nonce : String)
      (attempt : ℕ) (replay : Bool)
      → Reach cs g
      → (countable reg_hash now src branch nonce attempt replay g).1 ≡ true
      → (t : ℕ) × Issued cs (enum_key src) (reg_hash nonce) t × (now - t < reg_nonce_ttl)
  countable-Issued {cs} {g} now src branch nonce attempt replay before counts =
      (countable-Sound now src branch nonce attempt replay cs g (Reach-Sound before)).1 counts
