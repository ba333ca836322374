-- ===== src/Edge/RegGuard/Once.antt =====
-- How often one attempt counts (internal/edge/regguard.go).
use freesbc.Base.{
  ℕ, zero, suc, ◌+◌, ◌%◌, ◌<◌, String, ◌≡◌, refl, ◌∙◌, inl, inr, Bool, true, false, not, ◌&&◌, ◌||◌,
  some, List, [], ◌∷◌, arith, Bool-cases, Option-cases, false-true, length, All,
}
use freesbc.Base.Assoc.{find, find-put_self}
use freesbc.Base.Every.{set_at, All-evict, All-remove, All-put, All-find}
use freesbc.Net.{Addr, Addr-discrete}
use freesbc.Edge.RegGuard.{
  RegRecord, RegGuard, zero_record, enum_key, recent, has_value, is_blank, add_nonces, add_branch,
  challenged, attempt_id, countable, reg_nonce_ttl, reg_replay_window, reg_struck_per_source,
  reg_nonces_per_source,
}
use freesbc.Edge.RegGuard.Forgery.{Challenge, Reach}
use freesbc.Edge.RegGuard.Forgery

-- The array of counted attempts has its size, and its index is inside it.
IsRing : Addr × RegRecord → Type 0
IsRing e = (length e.1.struck ≡ reg_struck_per_source) × (e.1.si < reg_struck_per_source)

length-set_at : (i x : ℕ) (l : List ℕ) → length (set_at i x l) ≡ length l
unfolding set_at
length-set_at i x [] = refl
length-set_at zero x (y ∷ l) = refl
length-set_at (suc i) x (y ∷ l) = omega (arith, length-set_at i x l)

has_value-set_at : (i x : ℕ) (l : List ℕ) → i < length l → has_value x (set_at i x l) ≡ true
unfolding set_at
has_value-set_at i x [] h = absurd (omega arith)
has_value-set_at zero x (y ∷ l) h = ground arith
has_value-set_at (suc i) x (y ∷ l) h = ground (arith, has_value-set_at i x l (omega arith))

zero_record-IsRing : (key : Addr) → IsRing (key, zero_record)
unfolding IsRing
zero_record-IsRing key = (refl, omega arith)

set_at-IsRing :
    (key : Addr) (id : ℕ) (r : RegRecord)
    → IsRing (key, r)
    → IsRing (
      key,
      record r { struck = set_at r.si id r.struck; si = (r.si + 1) % reg_struck_per_source },
    )
unfolding IsRing
set_at-IsRing key id r h = (length-set_at r.si id r.struck ∙ h.0, omega arith)

si-lt : (key : Addr) (r : RegRecord) → IsRing (key, r) → r.si < length r.struck
unfolding IsRing
si-lt key r h = omega (arith, h.0, h.1)

module _ (reg_hash : String → ℕ) where
  add_nonces-IsRing :
      (now : ℕ) (ns : List String) (key : Addr) (r : RegRecord)
      → IsRing (key, r)
      → IsRing (key, add_nonces reg_hash now ns r)
  unfolding add_nonces IsRing
  add_nonces-IsRing now [] key r h = h
  add_nonces-IsRing now (n ∷ ns) key r h =
      add_nonces-IsRing now ns key
        (record r {
          nonces = set_at r.ni (record { h = reg_hash n; at_time = now }) r.nonces;
          ni = (r.ni + 1) % reg_nonces_per_source;
        })
        h

  noted-IsRing :
      (now : ℕ) (branch : String) (ns : List String) (key : Addr) (r : RegRecord)
      → IsRing (key, r)
      → IsRing (key, add_branch reg_hash now branch (add_nonces reg_hash now ns r))
  unfolding add_branch IsRing
  noted-IsRing now branch ns key r h =
      let h' = add_nonces-IsRing now ns key r h in (ground (arith, h'.0), ground (arith, h'.1))

  challenged-IsRing :
      (now : ℕ) (src : Addr) (branch : String) (ns : List String) (g : RegGuard)
      → All IsRing g.entries
      → All IsRing (challenged reg_hash now src branch ns g).entries
  unfolding challenged
  challenged-IsRing now src branch [] g h = h
  challenged-IsRing now src branch (n ∷ ns) g h =
      let key = enum_key src in
      elim (Option-cases (find Addr-discrete key g.entries)) [
        | inl new ↦
            rw (new, challenged)
              (
                noted-IsRing now branch (n ∷ ns) key zero_record (zero_record-IsRing key),
                All-evict IsRing g.max_entries g.entries h,
              )
        | inr (r, known) ↦
            rw (known, challenged)
              (
                noted-IsRing now branch (n ∷ ns) key r
                    (All-find Addr-discrete IsRing key r g.entries h known),
                All-remove Addr-discrete IsRing key g.entries h,
              )
      ]

  -- A counted attempt is in its source's array afterwards, and a refused one changes nothing.
  countable-struck :
      (now : ℕ) (src : Addr) (branch nonce : String) (attempt : ℕ) (replay : Bool) (g : RegGuard)
      → All IsRing g.entries
      → All IsRing (countable reg_hash now src branch nonce attempt replay g).0.entries
        × ((countable reg_hash now src branch nonce attempt replay g).1 ≡ true
            → (r : RegRecord) × (find Addr-discrete
                  (enum_key src)
                  (countable reg_hash now src branch nonce attempt replay g).0.entries
                ≡ some r)
              × (has_value (attempt_id reg_hash branch attempt) r.struck ≡ true))
  unfolding countable
  countable-struck now src branch nonce attempt replay g h =
      let key = enum_key src in
      elim (Bool-cases (is_blank nonce)) [
        | inl blank ↦ rw blank (h, λ e. absurd (false-true e))
        | inr given ↦ elim (Option-cases (find Addr-discrete key g.entries)) [
          | inl new ↦ rw (given, new, countable) (h, λ e. absurd (false-true e))
          | inr (r, known) ↦
              let ring = All-find Addr-discrete IsRing key r g.entries h known in
              let id = attempt_id reg_hash branch attempt in
              let r' : RegRecord = record r {
                struck = set_at r.si id r.struck;
                si = (r.si + 1) % reg_struck_per_source;
              } in
              elim (Bool-cases (recent r.nonces (reg_hash nonce) now reg_nonce_ttl)) [
                | inr old ↦ rw (given, known, old, countable) (h, λ e. absurd (false-true e))
                | inl fresh ↦
                    elim (Bool-cases (
                      replay
                      && (is_blank branch
                          || not (recent r.branches (reg_hash branch) now reg_replay_window)))) [
                            | inl other ↦
                                rw (given, known, fresh, other, countable)
                                  (h, λ e. absurd (false-true e))
                            | inr same ↦ elim (Bool-cases (has_value id r.struck)) [
                              | inl counted ↦
                                  rw (given, known, fresh, same, counted, countable)
                                    (h, λ e. absurd (false-true e))
                              | inr first ↦
                                  rw (given, known, fresh, same, first, countable)
                                    (
                                      All-put Addr-discrete IsRing key r' g.entries
                                          (set_at-IsRing key id r ring) h,
                                      λ e. (
                                        r',
                                        find-put_self Addr-discrete key r' g.entries,
                                        has_value-set_at r.si id r.struck (si-lt key r ring),
                                      ),
                                    )
                            ]
                          ]
              ]
        ]
      ]

  Reach-IsRing : {cs : List Challenge} {g : RegGuard} → Reach reg_hash cs g → All IsRing g.entries
  Reach-IsRing Forgery.start = tt
  Reach-IsRing (Forgery.relay {cs} {g} now src branch ns before) =
      challenged-IsRing now src branch ns g (Reach-IsRing before)
  Reach-IsRing (Forgery.judge {cs} {g} now src branch nonce attempt replay before) =
      (countable-struck now src branch nonce attempt replay g (Reach-IsRing before)).0

  refused_when_struck :
      (now : ℕ) (src : Addr) (branch nonce : String) (attempt : ℕ) (replay : Bool) (g : RegGuard)
      (r : RegRecord)
      → find Addr-discrete (enum_key src) g.entries ≡ some r
      → has_value (attempt_id reg_hash branch attempt) r.struck ≡ true
      → (countable reg_hash now src branch nonce attempt replay g).1 ≡ false
  unfolding countable
  refused_when_struck now src branch nonce attempt replay g r known struck =
      ground (arith, known, struck)

  -- An attempt counts once: of a guard that any challenges and attempts have led to, once an attempt
  -- on a branch has counted, the same attempt on the same branch does not count next, at whatever
  -- instant, with whatever nonce, and whether it is judged as a replay or by the registrar's answer.
  pub countable-once :
      {cs : List Challenge} {g : RegGuard} (now later : ℕ) (src : Addr)
      (branch nonce nonce' : String) (attempt : ℕ) (replay replay' : Bool)
      → Reach reg_hash cs g
      → (countable reg_hash now src branch nonce attempt replay g).1 ≡ true
      → (countable reg_hash later src branch nonce' attempt replay'
          (countable reg_hash now src branch nonce attempt replay g).0).1
        ≡ false
  countable-once {cs} {g} now later src branch nonce nonce' attempt replay replay' before counts =
      let (r, known, struck) =
        (countable-struck now src branch nonce attempt replay g (Reach-IsRing before)).1 counts in
      refused_when_struck later src branch nonce' attempt replay'
        (countable reg_hash now src branch nonce attempt replay g).0 r known struck
