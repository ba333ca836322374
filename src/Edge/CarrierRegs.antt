-- ===== src/Edge/CarrierRegs.antt =====
-- The registrations of the switch at carriers: the table of internal/edge/carrierreg.go. Each method
-- runs under the table's mutex and reads the clock once. A Contact is a URI of the SIP library, a
-- parameter type.
use freesbc.Base.{
  ℕ, ◌+◌, ◌≤◌, String, ◌≡◌, refl, sym, ◌∙◌, ◌≢◌, inl, inr, ite, if_pos, if_neg, Bool, true, false,
  not, ◌&&◌, Option, none, some, List, [], ◌∷◌, arith, text_discrete, ltb, if◌then◌else◌,
  Bool-cases, Option-cases, length, keep,
}
use freesbc.Base.Assoc.{find, remove, put, NoDup, find-put_self, find-put_ne, find-keep}

-- `carrierBinding`.
pub record CarrierBinding (C : Type 0) : Type 0 where
  pub token : String
  pub carrier : String
  pub node : String
  pub contact : C
  pub expires : ℕ

-- `byToken`.
abbrev pub CarrierRegTable : Type 0 → Type 0
CarrierRegTable C = List (String × CarrierBinding C)

abbrev pub same : String → String → Bool
same a b = ite (text_discrete a b) true false

abbrev pub or_zero : Option ℕ → ℕ
or_zero none = 0
or_zero (some n) = n

abbrev pub zeros : List String → List (String × ℕ) → List (String × ℕ)
zeros [] out = out
zeros (n ∷ names) out = zeros names (put text_discrete n 0 out)

zeros-find :
    (names : List String) (out : List (String × ℕ)) (a : String)
    → or_zero (find text_discrete a out) ≡ 0
    → or_zero (find text_discrete a (zeros names out)) ≡ 0
zeros-find [] out a h = h
zeros-find (n ∷ names) out a h =
    zeros-find names (put text_discrete n 0 out) a (elim (text_discrete a n) [
      | yes e ↦ rw (e, find-put_self text_discrete n 0 out) refl
      | no ne ↦ rw (find-put_ne text_discrete a n 0 out ne) h
    ])

same_refl : (a : String) → same a a ≡ true
same_refl a = if_pos _ refl true false

same-ne : (a b : String) → a ≢ b → same a b ≡ false
same-ne a b ne = if_neg _ ne true false

module _ {C : Type 0} where
  abbrev pub is_live : ℕ → CarrierBinding C → Bool
  is_live now b = ltb now b.expires

  -- `put`.
  unfoldable pub put_carrier : CarrierBinding C → CarrierRegTable C → CarrierRegTable C
  put_carrier b t = put text_discrete b.token b t

  -- `remove`.
  unfoldable pub remove_token : String → CarrierRegTable C → CarrierRegTable C
  remove_token token t = remove text_discrete token t

  -- `removeNode`.
  unfoldable pub remove_node : String → String → CarrierRegTable C → CarrierRegTable C
  remove_node carrier node t = keep (λ e. not (same e.1.carrier carrier && same e.1.node node)) t

  -- `lookup`.
  unfoldable pub lookup : ℕ → String → CarrierRegTable C → Option (CarrierBinding C)
  lookup now token t = elim (find text_discrete token t) [
    | none ↦ none
    | some b ↦ if is_live now b then some b else none
  ]

  -- `prune`: the table, and how many went.
  unfoldable pub prune : ℕ → CarrierRegTable C → CarrierRegTable C × ℕ
  prune now t = (keep (λ e. is_live now e.1) t, length (keep (λ e. not (is_live now e.1)) t))

  -- The loop of `counts` over the bindings: `out[b.carrier]++` for a live one.
  unfoldable pub count_live : ℕ → CarrierRegTable C → List (String × ℕ) → List (String × ℕ)
  count_live now [] out = out
  count_live now (e ∷ t) out =
      let counted =
        count_live now t
          (put text_discrete e.1.carrier (or_zero (find text_discrete e.1.carrier out) + 1) out) in
      let skipped = count_live now t out in if is_live now e.1 then counted else skipped

  -- `counts`.
  unfoldable pub counts : ℕ → List String → CarrierRegTable C → List (String × ℕ)
  unfolding count_live
  counts now names t = count_live now t (zeros names [])

  -- The live bindings at a carrier.
  abbrev pub live_at : ℕ → String → CarrierRegTable C → ℕ
  live_at now carrier t = length (keep (λ e. is_live now e.1 && same e.1.carrier carrier) t)

  count_live-find :
      (now : ℕ) (t : CarrierRegTable C) (out : List (String × ℕ)) (a : String)
      → or_zero (find text_discrete a (count_live now t out))
        ≡ or_zero (find text_discrete a out) + live_at now a t
  unfolding count_live
  count_live-find now [] out a = omega arith
  count_live-find now (e ∷ t) out a =
      let before = or_zero (find text_discrete e.1.carrier out) in
      let one_more = count_live-find now t (put text_discrete e.1.carrier (before + 1) out) a in
      let skipped = count_live-find now t out a in
      elim (Bool-cases (is_live now e.1)) [
        | inr gone ↦ rw gone skipped
        | inl live ↦ elim (text_discrete e.1.carrier a) [
          | yes here ↦
              let at_a = same_refl a in
              let told : or_zero
                    (find text_discrete a (put text_discrete e.1.carrier (before + 1) out))
                  ≡ or_zero (find text_discrete a out) + 1 =
                rw
                  (here, find-put_self text_discrete a (or_zero (find text_discrete a out) + 1) out)
                  refl in
              rw (live, here, at_a) (omega (arith, rw here at one_more, rw here at told))
          | no ne ↦
              rw (live, same-ne e.1.carrier a ne)
                (one_more
                  ∙ rw (find-put_ne text_discrete a e.1.carrier (before + 1) out (λ s. ne (sym s)))
                      refl)
        ]
      ]

  -- The gauge shows, for every carrier, the number of live registrations at it: 0 for a configured
  -- carrier that has none.
  pub counts-live_at :
      (now : ℕ) (names : List String) (t : CarrierRegTable C) (a : String)
      → or_zero (find text_discrete a (counts now names t)) ≡ live_at now a t
  unfolding counts find
  counts-live_at now names t a =
      count_live-find now t (zeros names []) a ∙ rw (zeros-find names [] a refl) (omega arith)

  -- Reclaiming expired registrations changes no later lookup, and what is reclaimed and what stays
  -- are the whole table, in a table that holds no token twice.
  pub prune-lookup :
      (now later : ℕ) (token : String) (t : CarrierRegTable C)
      → NoDup text_discrete t
      → now ≤ later
      → (lookup later token (prune now t).0 ≡ lookup later token t)
        × (length (prune now t).0 + (prune now t).1 ≡ length t)
  unfolding lookup prune
  prune-lookup now later token t distinct order = (
    elim (Option-cases (find text_discrete token t)) [
      | inl new ↦
          ground (arith, new, find-keep text_discrete (λ e. is_live now e.1) token t distinct)
      | inr (b, known) ↦
          ground
            (arith, known, order, find-keep text_discrete (λ e. is_live now e.1) token t distinct)
    ],
    parts t,
  )
    where
      parts :
          (t : CarrierRegTable C)
          → length (keep (λ e. is_live now e.1) t) + length (keep (λ e. not (is_live now e.1)) t)
            ≡ length t
      parts [] = omega arith
      parts (e ∷ t) = ground (arith, parts t)
