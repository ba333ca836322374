-- ===== src/Base/Member.antt =====
-- Which entries an association list holds.
use freesbc.Base.{◌≡◌, ◌⊎◌, inl, inr, if_neg, none, some, List, [], ◌∷◌, ◌++◌, arith}
use freesbc.Base.Assoc.{find, NoDup}
use mathlib.Core.List.{reverse, reverse-cons}

module _ {K V : Type 0} where
  -- The list holds the entry.
  abbrev pub Has : K → V → List (K × V) → Type 0
  Has k v [] = ⊥
  Has k v ((j, w) ∷ l) = ((k ≡ j) × (v ≡ w)) ⊎ Has k v l

  pub Has-append_left : (k : K) (v : V) (l m : List (K × V)) → Has k v l → Has k v (l ++ m)
  Has-append_left k v [] m h = elim h [ ]
  Has-append_left k v (e ∷ l) m (inl h) = inl h
  Has-append_left k v (e ∷ l) m (inr h) = inr (Has-append_left k v l m h)

  pub Has-append_iff :
      (k : K) (v : V) (l m : List (K × V)) → Has k v (l ++ m) → Has k v l ⊎ Has k v m
  Has-append_iff k v [] m h = inr h
  Has-append_iff k v (e ∷ l) m (inl h) = inl (inl h)
  Has-append_iff k v (e ∷ l) m (inr h) = elim (Has-append_iff k v l m h) [
    | inl a ↦ inl (inr a)
    | inr b ↦ inr b
  ]

  pub Has-reverse : (k : K) (v : V) (l : List (K × V)) → Has k v (reverse l) → Has k v l
  Has-reverse k v [] h = h
  Has-reverse k v (e ∷ l) h =
      elim (Has-append_iff k v (reverse l) (e ∷ []) (rw (reverse-cons e l) at h)) [
        | inl a ↦ inr (Has-reverse k v l a)
        | inr (inl b) ↦ inl b
        | inr (inr c) ↦ absurd c
      ]

module _ {K V : Type 0} (dec : Discrete K) where
  find_some_of_Has : (k : K) (v : V) (l : List (K × V)) → find dec k l ≡ none → Has k v l → ⊥
  unfolding find
  find_some_of_Has k v [] h m = m
  find_some_of_Has k v ((j, w) ∷ l) h (inl m) = ground (arith, m.0)
  find_some_of_Has k v ((j, w) ∷ l) h (inr m) = find_some_of_Has k v l (ground arith) m

  pub find_of_Has :
      (k : K) (v : V) (l : List (K × V)) → NoDup dec l → Has k v l → find dec k l ≡ some v
  unfolding find
  find_of_Has k v [] d m = elim m [ ]
  find_of_Has k v ((j, w) ∷ l) d (inl m) = ground (arith, m.0, m.1)
  find_of_Has k v ((j, w) ∷ l) d (inr m) = elim (dec k j) [
    | yes e ↦ absurd (find_some_of_Has k v l (rw e d.0) m)
    | no e ↦ rw (if_neg _ e) (find_of_Has k v l d.1 m)
  ]
