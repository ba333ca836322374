-- ===== src/Base/Every.antt =====
-- A predicate that holds of every element of a list, or of every entry of a table.
use freesbc.Base.{
  ℕ, zero, suc, ◌≡◌, sym, inl, inr, if_pos, if_neg, Bool, some, List, [], ◌∷◌, arith, leb,
  Bool-cases, length, drop_back, keep, All,
}
use freesbc.Base.Assoc.{find, remove, put}
use freesbc.Base.Lru.{evict}
use mathlib.Core.Path.{subst}

-- An element of an array that is assigned.
unfoldable pub set_at : {A : Type 0} → ℕ → A → List A → List A
set_at i x [] = []
set_at zero x (y ∷ l) = x ∷ l
set_at (suc i) x (y ∷ l) = y ∷ set_at i x l

module _ {A : Type 0} (P : A → Type 0) where
  pub All-weaken : (Q : A → Type 0) (l : List A) → ((x : A) → P x → Q x) → All P l → All Q l
  All-weaken Q [] f h = tt
  All-weaken Q (x ∷ l) f h = (f x h.0, All-weaken Q l f h.1)

  pub All-set_at : (i : ℕ) (x : A) (l : List A) → P x → All P l → All P (set_at i x l)
  unfolding set_at
  All-set_at i x [] p h = tt
  All-set_at zero x (y ∷ l) p h = (p, h.1)
  All-set_at (suc i) x (y ∷ l) p h = (h.0, All-set_at i x l p h.1)

  All-drop_back : (l : List A) → All P l → All P (drop_back l)
  All-drop_back [] h = tt
  All-drop_back (x ∷ []) h = tt
  All-drop_back (x ∷ y ∷ l) h = (h.0, All-drop_back (y ∷ l) h.1)

  pub All-evict : (n : ℕ) (l : List A) → All P l → All P (evict n l)
  unfolding evict
  All-evict n l h = elim (Bool-cases (leb n (length l))) [
    | inl full ↦ rw full (All-drop_back l h)
    | inr room ↦ rw room h
  ]

  pub All-keep : (p : A → Bool) (l : List A) → All P l → All P (keep p l)
  All-keep p [] h = tt
  All-keep p (x ∷ l) h = elim (Bool-cases (p x)) [
    | inl kept ↦ rw kept (h.0, All-keep p l h.1)
    | inr gone ↦ rw gone (All-keep p l h.1)
  ]

module _ {K V : Type 0} (dec : Discrete K) (P : K × V → Type 0) where
  pub All-remove : (k : K) (m : List (K × V)) → All P m → All P (remove dec k m)
  unfolding remove
  All-remove k [] h = tt
  All-remove k (e ∷ m) h = elim (dec k e.0) [
    | yes same ↦ rw (if_pos _ same) (All-remove k m h.1)
    | no ne ↦ rw (if_neg _ ne) (h.0, All-remove k m h.1)
  ]

  pub All-put : (k : K) (v : V) (m : List (K × V)) → P (k, v) → All P m → All P (put dec k v m)
  unfolding put
  All-put k v [] p h = (p, tt)
  All-put k v (e ∷ m) p h = elim (dec k e.0) [
    | yes same ↦ rw (if_pos _ same) (p, h.1)
    | no ne ↦ rw (if_neg _ ne) (h.0, All-put k v m p h.1)
  ]

  pub All-find : (k : K) (v : V) (m : List (K × V)) → All P m → find dec k m ≡ some v → P (k, v)
  unfolding find
  All-find k v [] h known = absurd (ground (arith, known))
  All-find k v ((j, w) ∷ m) h known = elim (dec k j) [
    | yes same ↦
        let is_v : w ≡ v = ground (arith, same, known) in
        subst (λ i. P (i, v)) (sym same) (subst (λ u. P (j, u)) is_v h.0)
    | no ne ↦ All-find k v m h.1 (ground (arith, ne, known))
  ]
