-- ===== src/Base/Lists.antt =====
-- Lists measured and indexed by native numbers, under the library's names.
use Prim.Native.Nat.{ℕ, zero, suc, ◌+◌, ◌≤◌}
use mathlib.Core.Path.{◌≡◌, refl}
use mathlib.Core.Bool.{Bool}
use mathlib.Core.List.{List, [], ◌∷◌, ◌++◌}
use native.Mathlib.Omega.{arith}
use freesbc.Base.Tests.{if◌then◌else◌}

module _ {ℓ} {A : Type ℓ} where
  abbrev pub length : List A → ℕ
  length [] = 0
  length (x ∷ xs) = suc (length xs)

  -- All but the last element.
  abbrev pub drop_back : List A → List A
  drop_back [] = []
  drop_back (x ∷ []) = []
  drop_back (x ∷ y ∷ l) = x ∷ drop_back (y ∷ l)

  abbrev pub take : ℕ → List A → List A
  take zero xs = []
  take (suc n) [] = []
  take (suc n) (x ∷ xs) = x ∷ take n xs

  abbrev pub drop : ℕ → List A → List A
  drop zero xs = xs
  drop (suc n) [] = []
  drop (suc n) (x ∷ xs) = drop n xs

  -- The elements that pass a test, in their order.
  abbrev pub keep : (A → Bool) → List A → List A
  keep p [] = []
  keep p (x ∷ xs) = let rest = keep p xs in if p x then x ∷ rest else rest

  abbrev pub All {κ} : (A → Type κ) → List A → Type κ
  All P [] = Unit
  All P (x ∷ xs) = P x × All P xs

  pub length-append : (xs ys : List A) → length (xs ++ ys) ≡ length xs + length ys
  length-append [] ys = omega arith
  length-append (x ∷ xs) ys = omega (arith, length-append xs ys)

  pub length-drop_back : (x : A) (l : List A) → length (drop_back (x ∷ l)) ≡ length l
  length-drop_back x [] = refl
  length-drop_back x (y ∷ l) = omega (arith, length-drop_back y l)

  pub length-drop_back-le : (l : List A) → length (drop_back l) ≤ length l
  length-drop_back-le [] = omega arith
  length-drop_back-le (x ∷ l) = omega (arith, length-drop_back x l)

  pub length-keep-le : (p : A → Bool) (l : List A) → length (keep p l) ≤ length l
  length-keep-le p [] = omega arith
  length-keep-le p (x ∷ l) = ground (arith, length-keep-le p l)

  pub length-take-le : (n : ℕ) (l : List A) → length (take n l) ≤ n
  length-take-le zero l = omega arith
  length-take-le (suc n) [] = omega arith
  length-take-le (suc n) (x ∷ l) = omega (arith, length-take-le n l)
