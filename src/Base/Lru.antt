-- ===== src/Base/Lru.antt =====
-- The LRU tables: a map with a list of its entries, as one association list with the most recently
-- used entry in front.
use Prim.Native.Nat.{ℕ, ◌≤◌, ◌<◌}
use mathlib.Core.Path.{◌≡◌, ◌∙◌}
use mathlib.Core.Bool.{true}
use mathlib.Core.Logic.{◌≢◌, inl, inr}
use mathlib.Core.Option.{none, some}
use mathlib.Core.List.{List, [], ◌∷◌}
use native.Mathlib.Omega.{arith}
use freesbc.Base.Tests.{leb, if◌then◌else◌, leb_false→lt, Bool-cases}
use freesbc.Base.Lists.{length, drop_back, length-drop_back}
use freesbc.Base.Assoc.{
  find, remove, NoDup, length-remove_known, find-drop_back-none, NoDup-drop_back, NoDup-touch,
  find-remove_ne, find-front_ne,
}

-- The list that a new entry is pushed on: at the cap the back entry goes first.
unfoldable pub evict {ℓ} : {A : Type ℓ} → ℕ → List A → List A
evict max l = if leb max (length l) then drop_back l else l

pub length-evict {ℓ} :
    {A : Type ℓ} (max : ℕ) (l : List A) → 0 < max → length l ≤ max → length (evict max l) < max
unfolding evict
length-evict max [] h b = ground arith
length-evict max (x ∷ l) h b = ground (arith, length-drop_back x l)

module _ {ℓ} {K V : Type ℓ} (dec : Discrete K) where
  -- What holds of every table of this kind with a cap.
  pub record IsLru (max : ℕ) (m : List (K × V)) : Type ℓ where
    pub bounded : length m ≤ max
    pub distinct : NoDup dec m

  pub IsLru-touch :
      (max : ℕ) (k : K) (v w : V) (m : List (K × V))
      → find dec k m ≡ some w
      → IsLru max m
      → IsLru max ((k, v) ∷ remove dec k m)
  IsLru-touch max k v w m known h = record {
    bounded = omega (arith, length-remove_known dec k m w known, h.bounded);
    distinct = NoDup-touch dec k v m h.distinct;
  }

  pub IsLru-push :
      (max : ℕ) (k : K) (v : V) (m : List (K × V))
      → 0 < max
      → find dec k m ≡ none
      → IsLru max m
      → IsLru max ((k, v) ∷ evict max m)
  unfolding evict
  IsLru-push max k v m pos new h = elim (Bool-cases (leb max (length m))) [
    | inl full ↦ rw full (record {
      bounded = pushed full;
      distinct = (find-drop_back-none dec k m new, NoDup-drop_back dec m h.distinct);
    })
    | inr room ↦ rw room (record { bounded = leb_false→lt _ _ room; distinct = (new, h.distinct) })
  ]
    where
      pushed : leb max (length m) ≡ true → length ((k, v) ∷ drop_back m) ≤ max
      pushed full = rw full at (length-evict max m pos h.bounded)

  pub find-push_ne :
      (max : ℕ) (j k : K) (v : V) (m : List (K × V))
      → j ≢ k
      → length m < max
      → find dec j ((k, v) ∷ evict max m) ≡ find dec j m
  unfolding evict
  find-push_ne max j k v m h room = ground (arith, find-front_ne dec j k v m)

  pub find-touch_ne :
      (j k : K) (v : V) (m : List (K × V))
      → j ≢ k
      → find dec j ((k, v) ∷ remove dec k m) ≡ find dec j m
  find-touch_ne j k v m h = find-front_ne dec j k v (remove dec k m) h ∙ find-remove_ne dec j k m h
