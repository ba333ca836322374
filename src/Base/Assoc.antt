-- ===== src/Base/Assoc.antt =====
-- Association lists: Go's maps, and the LRU lists that the tables keep beside them. A key stands at
-- most once (`NoDup`), so the order of the entries matters only where the code keeps one.
use Prim.Native.Nat.{◌+◌, ◌≤◌}
use mathlib.Core.Path.{◌≡◌, refl, subst}
use mathlib.Core.Logic.{◌≢◌, inl, inr, ite, if_pos, if_neg}
use mathlib.Core.Bool.{Bool}
use mathlib.Core.Option.{Option, none, some}
use mathlib.Core.List.{List, [], ◌∷◌}
use native.Mathlib.Omega.{arith}
use freesbc.Base.Tests.{if◌then◌else◌, Bool-cases}
use freesbc.Base.Lists.{length, drop_back, keep}

module _ {ℓ} {K V : Type ℓ} (dec : Discrete K) where
  -- `m[k]`, with the comma-ok result as an option.
  unfoldable pub find : K → List (K × V) → Option V
  find k [] = none
  find k ((j, v) ∷ m) = ite (dec k j) (some v) (find k m)

  -- `delete(m, k)`.
  unfoldable pub remove : K → List (K × V) → List (K × V)
  remove k [] = []
  remove k ((j, v) ∷ m) = let rest = remove k m in ite (dec k j) rest ((j, v) ∷ rest)

  -- `m[k] = v`: a known key keeps its place.
  unfoldable pub put : K → V → List (K × V) → List (K × V)
  put k v [] = (k, v) ∷ []
  put k v ((j, w) ∷ m) = let rest = put k v m in ite (dec k j) ((k, v) ∷ m) ((j, w) ∷ rest)

  -- No key stands twice.
  abbrev pub NoDup : List (K × V) → Type ℓ
  NoDup [] = Unit
  NoDup ((k, v) ∷ m) = (find k m ≡ none) × NoDup m

  pub find-remove :
      (j k : K) (m : List (K × V)) → find j (remove k m) ≡ ite (dec j k) none (find j m)
  unfolding find remove
  find-remove j k [] = ground arith
  find-remove j k ((i, v) ∷ m) = ground (arith, find-remove j k m)

  pub find-put :
      (j k : K) (v : V) (m : List (K × V)) → find j (put k v m) ≡ ite (dec j k) (some v) (find j m)
  unfolding find put
  find-put j k v [] = ground arith
  find-put j k v ((i, w) ∷ m) = ground (arith, find-put j k v m)

  pub find-remove_self : (k : K) (m : List (K × V)) → find k (remove k m) ≡ none
  find-remove_self k m = ground (arith, find-remove k k m)

  pub find-remove_ne : (j k : K) (m : List (K × V)) → j ≢ k → find j (remove k m) ≡ find j m
  find-remove_ne j k m h = ground (arith, find-remove j k m)

  pub find-put_self : (k : K) (v : V) (m : List (K × V)) → find k (put k v m) ≡ some v
  find-put_self k v m = ground (arith, find-put k k v m)

  pub find-put_ne : (j k : K) (v : V) (m : List (K × V)) → j ≢ k → find j (put k v m) ≡ find j m
  find-put_ne j k v m h = ground (arith, find-put j k v m)

  pub length-remove-le : (k : K) (m : List (K × V)) → length (remove k m) ≤ length m
  unfolding remove
  length-remove-le k [] = omega arith
  length-remove-le k ((i, v) ∷ m) = ground (arith, length-remove-le k m)

  pub length-remove_known :
      (k : K) (m : List (K × V)) (v : V) → find k m ≡ some v → length (remove k m) + 1 ≤ length m
  unfolding remove find
  length-remove_known k [] v h = cc
  length-remove_known k ((i, w) ∷ m) v h =
      ground (arith, length-remove_known k m v, length-remove-le k m)

  pub length-put_known :
      (k : K) (v : V) (m : List (K × V)) (w : V) → find k m ≡ some w → length (put k v m) ≡ length m
  unfolding put find
  length-put_known k v [] w h = cc
  length-put_known k v ((i, u) ∷ m) w h = ground (arith, length-put_known k v m w)

  pub length-put_new :
      (k : K) (v : V) (m : List (K × V)) → find k m ≡ none → length (put k v m) ≡ length m + 1
  unfolding put find
  length-put_new k v [] h = omega arith
  length-put_new k v ((i, u) ∷ m) h = ground (arith, length-put_new k v m)

  pub NoDup-remove : (k : K) (m : List (K × V)) → NoDup m → NoDup (remove k m)
  unfolding remove
  NoDup-remove k [] h = tt
  NoDup-remove k ((i, v) ∷ m) h = elim (dec k i) [
    | yes p ↦ rw (if_pos _ p) (NoDup-remove k m h.1)
    | no p ↦ rw (if_neg _ p) (ground (arith, find-remove i k m), NoDup-remove k m h.1)
  ]

  pub NoDup-put : (k : K) (v : V) (m : List (K × V)) → NoDup m → NoDup (put k v m)
  unfolding put find
  NoDup-put k v [] h = (refl, tt)
  NoDup-put k v ((i, w) ∷ m) h = elim (dec k i) [
    | yes p ↦ rw (if_pos _ p) (rw p h.0, h.1)
    | no p ↦ rw (if_neg _ p) (ground (arith, find-put i k v m), NoDup-put k v m h.1)
  ]

  -- What a filter keeps of a key: its entry, if that passes the test.
  abbrev pub passing : (K × V → Bool) → K → Option V → Option V
  passing p k none = none
  passing p k (some v) = if p (k, v) then some v else none

  pub find-keep-none :
      (p : K × V → Bool) (k : K) (m : List (K × V)) → find k m ≡ none → find k (keep p m) ≡ none
  unfolding find
  find-keep-none p k [] h = refl
  find-keep-none p k ((i, v) ∷ m) h = ground (arith, find-keep-none p k m)

  find-keep_here :
      (p : K × V → Bool) (k : K) (v : V) (m : List (K × V))
      → find k m ≡ none
      → find k (keep p ((k, v) ∷ m)) ≡ passing p k (find k ((k, v) ∷ m))
  unfolding find
  find-keep_here p k v m h = ground (arith, find-keep-none p k m)

  pub find-keep :
      (p : K × V → Bool) (k : K) (m : List (K × V))
      → NoDup m
      → find k (keep p m) ≡ passing p k (find k m)
  unfolding find
  find-keep p k [] h = refl
  find-keep p k ((i, v) ∷ m) h = elim (dec k i) [
    | yes e ↦
        subst
          (λ j.
            (find j m ≡ none) → find k (keep p ((j, v) ∷ m)) ≡ passing p k (find k ((j, v) ∷ m)))
          e (find-keep_here p k v m) h.0
    | no e ↦ ground (arith, e, find-keep p k m h.1)
  ]

  pub NoDup-keep : (p : K × V → Bool) (m : List (K × V)) → NoDup m → NoDup (keep p m)
  NoDup-keep p [] h = tt
  NoDup-keep p ((i, v) ∷ m) h = elim (Bool-cases (p (i, v))) [
    | inl t ↦ rw t (find-keep-none p i m h.0, NoDup-keep p m h.1)
    | inr f ↦ rw f (NoDup-keep p m h.1)
  ]

  -- Dropping the back entry loses only entries, and invents none.
  pub find-drop_back :
      (k : K) (m : List (K × V)) {v : V} → find k (drop_back m) ≡ some v → find k m ≡ some v
  unfolding find
  find-drop_back k [] h = cc
  find-drop_back k (e ∷ []) h = cc
  find-drop_back k (e ∷ e' ∷ m) {v} h = ground (arith, find-drop_back k (e' ∷ m) {v = v})

  pub find-drop_back-none :
      (k : K) (m : List (K × V)) → find k m ≡ none → find k (drop_back m) ≡ none
  unfolding find
  find-drop_back-none k [] h = refl
  find-drop_back-none k (e ∷ []) h = refl
  find-drop_back-none k (e ∷ e' ∷ m) h = ground (arith, find-drop_back-none k (e' ∷ m))

  pub NoDup-drop_back : (m : List (K × V)) → NoDup m → NoDup (drop_back m)
  NoDup-drop_back [] h = tt
  NoDup-drop_back (e ∷ []) h = tt
  NoDup-drop_back (e ∷ e' ∷ m) h =
      (find-drop_back-none e.0 (e' ∷ m) h.0, NoDup-drop_back (e' ∷ m) h.1)

  -- `PushFront` of an entry whose key is new or has just been taken out.
  pub NoDup-touch : (k : K) (v : V) (m : List (K × V)) → NoDup m → NoDup ((k, v) ∷ remove k m)
  NoDup-touch k v m h = (find-remove_self k m, NoDup-remove k m h)

  pub find-front_self : (k : K) (v : V) (m : List (K × V)) → find k ((k, v) ∷ m) ≡ some v
  unfolding find
  find-front_self k v m = if_pos (dec k k) refl _ _

  pub find-front_ne : (j k : K) (v : V) (m : List (K × V)) → j ≢ k → find j ((k, v) ∷ m) ≡ find j m
  unfolding find
  find-front_ne j k v m h = if_neg (dec j k) h _ _
