-- ===== src/Base/Text.antt =====
-- Texts that the code looks into, as lists of code points.
use Prim.Native.Char.{code}
use Prim.Native.Nat.{ℕ, ◌+◌}
use Prim.Native.String.{String}
use mathlib.Core.Path.{◌≡◌, refl, ap}
use mathlib.Core.Bool.{Bool, true, false, ◌&&◌, ◌||◌}
use mathlib.Core.List.{List, [], ◌∷◌, ◌++◌, map}
use native.Mathlib.Omega.{arith}
use freesbc.Base.Tests.{leb, ◌==◌, if◌then◌else◌}

-- The code points of a literal. `String` has its own `[]` and `∷`.
abbrev pub codes : String → List ℕ
codes String.[] = []
codes (String.◌∷◌ c s) = code c ∷ codes s

-- `unicode.ToLower` where it lands in ASCII: the capitals, the dotted capital I and the Kelvin
-- sign. Any other character lowers to one outside ASCII, which no text here is compared with.
unfoldable pub lower_char : ℕ → ℕ
lower_char c =
    if leb b'A' c && leb c b'Z'
    then c + 32
    else if c == 0x130
    then b'i'
    else if c == 0x212a
    then b'k'
    else c

-- `strings.ToLower`.
unfoldable pub to_lower : List ℕ → List ℕ
unfolding lower_char
to_lower s = map lower_char s

unfoldable pub text_eq : List ℕ → List ℕ → Bool
text_eq [] [] = true
text_eq (a ∷ s) (b ∷ t) = a == b && text_eq s t
text_eq _ _ = false

-- `strings.HasPrefix(s, p)`.
unfoldable pub has_prefix : List ℕ → List ℕ → Bool
has_prefix s [] = true
has_prefix [] (p ∷ ps) = false
has_prefix (c ∷ s) (p ∷ ps) = c == p && has_prefix s ps

-- `strings.Contains(s, sub)`.
unfoldable pub contains : List ℕ → List ℕ → Bool
contains [] sub = has_prefix [] sub
contains (c ∷ s) sub = has_prefix (c ∷ s) sub || contains s sub

pub has_prefix-append : (s p t : List ℕ) → has_prefix s p ≡ true → has_prefix (s ++ t) p ≡ true
unfolding has_prefix
has_prefix-append s [] t h = refl
has_prefix-append [] (p ∷ ps) t h = cc
has_prefix-append (c ∷ s) (p ∷ ps) t h = ground (arith, has_prefix-append s ps t)

pub contains-append_right :
    (s sub t : List ℕ) → contains s sub ≡ true → contains (s ++ t) sub ≡ true
unfolding contains has_prefix
contains-append_right [] [] [] h = refl
contains-append_right [] [] (c ∷ t) h = refl
contains-append_right [] (p ∷ ps) t h = cc
contains-append_right (c ∷ s) sub t h =
    ground (arith, has_prefix-append (c ∷ s) sub t, contains-append_right s sub t)

pub contains-append_left : (s sub t : List ℕ) → contains t sub ≡ true → contains (s ++ t) sub ≡ true
unfolding contains
contains-append_left [] sub t h = h
contains-append_left (c ∷ s) sub t h = ground (arith, contains-append_left s sub t)

pub to_lower-append : (s t : List ℕ) → to_lower (s ++ t) ≡ to_lower s ++ to_lower t
unfolding to_lower
to_lower-append [] t = refl
to_lower-append (c ∷ s) t = ap (◌∷◌ (lower_char c)) (to_lower-append s t)

pub text_eq→≡ : (s t : List ℕ) → text_eq s t ≡ true → s ≡ t
unfolding text_eq
text_eq→≡ [] [] h = refl
text_eq→≡ [] (b ∷ t) h = cc
text_eq→≡ (a ∷ s) [] h = cc
text_eq→≡ (a ∷ s) (b ∷ t) h = ground (arith, text_eq→≡ s t)
