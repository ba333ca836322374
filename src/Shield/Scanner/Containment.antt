-- ===== src/Shield/Scanner/Containment.antt =====
-- Which User-Agents match beside the signatures themselves (internal/shield/scanner.go).
use freesbc.Base.{
  ℕ, ◌≡◌, refl, sym, ap, ◌∙◌, inl, inr, true, List, [], ◌∷◌, ◌++◌, arith, Bool-cases, false-true,
}
use freesbc.Base.Text.{
  to_lower, contains, has_prefix, contains-append_right, contains-append_left, to_lower-append,
}
use freesbc.Shield.Scanner.{scanner_signatures, matches_any, is_scanner}

matches_any-append :
    (s ua t : List ℕ) (sigs : List (List ℕ))
    → matches_any ua sigs ≡ true
    → matches_any (s ++ (ua ++ t)) sigs ≡ true
unfolding matches_any
matches_any-append s ua t [] h = absurd (false-true h)
matches_any-append s ua t (sig ∷ sigs) h = elim (Bool-cases (contains ua sig)) [
  | inl here ↦
      ground (arith, contains-append_left s sig (ua ++ t) (contains-append_right ua sig t here))
  | inr there ↦ ground (arith, matches_any-append s ua t sigs (rw there at h))
]

-- The empty User-Agent is no exception: it holds no signature.
is_scanner-matches_any :
    (ua : List ℕ) → is_scanner ua ≡ matches_any (to_lower ua) scanner_signatures
unfolding is_scanner matches_any to_lower contains has_prefix
is_scanner-matches_any [] = refl
is_scanner-matches_any (c ∷ ua) = refl

-- A User-Agent is a scanner's wherever a scanner's stands in it: adding text before it and after it
-- does not hide it.
pub is_scanner-append :
    (s ua t : List ℕ) → is_scanner ua ≡ true → is_scanner (s ++ (ua ++ t)) ≡ true
is_scanner-append s ua t h =
    is_scanner-matches_any (s ++ (ua ++ t))
    ∙ ap (λ l. matches_any l scanner_signatures)
        (to_lower-append s (ua ++ t) ∙ ap (λ l. to_lower s ++ l) (to_lower-append ua t))
    ∙ matches_any-append (to_lower s) (to_lower ua) (to_lower t) scanner_signatures
        (sym (is_scanner-matches_any ua) ∙ h)
