-- ===== src/Shield/Scanner.antt =====
-- The User-Agent signatures of internal/shield/scanner.go.
pub mod Containment
use freesbc.Base.{ℕ, Bool, false, ◌||◌, List, [], ◌∷◌}
use freesbc.Base.Text.{codes, to_lower, contains}

abbrev pub scanner_signatures : List (List ℕ)
scanner_signatures =
    codes "friendly-scanner"
    ∷ codes "sipvicious"
    ∷ codes "sipcli"
    ∷ codes "sip-scan"
    ∷ codes "sundayddr"
    ∷ codes "vaxsipuseragent"
    ∷ codes "sipsak"
    ∷ codes "iwar"
    ∷ codes "sivus"
    ∷ codes "smap"
    ∷ codes "pplsip"
    ∷ []

-- The loop over the signatures.
unfoldable pub matches_any : List ℕ → List (List ℕ) → Bool
matches_any lowered [] = false
matches_any lowered (sig ∷ sigs) = contains lowered sig || matches_any lowered sigs

-- `isScanner`: an empty User-Agent is no match.
unfoldable pub is_scanner : List ℕ → Bool
unfolding matches_any
is_scanner [] = false
is_scanner (c ∷ ua) = matches_any (to_lower (c ∷ ua)) scanner_signatures
