-- ===== src/Shield/Offenders/Window.antt =====
-- When a source is over its threshold, and the bound of the table (internal/shield/offenders.go).
use freesbc.Base.{
  ℕ, ◌+◌, ◌<◌, String, ◌≡◌, refl, none, some, List, [], ◌∷◌, arith, ltb, leb, ◌==◌, All,
}
use freesbc.Base.Assoc.{find, find-front_self}
use freesbc.Shield.Offenders.{
  StrikeLimit, OffenderKey, OffenderKey-discrete, Offender, OffenderTable, Report, fresh, reopened,
  count_strike, strike,
}

-- The entry of a key after `c` strikes in a window that opened at `start`.
pub record Counted (lim : StrikeLimit) (start c : ℕ) (o : Offender) : Type 0 where
  pub at : o.start ≡ start
  pub counted : o.count ≡ c
  pub flagged : o.over ≡ ltb lim.n c

abbrev pub Tracks : StrikeLimit → OffenderKey → ℕ → ℕ → OffenderTable → Type 0
Tracks lim key start c t =
    (o : Offender) × (find OffenderKey-discrete key t.lru ≡ some o) × Counted lim start c o

-- What the `c + 1`st strike of a window reports.
abbrev pub expected : StrikeLimit → ℕ → Report
expected lim c = record { count = c + 1; over = leb lim.n c; crossed = lim.n == c }

count_strike-Counted :
    (lim : StrikeLimit) (part : String) (start c : ℕ) (o : Offender)
    → Counted lim start c o
    → Counted lim start (c + 1) (count_strike lim part o).0
      × ((count_strike lim part o).1 ≡ expected lim c)
unfolding count_strike
count_strike-Counted lim part start c o h = (ground arith, ground arith)

-- A strike in an open window counts one more; it is over the threshold exactly when more than `n`
-- strikes were counted, and it crosses the threshold exactly when it is number n + 1.
pub strike-Tracks :
    (lim : StrikeLimit) (key : OffenderKey) (part : String) (start c now : ℕ) (t : OffenderTable)
    → Tracks lim key start c t
    → now < start + lim.window
    → Tracks lim key start (c + 1) (strike key part lim now t).0
      × ((strike key part lim now t).1 ≡ expected lim c)
unfolding strike reopened
strike-Tracks lim key part start c now t (o, known, h) open_window =
    let (h', said) = count_strike-Counted lim part start c o h in
    let same : reopened now lim.window o ≡ o = ground (arith, h.at) in
    rw (known, strike, same) ((_, find-front_self OffenderKey-discrete key _ _, h'), said)

-- The first strike of a key opens a window.
pub strike_first :
    (lim : StrikeLimit) (key : OffenderKey) (part : String) (now : ℕ) (t : OffenderTable)
    → find OffenderKey-discrete key t.lru ≡ none
    → Tracks lim key now 1 (strike key part lim now t).0
      × ((strike key part lim now t).1 ≡ expected lim 0)
unfolding strike
strike_first lim key part now t new =
    let (h', said) = count_strike-Counted lim part now 0 (fresh now) (ground arith) in
    rw (new, strike) ((_, find-front_self OffenderKey-discrete key _ _, h'), said)

-- A run of strikes of one key, each with its part and its instant, and the reports.
pub run : StrikeLimit → OffenderKey → List (String × ℕ) → OffenderTable → List Report
run lim key [] t = []
run lim key ((part, now) ∷ l) t =
    let (t', report) = strike key part lim now t in report ∷ run lim key l t'

-- The reports of strikes number c + 1, c + 2 and so on.
pub expected_from : StrikeLimit → ℕ → List (String × ℕ) → List Report
expected_from lim c [] = []
expected_from lim c (s ∷ l) = expected lim c ∷ expected_from lim (c + 1) l

run_from :
    (lim : StrikeLimit) (key : OffenderKey) (start c : ℕ) (l : List (String × ℕ))
    (t : OffenderTable)
    → Tracks lim key start c t
    → All (λ s. s.1 < start + lim.window) l
    → run lim key l t ≡ expected_from lim c l
unfolding run expected_from
run_from lim key start c [] t h within = refl
run_from lim key start c ((part, now) ∷ l) t h within =
    let (h', said) = strike-Tracks lim key part start c now t h within.0 in
    cc (said, run_from lim key start (c + 1) l (strike key part lim now t).0 h' within.1)

-- A window counts every strike: for a source with no entry, the strikes of a window that opens at the
-- first are reported as numbers 1, 2, 3 and so on; a report is over the threshold exactly past `n`,
-- and crosses it exactly at n + 1, so the ban is logged once.
pub run-expected :
    (lim : StrikeLimit) (key : OffenderKey) (part : String) (start : ℕ) (l : List (String × ℕ))
    (t : OffenderTable)
    → find OffenderKey-discrete key t.lru ≡ none
    → All (λ s. s.1 < start + lim.window) l
    → run lim key ((part, start) ∷ l) t ≡ expected_from lim 0 ((part, start) ∷ l)
unfolding run expected_from
run-expected lim key part start l t new within =
    let (h', said) = strike_first lim key part start t new in
    cc (said, run_from lim key start 1 l (strike key part lim start t).0 h' within)
