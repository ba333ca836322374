-- ===== src/Edge/Admission/Summary.antt =====
-- The totals of the drop summary (internal/edge/admission.go).
use freesbc.Base.{
  ℕ, ◌+◌, ◌≤◌, ◌<◌, ◌≡◌, refl, sym, ap, ◌∙◌, inl, inr, Bool, true, false, not, ◌&&◌, List, [], ◌∷◌,
  arith, leb, if◌then◌else◌, Bool-cases, Option-cases, false-true, length,
}
use freesbc.Base.Assoc.{find, put, length-put_known, length-put_new}
use mathlib.Core.Path.{subst}
use freesbc.Net.{Addr, Addr-discrete, unmap, without_zone}
use freesbc.Edge.Admission.{
  SummaryCount, DropSummary, max_summary_sources, new_drop_summary, count_or_none, is_known, bump,
  add_drop,
}

-- The drops that the tally of the sources holds.
pub tallied : List (Addr × SummaryCount) → ℕ
tallied [] = 0
tallied ((ip, c) ∷ m) = c.admission + c.malformed + tallied m

-- The drops of one interval, in their order, each with its source and its kind.
pub add_all : List (Addr × Bool) → DropSummary → DropSummary
add_all [] d = d
add_all ((ip, malformed) ∷ drops) d = add_all drops (add_drop ip malformed d)

abbrev pub Totals : ℕ → DropSummary → Type 0
Totals n d =
    (d.admission + d.malformed ≡ n)
    × (tallied d.by_src ≤ n)
    × (d.overflow ≡ false → tallied d.by_src ≡ n)
    × (length d.by_src ≤ max_summary_sources)

both : SummaryCount → ℕ
both c = c.admission + c.malformed

both-bump : (b : Bool) (c : SummaryCount) → both (bump b c) ≡ both c + 1
unfolding both
both-bump true c = omega arith
both-bump false c = omega arith

tallied-put :
    (ip : Addr) (c : SummaryCount) (m : List (Addr × SummaryCount))
    → tallied (put Addr-discrete ip c m) + both (count_or_none (find Addr-discrete ip m))
      ≡ tallied m + both c
unfolding tallied both put find
tallied-put ip c [] = omega arith
tallied-put ip c ((j, d) ∷ m) = ground (arith, tallied-put ip c m)

-- The table is full for a new source.
abbrev is_full : Addr → DropSummary → Bool
is_full k d =
    not (is_known (find Addr-discrete k d.by_src)) && leb max_summary_sources (length d.by_src)

add_drop-fields :
    (ip : Addr) (b : Bool) (d : DropSummary)
    → let k = without_zone (unmap ip) in
      let u = add_drop ip b d in
      (u.admission + u.malformed ≡ d.admission + d.malformed + 1)
      × (u.overflow ≡ (if is_full k d then true else d.overflow))
      × (u.by_src ≡ (
          if is_full k d
          then d.by_src
          else put Addr-discrete k
              (bump b (count_or_none (find Addr-discrete k d.by_src)))
              d.by_src))
unfolding add_drop
add_drop-fields ip b d = elim (Bool-cases (is_full (without_zone (unmap ip)) d)) [
  | inl full ↦ elim (Bool-cases b) [
    | inl t ↦ rw (full, t) (omega arith, refl, refl)
    | inr t ↦ rw (full, t) (omega arith, refl, refl)
  ]
  | inr room ↦ elim (Bool-cases b) [
    | inl t ↦ rw (room, t) (omega arith, refl, refl)
    | inr t ↦ rw (room, t) (omega arith, refl, refl)
  ]
]

-- What one drop does to the tally of the sources.
put-Tally :
    (k : Addr) (b : Bool) (d : DropSummary)
    → is_full k d ≡ false
    → length d.by_src ≤ max_summary_sources
    → let m =
        put Addr-discrete k (bump b (count_or_none (find Addr-discrete k d.by_src))) d.by_src in
      (tallied m ≡ tallied d.by_src + 1) × (length m ≤ max_summary_sources)
put-Tally k b d room few =
    let c = count_or_none (find Addr-discrete k d.by_src) in
    (
      omega (arith, tallied-put k (bump b c) d.by_src, both-bump b c),
      elim (Option-cases (find Addr-discrete k d.by_src)) [
        | inr (v, known) ↦
            omega (arith, length-put_known Addr-discrete k (bump b c) d.by_src v known, few)
        | inl new ↦
            let less : length d.by_src < max_summary_sources = ground (arith, room, new) in
            omega (arith, length-put_new Addr-discrete k (bump b c) d.by_src new, less)
      ],
    )

add_drop-Totals :
    (n : ℕ) (ip : Addr) (b : Bool) (d : DropSummary) → Totals n d → Totals (n + 1) (add_drop ip b d)
add_drop-Totals n ip b d (sum, low, exact, few) =
    let k = without_zone (unmap ip) in
    let (more, flag, table) = add_drop-fields ip b d in
    elim (Bool-cases (is_full k d)) [
      | inl full ↦
          let same : (add_drop ip b d).by_src ≡ d.by_src = table ∙ rw full refl in
          let lost : (add_drop ip b d).overflow ≡ true = flag ∙ rw full refl in
          (
            omega (arith, more, sum),
            omega (arith, ap tallied same, low),
            λ kept. absurd (false-true (sym kept ∙ lost)),
            omega (arith, ap (λ m. length m) same, few),
          )
      | inr room ↦
          let m =
            put Addr-discrete k (bump b (count_or_none (find Addr-discrete k d.by_src))) d.by_src in
          let put_in : (add_drop ip b d).by_src ≡ m = table ∙ rw room refl in
          let kept : (add_drop ip b d).overflow ≡ d.overflow = flag ∙ rw room refl in
          let (one, still) = put-Tally k b d room few in
          (
            omega (arith, more, sum),
            omega (arith, ap tallied put_in, one, low),
            λ clear. omega (arith, ap tallied put_in, one, exact (sym kept ∙ clear)),
            omega (arith, ap (λ l. length l) put_in, still),
          )
    ]

add_all-Totals_from :
    (drops : List (Addr × Bool)) (n : ℕ) (d : DropSummary)
    → Totals n d
    → Totals (n + length drops) (add_all drops d)
unfolding add_all
add_all-Totals_from [] n d totals = subst (λ k. Totals k d) (omega arith) totals
add_all-Totals_from ((ip, b) ∷ drops) n d totals =
    subst (λ k. Totals k (add_all drops (add_drop ip b d))) (omega arith)
      (add_all-Totals_from drops (n + 1) (add_drop ip b d) (add_drop-Totals n ip b d totals))

-- After the drops of an interval, in any order and of either kind, the two totals are together the
-- number of the drops. The tally of the sources has at most 1,024 of them and counts no drop twice;
-- while no source was left out, it counts every drop.
pub add_all-Totals :
    (drops : List (Addr × Bool)) → Totals (length drops) (add_all drops new_drop_summary)
unfolding tallied
add_all-Totals drops =
    subst (λ k. Totals k (add_all drops new_drop_summary)) (omega arith)
      (add_all-Totals_from drops 0 new_drop_summary (refl, omega arith, λ e. refl, omega arith))
