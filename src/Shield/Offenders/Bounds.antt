-- ===== src/Shield/Offenders/Bounds.antt =====
-- The bound of the offender table, and the parts that a budget is listed by
-- (internal/shield/offenders.go).
use freesbc.Base.{
  ℕ, ◌+◌, String, ◌≡◌, refl, ap, ◌≢◌, inl, inr, some, List, [], ◌∷◌, map, arith, text_discrete,
  Option-cases, length-keep-le,
}
use freesbc.Base.Assoc.{find, put, length-remove-le, NoDup-remove, NoDup-keep, find-front_self}
use freesbc.Base.Lru.{IsLru, IsLru-touch, IsLru-push}
use freesbc.Shield.Offenders.{
  StrikeLimit, OffenderKey, OffenderKey-discrete, Offender, OffenderTable, new_offender_table,
  fresh, reopened, tally, count_strike, strike, clear, prune, offender_cap, count_of, rows,
}

abbrev pub IsBounded : OffenderTable → Type 0
IsBounded t = (t.max ≡ offender_cap) × IsLru OffenderKey-discrete t.max t.lru

strike-IsBounded :
    (key : OffenderKey) (part : String) (lim : StrikeLimit) (now : ℕ) (t : OffenderTable)
    → IsBounded t
    → IsBounded (strike key part lim now t).0
unfolding strike
strike-IsBounded key part lim now t (cap, h) =
    elim (Option-cases (find OffenderKey-discrete key t.lru)) [
      | inl new ↦
          rw (new, strike)
            (cap, IsLru-push OffenderKey-discrete t.max key _ t.lru (omega arith) new h)
      | inr (o, known) ↦
          rw (known, strike) (cap, IsLru-touch OffenderKey-discrete t.max key _ o t.lru known h)
    ]

clear-IsBounded : (key : OffenderKey) (t : OffenderTable) → IsBounded t → IsBounded (clear key t)
unfolding clear
clear-IsBounded key t (cap, h) = (
  cap,
  record {
    bounded = omega (arith, length-remove-le OffenderKey-discrete key t.lru, h.bounded);
    distinct = NoDup-remove OffenderKey-discrete key t.lru h.distinct;
  },
)

prune-IsBounded : (now : ℕ) (t : OffenderTable) → IsBounded t → IsBounded (prune now t)
unfolding prune
prune-IsBounded now t (cap, h) = (
  cap,
  record {
    bounded = omega (arith, length-keep-le {0} _ t.lru, h.bounded);
    distinct = NoDup-keep OffenderKey-discrete _ t.lru h.distinct;
  },
)

pub data Reach : OffenderTable → Type 0 where
  start : Reach new_offender_table
  strikes :
      {t : OffenderTable} (key : OffenderKey) (part : String) (lim : StrikeLimit) (now : ℕ)
      → Reach t
      → Reach (strike key part lim now t).0
  clears : {t : OffenderTable} (key : OffenderKey) → Reach t → Reach (clear key t)
  prunes : {t : OffenderTable} (now : ℕ) → Reach t → Reach (prune now t)

-- The table is bounded: after any strikes, clears and prunes of a new table it holds at most 16,384
-- budgets, and a budget once at most.
pub Reach-IsBounded : {t : OffenderTable} → Reach t → IsBounded t
Reach-IsBounded start = (refl, record { bounded = omega arith; distinct = tt })
Reach-IsBounded (strikes {t} key part lim now r) =
    strike-IsBounded key part lim now t (Reach-IsBounded r)
Reach-IsBounded (clears {t} key r) = clear-IsBounded key t (Reach-IsBounded r)
Reach-IsBounded (prunes {t} now r) = prune-IsBounded now t (Reach-IsBounded r)

-- The counts of the parts.
abbrev pub sum_parts : List (String × ℕ) → ℕ
sum_parts [] = 0
sum_parts (p ∷ ps) = p.1 + sum_parts ps

-- The strikes that the rows of a budget show.
abbrev pub shown : List (OffenderKey × Offender) → ℕ
shown [] = 0
shown (e ∷ l) = e.1.count + shown l

sum-put :
    (part : String) (c : ℕ) (ps : List (String × ℕ))
    → sum_parts (put text_discrete part c ps) + count_of (find text_discrete part ps)
      ≡ sum_parts ps + c
unfolding put find
sum-put part c [] = omega arith
sum-put part c ((q, d) ∷ ps) = ground (arith, sum-put part c ps)

-- A strike under a named part keeps the parts' counts summing to the budget's.
count_strike-parts :
    (lim : StrikeLimit) (part : String) (o : Offender)
    → part ≢ ""
    → sum_parts o.parts ≡ o.count
    → sum_parts (count_strike lim part o).0.parts ≡ (count_strike lim part o).0.count
unfolding count_strike tally
count_strike-parts lim part o named h =
    ground (arith, sum-put part (count_of (find text_discrete part o.parts) + 1) o.parts)

shown-map :
    (key : OffenderKey) (o : Offender) (ps : List (String × ℕ))
    → shown (
        map
          (λ q.
            let k : OffenderKey = record key { reason = q.0 } in
            let r : Offender = record o { count = q.1; parts = [] } in (k, r))
          ps)
      ≡ sum_parts ps
shown-map key o [] = refl
shown-map key o (p ∷ ps) = ap (λ n. p.1 + n) (shown-map key o ps)

shown-rows :
    (key : OffenderKey) (o : Offender)
    → sum_parts o.parts ≡ o.count
    → shown (rows (key, o)) ≡ o.count
unfolding rows
shown-rows key o h = go o.parts refl
  where
    go : (ps : List (String × ℕ)) → o.parts ≡ ps → shown (rows (key, o)) ≡ o.count
    go [] e = rw (e, rows) (omega arith)
    go (p ∷ ps) e = rw (e, rows) (omega (arith, shown-map key o ps, ap sum_parts e))

-- The offender view adds up: where every strike of a budget names its part, as those of the admission
-- budget do, each strike leaves an entry whose parts sum to its count, and the rows that it is listed
-- by show exactly that many strikes.
pub strike-shown :
    (key : OffenderKey) (part : String) (lim : StrikeLimit) (now : ℕ) (t : OffenderTable)
    → part ≢ ""
    → ((o : Offender) → find OffenderKey-discrete key t.lru ≡ some o → sum_parts o.parts ≡ o.count)
    → (o' : Offender) × (find OffenderKey-discrete key (strike key part lim now t).0.lru ≡ some o')
      × (sum_parts o'.parts ≡ o'.count)
      × (shown (rows (key, o')) ≡ o'.count)
unfolding strike reopened
strike-shown key part lim now t named sums =
    elim (Option-cases (find OffenderKey-discrete key t.lru)) [
      | inl new ↦
          let o' = (count_strike lim part (fresh now)).0 in
          let s = count_strike-parts lim part (fresh now) named refl in
          rw (new, strike)
            (o', find-front_self OffenderKey-discrete key o' _, s, shown-rows key o' s)
      | inr (o, known) ↦
          let o' = (count_strike lim part (reopened now lim.window o)).0 in
          let s =
            count_strike-parts lim part (reopened now lim.window o) named
              (ground (arith, sums o known)) in
          rw (known, strike)
            (o', find-front_self OffenderKey-discrete key o' _, s, shown-rows key o' s)
    ]
