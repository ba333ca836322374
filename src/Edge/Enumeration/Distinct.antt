-- ===== src/Edge/Enumeration/Distinct.antt =====
-- When a source is cut off (internal/edge/admission.go).
use freesbc.Base.{
  ℕ, ◌+◌, ◌≤◌, ◌<◌, String, ◌≡◌, refl, ap, ◌⊎◌, inl, inr, none, some, List, [], ◌∷◌, ◌++◌, arith,
  leb, if◌then◌else◌, Bool-cases, length, All, length-append,
}
use freesbc.Base.Assoc.{find, remove, find-front_self}
use freesbc.Base.Lru.{evict}
use freesbc.Net.{Addr, Addr-discrete}
use freesbc.Edge.RegGuard.{enum_key}
use freesbc.Edge.Enumeration.{
  enum_window, enum_max_aors, EnumEntry, EnumLimiter, blocked, has_text, renewed, note_aor,
  rejected,
}

-- The different AoRs of a row of rejections, after the ones already seen.
unfoldable pub distinct_after : List String → List (String × ℕ) → List String
distinct_after seen [] = seen
distinct_after seen (r ∷ rs) =
    let known = distinct_after seen rs in
    let grown = distinct_after (seen ++ (r.0 ∷ [])) rs in if has_text r.0 seen then known else grown

-- A row of rejections of one source, each with its AoR and its instant.
unfoldable pub run : Addr → List (String × ℕ) → EnumLimiter → EnumLimiter
run ip [] l = l
run ip (r ∷ rs) l = run ip rs (rejected r.1 ip r.0 l).0

-- The entry stands for the AoRs seen: they are the same, or both are at the limit.
StandsFor : List String → List String → Type 0
StandsFor aors seen =
    (aors ≡ seen) ⊎ ((enum_max_aors ≤ length aors) × (enum_max_aors ≤ length seen))

StandsFor-leb :
    (aors seen : List String)
    → StandsFor aors seen
    → leb enum_max_aors (length aors) ≡ leb enum_max_aors (length seen)
unfolding StandsFor
StandsFor-leb aors seen (inl e) = rw e refl
StandsFor-leb aors seen (inr h) = ground (arith, h.0, h.1)

note_aor-StandsFor :
    (aor : String) (e : EnumEntry) (seen : List String)
    → StandsFor e.aors seen
    → StandsFor (note_aor aor e).0.aors (if has_text aor seen then seen else seen ++ (aor ∷ []))
unfolding note_aor StandsFor
note_aor-StandsFor aor e seen (inl eq) = elim (Bool-cases (leb enum_max_aors (length e.aors))) [
  | inl full ↦ inr (
    ground (arith, full),
    ground (arith, full, ap (λ l. length l) eq, length-append seen (aor ∷ [])),
  )
  | inr room ↦ elim (Bool-cases (has_text aor e.aors)) [
    | inl known ↦ inl (rw (room, known, rw eq at known) eq)
    | inr new ↦ inl (rw (room, new, rw eq at new) (ap (λ l. l ++ (aor ∷ [])) eq))
  ]
]
note_aor-StandsFor aor e seen (inr h) = inr (
  ground (arith, h.0, length-append e.aors (aor ∷ [])),
  ground (arith, h.1, length-append seen (aor ∷ [])),
)

-- One rejection of a source whose window is open.
rejected-StandsFor :
    (now start : ℕ) (ip : Addr) (aor : String) (l : EnumLimiter) (e : EnumEntry)
    (seen : List String)
    → find Addr-discrete (enum_key ip) l.entries ≡ some e
    → e.start ≡ start
    → now < start + enum_window
    → StandsFor e.aors seen
    → (e' : EnumEntry) × (find Addr-discrete (enum_key ip) (rejected now ip aor l).0.entries
        ≡ some e')
      × (e'.start ≡ start)
      × StandsFor e'.aors (if has_text aor seen then seen else seen ++ (aor ∷ []))
unfolding rejected renewed note_aor StandsFor
rejected-StandsFor now start ip aor l e seen known since before h =
    let e' = (note_aor aor e).0 in
    let same : renewed now e ≡ e = ground (arith, since, before) in
    (
      e',
      ground (
        arith,
        known,
        same,
        find-front_self Addr-discrete (enum_key ip) e'
            (remove Addr-discrete (enum_key ip) l.entries),
      ),
      ground (arith, since),
      note_aor-StandsFor aor e seen h,
    )

run-StandsFor :
    (start : ℕ) (ip : Addr) (rs : List (String × ℕ)) (l : EnumLimiter) (e : EnumEntry)
    (seen : List String)
    → find Addr-discrete (enum_key ip) l.entries ≡ some e
    → e.start ≡ start
    → All (λ r. r.1 < start + enum_window) rs
    → StandsFor e.aors seen
    → (e' : EnumEntry) × (find Addr-discrete (enum_key ip) (run ip rs l).entries ≡ some e')
      × (e'.start ≡ start)
      × StandsFor e'.aors (distinct_after seen rs)
unfolding run distinct_after
run-StandsFor start ip [] l e seen known since before h = (e, known, since, h)
run-StandsFor start ip (r ∷ rs) l e seen known since before h =
    let (e', known', since', h') =
      rejected-StandsFor r.1 start ip r.0 l e seen known since before.0 h in
    elim (Bool-cases (has_text r.0 seen)) [
      | inl old ↦ rw old (
          run-StandsFor start ip rs (rejected r.1 ip r.0 l).0 e' seen known' since' before.1
            (rw old at h'))
      | inr new ↦ rw new (
          run-StandsFor start ip rs (rejected r.1 ip r.0 l).0 e' (seen ++ (r.0 ∷ [])) known' since'
            before.1 (rw new at h'))
    ]

first_rejection :
    (start : ℕ) (ip : Addr) (aor : String) (l : EnumLimiter)
    → find Addr-discrete (enum_key ip) l.entries ≡ none
    → find Addr-discrete (enum_key ip) (rejected start ip aor l).0.entries
      ≡ some (record { start = start; aors = aor ∷ [] })
unfolding rejected note_aor has_text
first_rejection start ip aor l new = ground (
  arith,
  new,
  find-front_self Addr-discrete (enum_key ip) (record { start = start; aors = aor ∷ [] })
      (evict l.max_sources l.entries),
)

starts_same : (aors : List String) → StandsFor aors aors
unfolding StandsFor
starts_same aors = inl refl

-- A source is cut off exactly when ten different AoRs were rejected in its window: for a source with
-- no entry, after a first rejection at `start` and any more before the window of ten minutes has
-- passed, it is blocked at an instant of that window if and only if the AoRs rejected are at least
-- ten different ones.
pub blocked-distinct :
    (start now : ℕ) (ip : Addr) (aor : String) (rs : List (String × ℕ)) (l : EnumLimiter)
    → find Addr-discrete (enum_key ip) l.entries ≡ none
    → All (λ r. r.1 < start + enum_window) rs
    → now < start + enum_window
    → blocked now ip (run ip ((aor, start) ∷ rs) l)
      ≡ leb enum_max_aors (length (distinct_after [] ((aor, start) ∷ rs)))
unfolding run blocked distinct_after has_text
blocked-distinct start now ip aor rs l new before soon =
    let first : EnumEntry = record { start = start; aors = aor ∷ [] } in
    let l' = (rejected start ip aor l).0 in
    let (e, known, since, h) =
      run-StandsFor start ip rs l' first (aor ∷ []) (first_rejection start ip aor l new) refl before
        (starts_same (aor ∷ [])) in
    ground (arith, known, since, soon, StandsFor-leb e.aors (distinct_after (aor ∷ []) rs) h)
