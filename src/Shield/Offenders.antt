-- ===== src/Shield/Offenders.antt =====
-- The strike counters of internal/shield/offenders.go. The table's map and its LRU list hold the
-- same entries, and are one association list here, most recently struck first. Calls run under the
-- table's mutex; `now` is the instant that `t.now()` reads.
pub mod Window
pub mod Bounds
use freesbc.Base.{
  ℕ, zero, suc, ◌+◌, ◌-◌, ◌*◌, ◌/◌, ◌%◌, ◌^◌, ◌≤◌, ◌<◌, min, max, String, ◌≡◌, refl, sym, ap, ◌∙◌,
  ◌≢◌, ◌↔◌, ◌⊎◌, inl, inr, ite, if_pos, if_neg, Bool, true, false, not, ◌&&◌, ◌||◌, Option, none,
  some, List, [], ◌∷◌, ◌++◌, map, arith, ℕ_discrete, text_discrete, ltb, leb, ◌==◌, if◌then◌else◌,
  ltb→lt, lt→ltb, ltb_false→le, leb→le, leb_false→lt, le→leb, Bool-cases, Option-cases, false-true,
  length, drop_back, take, drop, keep, All, length-append, length-drop_back, length-drop_back-le,
  length-keep-le, length-take-le,
}
use freesbc.Base.Assoc.{
  find, remove, put, NoDup, find-remove, find-put, find-remove_self, find-remove_ne, find-put_self,
  find-put_ne, length-remove-le, length-remove_known, length-put_known, length-put_new,
  NoDup-remove, NoDup-put, passing, find-keep-none, find-keep, NoDup-keep, find-drop_back,
  find-drop_back-none, NoDup-drop_back, NoDup-touch, find-front_self, find-front_ne,
}
use freesbc.Base.Lru.{evict}
use freesbc.Net.{Addr, Addr-discrete}

-- `config.StrikeLimit`.
pub record StrikeLimit : Type 0 where
  pub n : ℕ
  pub window : ℕ
  pub off : Bool

abbrev pub offender_cap : ℕ
offender_cap = 16384

pub record OffenderKey : Type 0 where
  pub src : Addr
  pub reason : String

pub OffenderKey-discrete : Discrete OffenderKey
OffenderKey-discrete = hlevel (Addr-discrete, text_discrete)

-- `parts` is the source's map from a part of the budget to its count; a nil map is [].
pub record Offender : Type 0 where
  pub start : ℕ
  pub window : ℕ
  pub count : ℕ
  pub over : Bool
  pub parts : List (String × ℕ)

pub record OffenderTable : Type 0 where
  pub lru : List (OffenderKey × Offender)
  pub max : ℕ

abbrev pub new_offender_table : OffenderTable
new_offender_table = record { lru = []; max = offender_cap }

-- What a strike reports: the window's count, whether it is over the limit, and whether this strike
-- crossed it.
pub record Report : Type 0 where
  pub count : ℕ
  pub over : Bool
  pub crossed : Bool

abbrev pub fresh : ℕ → Offender
fresh now = record { start = now; window = 0; count = 0; over = false; parts = [] }

-- A known entry: its window is opened anew once it has passed.
unfoldable pub reopened : ℕ → ℕ → Offender → Offender
reopened now window o =
    if leb (o.start + window) now
    then record o { start = now; count = 0; over = false; parts = [] }
    else o

abbrev count_of : Option ℕ → ℕ
count_of none = 0
count_of (some c) = c

unfoldable pub tally : String → List (String × ℕ) → List (String × ℕ)
tally part parts =
    ite (text_discrete part "") parts
      (put text_discrete part (count_of (find text_discrete part parts) + 1) parts)

-- The end of `strike`, on the entry that it found or made.
unfoldable pub count_strike : StrikeLimit → String → Offender → Offender × Report
count_strike lim part o =
    let c = record o { window = lim.window; count = o.count + 1; parts = tally part o.parts } in
    if leb c.count lim.n
    then (c, record { count = c.count; over = false; crossed = false })
    else (record c { over = true }, record { count = c.count; over = true; crossed = not o.over })

unfoldable pub strike :
    OffenderKey → String → StrikeLimit → ℕ → OffenderTable → OffenderTable × Report
strike key part lim now t = elim (find OffenderKey-discrete key t.lru) [
  | some o ↦
      let (o', report) = count_strike lim part (reopened now lim.window o) in
      (record t { lru = (key, o') ∷ remove OffenderKey-discrete key t.lru }, report)
  | none ↦
      let (o', report) = count_strike lim part (fresh now) in
      (record t { lru = (key, o') ∷ evict t.max t.lru }, report)
]

-- `clear`: forgets the key's strikes.
unfoldable pub clear : OffenderKey → OffenderTable → OffenderTable
clear key t = record t { lru = remove OffenderKey-discrete key t.lru }

-- `prune`: drops the entries whose window has ended.
unfoldable pub prune : ℕ → OffenderTable → OffenderTable
prune now t = record t { lru = keep (λ e. ltb now (e.1.start + e.1.window)) t.lru }

-- The rows of one budget in `live`: one for each part it was struck under, or one in all.
unfoldable pub rows : OffenderKey × Offender → List (OffenderKey × Offender)
rows (key, o) = elim o.parts [
  | [] ↦ (key, o) ∷ []
  | p ∷ ps ↦ map (λ q. (record key { reason = q.0 }, record o { count = q.1; parts = [] })) (p ∷ ps)
]

unfoldable pub all_rows : List (OffenderKey × Offender) → List (OffenderKey × Offender)
all_rows [] = []
all_rows (e ∷ l) = rows e ++ all_rows l

-- `live`: the entries whose window is open, one row for each reason.
unfoldable pub live : ℕ → OffenderTable → List (OffenderKey × Offender)
unfolding rows all_rows
live now t = all_rows (keep (λ e. ltb now (e.1.start + e.1.window)) t.lru)

abbrev pub size : OffenderTable → ℕ
size t = length t.lru
