-- ===== src/Shield/Aors.antt =====
-- The per-AoR REGISTER strikes of internal/shield/aorstrikes.go. The map and its LRU list are one
-- association list, most recently struck first. An AoR is its bytes. Calls run under the table's
-- mutex; `now` is the instant that `t.now()` reads, and 0 is the zero time.
pub mod Lock
pub mod Bounds
use freesbc.Base.{
  ℕ, zero, suc, ◌+◌, ◌-◌, ◌*◌, ◌/◌, ◌%◌, ◌^◌, ◌≤◌, ◌<◌, min, max, String, ◌≡◌, refl, sym, ap, ◌∙◌,
  ◌≢◌, ◌↔◌, ◌⊎◌, inl, inr, ite, if_pos, if_neg, Bool, true, false, not, ◌&&◌, ◌||◌, Option, none,
  some, List, [], ◌∷◌, ◌++◌, map, arith, ℕ_discrete, text_discrete, ltb, leb, ◌==◌, if◌then◌else◌,
  ltb→lt, lt→ltb, ltb_false→le, leb→le, leb_false→lt, le→leb, Bool-cases, Option-cases, false-true,
  length, drop_back, take, drop, keep, All, length-append, length-drop_back, length-drop_back-le,
  length-keep-le, length-take-le,
}
use freesbc.Base.Assoc.{
  find, remove, put, NoDup, find-remove, find-put, find-remove_self, find-remove_ne, find-put_self,
  find-put_ne, length-remove-le, length-remove_known, length-put_known, length-put_new,
  NoDup-remove, NoDup-put, passing, find-keep-none, find-keep, NoDup-keep, find-drop_back,
  find-drop_back-none, NoDup-drop_back, NoDup-touch, find-front_self, find-front_ne,
}
use freesbc.Base.Lru.{
  evict, length-evict, IsLru, IsLru-touch, IsLru-push, find-push_ne, find-touch_ne,
}
use mathlib.Core.List.{reverse}
use freesbc.Shield.Offenders.{StrikeLimit, Report}

abbrev pub aor_cap : ℕ
aor_cap = 16384

abbrev pub aor_evict_scan : ℕ
aor_evict_scan = 64

abbrev pub aor_key_max : ℕ
aor_key_max = 384

pub Bytes-discrete : Discrete (List ℕ)
Bytes-discrete = hlevel ℕ_discrete

pub record AorEntry : Type 0 where
  pub start : ℕ
  pub window : ℕ
  pub count : ℕ
  pub locked : ℕ

pub record AorTable : Type 0 where
  pub lru : List (List ℕ × AorEntry)
  pub max : ℕ

abbrev pub new_aor_table : AorTable
new_aor_table = record { lru = []; max = aor_cap }

-- `aorKey`: a longer AoR is cut.
unfoldable pub aor_key : List ℕ → List ℕ
aor_key aor = if ltb aor_key_max (length aor) then take aor_key_max aor else aor

-- `!e.locked.IsZero() && now.Before(e.locked)`.
abbrev pub holds_lock : ℕ → AorEntry → Bool
holds_lock now e = not (e.locked == 0) && ltb now e.locked

-- The scan of `evictable`, from the back: the first entry of `rounds` that holds no lock.
unfoldable pub scan_unlocked : ℕ → ℕ → List (List ℕ × AorEntry) → Option (List ℕ)
scan_unlocked now zero l = none
scan_unlocked now (suc rounds) [] = none
scan_unlocked now (suc rounds) ((k, e) ∷ l) =
    let rest = scan_unlocked now rounds l in if holds_lock now e then rest else some k

abbrev pub first_key : List (List ℕ × AorEntry) → Option (List ℕ)
first_key [] = none
first_key ((k, e) ∷ l) = some k

-- `evictable`: the least recently struck entry that is not locked, among the last 64, else the back
-- entry.
unfoldable pub evictable : ℕ → List (List ℕ × AorEntry) → Option (List ℕ)
evictable now l = elim (scan_unlocked now aor_evict_scan (reverse l)) [
  | some k ↦ some k
  | none ↦ first_key (reverse l)
]

-- The list that a new entry is pushed on.
unfoldable pub make_room : ℕ → AorTable → List (List ℕ × AorEntry)
make_room now t =
    if leb t.max (length t.lru)
    then elim (evictable now t.lru) [ some k ↦ remove Bytes-discrete k t.lru | none ↦ t.lru ]
    else t.lru

-- A known entry: opened anew once its window, or its lock, has passed.
unfoldable pub reopened : ℕ → ℕ → AorEntry → AorEntry
reopened now window e =
    if e.locked == 0 && leb (e.start + window) now
    then record e { start = now; count = 0 }
    else if not (e.locked == 0) && leb e.locked now
    then record e { start = now; count = 0; locked = 0 }
    else e

-- The end of `strike`: what is reported is the count, whether the AoR is locked, and whether this
-- strike opened the lock.
unfoldable pub count_strike : StrikeLimit → ℕ → ℕ → AorEntry → AorEntry × Report
count_strike lim ban now e =
    let c = record e { window = lim.window; count = e.count + 1 } in
    if not (c.locked == 0)
    then (c, record { count = c.count; over = true; crossed = false })
    else if ltb lim.n c.count
    then (record c { locked = now + ban }, record { count = c.count; over = true; crossed = true })
    else (c, record { count = c.count; over = false; crossed = false })

abbrev pub fresh : ℕ → AorEntry
fresh now = record { start = now; window = 0; count = 0; locked = 0 }

unfoldable pub strike : List ℕ → StrikeLimit → ℕ → ℕ → AorTable → AorTable × Report
strike aor lim ban now t = elim (find Bytes-discrete (aor_key aor) t.lru) [
  | some e ↦
      let (e', report) = count_strike lim ban now (reopened now lim.window e) in
      (record t { lru = (aor_key aor, e') ∷ remove Bytes-discrete (aor_key aor) t.lru }, report)
  | none ↦
      let (e', report) = count_strike lim ban now (fresh now) in
      (record t { lru = (aor_key aor, e') ∷ make_room now t }, report)
]

unfoldable pub is_locked : List ℕ → ℕ → AorTable → Bool
is_locked aor now t = elim (find Bytes-discrete (aor_key aor) t.lru) [
  | none ↦ false
  | some e ↦ holds_lock now e
]

unfoldable pub clear : List ℕ → AorTable → AorTable
clear aor t = record t { lru = remove Bytes-discrete (aor_key aor) t.lru }

-- `expired`: the entry no longer matters.
abbrev pub expired : ℕ → AorEntry → Bool
expired now e = if e.locked == 0 then leb (e.start + e.window) now else leb e.locked now

unfoldable pub prune : ℕ → AorTable → AorTable
prune now t = record t { lru = keep (λ e. not (expired now e.1)) t.lru }

-- `live`: the entries still counting or locked.
unfoldable pub live : ℕ → AorTable → List (List ℕ × AorEntry)
live now t = keep (λ e. not (expired now e.1)) t.lru

abbrev pub size : AorTable → ℕ
size t = length t.lru
