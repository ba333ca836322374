-- ===== src/Shield/BanList.antt =====
-- The ban tables of internal/shield/banlist.go. `banList` is generic in its key: the shield keeps
-- one of addresses, one of UDP sockets and one of addresses banned on UDP only.
-- Instants are nanoseconds since the zero `time.Time`, so 0 is the zero time; durations are
-- nanoseconds. A method runs under its table's mutex and is one function of the table; the readings
-- of the clock within one call are one instant, `now`.
pub mod Verdict
pub mod Bounds
use freesbc.Base.{
  ℕ, ◌+◌, ◌≤◌, String, Bool, true, false, Option, none, some, List, [], ◌∷◌, leb, ltb, length, keep,
  if◌then◌else◌,
}
use freesbc.Base.Assoc.{find, remove, put, NoDup}

-- 65,536 distinct banned sources.
abbrev pub ban_cap : ℕ
ban_cap = 65536

-- One second.
abbrev pub sweep_every : ℕ
sweep_every = 1000000000

pub record BanEntry : Type 0 where
  pub until : ℕ
  pub since : ℕ
  pub reason : String

pub record BanList (K : Type 0) : Type 0 where
  pub until : List (K × BanEntry)
  pub last_sweep : ℕ
  pub overflow : ℕ

unfoldable pub new_ban_table : {K : Type 0} → BanList K
new_ban_table = record { until = []; last_sweep = 0; overflow = 0 }

-- `now.Before(e.until)`: the ban has not lapsed.
abbrev pub is_live : {K : Type 0} → ℕ → K × BanEntry → Bool
is_live now e = ltb now e.1.until

module _ {K : Type 0} where
  -- `prune`: drops the expired entries.
  unfoldable pub prune : ℕ → BanList K → BanList K
  prune now b = record b { until = keep (is_live now) b.until }

  -- The sweep of `ban` at the cap: at most one per `sweep_every`.
  unfoldable pub sweep_due : ℕ → BanList K → BanList K
  sweep_due now b =
      if leb (b.last_sweep + sweep_every) now
      then record b { until = keep (is_live now) b.until; last_sweep = now }
      else b

  -- The table that `ban` adds an unknown key to: a full one is swept first.
  unfoldable pub make_room : ℕ → BanList K → BanList K
  make_room now b = if leb ban_cap (length b.until) then sweep_due now b else b

  -- `size`: the tracked entries, lapsed ones included.
  abbrev pub size : BanList K → ℕ
  size b = length b.until

  -- `liveCount`: the unexpired entries.
  abbrev pub live_count : ℕ → BanList K → ℕ
  live_count now b = length (keep (is_live now) b.until)

  -- `live`: the unexpired entries, copied out.
  abbrev pub live : ℕ → BanList K → List (K × BanEntry)
  live now b = keep (is_live now) b.until

  -- `overflowed`.
  abbrev pub overflowed : BanList K → ℕ
  overflowed b = b.overflow

module _ {K : Type 0} (dec : Discrete K) where
  -- A known key: the later expiry wins, and start and reason stay.
  unfoldable pub extend : K → ℕ → BanEntry → BanList K → BanList K
  extend key until old b =
      if ltb old.until until
      then record b { until = put dec key (record old { until = until }) b.until }
      else b

  -- An unknown key: refused, and counted, if the table is still full.
  unfoldable pub add : K → BanEntry → BanList K → BanList K × Bool
  add key e b =
      if leb ban_cap (length b.until)
      then (record b { overflow = b.overflow + 1 }, false)
      else (record b { until = put dec key e b.until }, true)

  -- `ban`: blocks key for dur, and reports whether the ban was recorded.
  unfoldable pub ban : K → ℕ → String → ℕ → BanList K → BanList K × Bool
  ban key dur reason now b = elim (find dec key b.until) [
    | some old ↦ (extend key (now + dur) old b, true)
    | none ↦ add key (record { until = now + dur; since = now; reason = reason }) (make_room now b)
  ]

  -- `banned`, with its lazy expiry.
  unfoldable pub banned : K → ℕ → BanList K → BanList K × Bool
  banned key now b = elim (find dec key b.until) [
    | none ↦ (b, false)
    | some e ↦
        if ltb now e.until then (b, true) else (record b { until = remove dec key b.until }, false)
  ]

  -- What every reachable table satisfies.
  pub record IsValid (b : BanList K) : Type 0 where
    pub bounded : size b ≤ ban_cap
    pub distinct : NoDup dec b.until

  -- The ban of a key, as a caller sees it at an instant: an entry that has not lapsed.
  unfoldable pub ban_at : K → ℕ → BanList K → Option BanEntry
  ban_at key t b = elim (find dec key b.until) [
    | none ↦ none
    | some e ↦ if ltb t e.until then some e else none
  ]
