-- ===== src/Shield/BanList/Bounds.antt =====
-- The cap of the ban table, and when it refuses
-- (internal/shield/banlist.go).
use freesbc.Base.{
  ℕ, ◌+◌, ◌≤◌, ◌<◌, String, ◌≡◌, ◌⊎◌, ◌↔◌, inl, inr, true, false, none, some, arith, ltb, leb,
  if◌then◌else◌, leb_false→lt, Bool-cases, Option-cases, length, length-keep-le,
}
use freesbc.Base.Assoc.{
  find, length-remove-le, length-put_known, length-put_new, NoDup-put, find-keep-none, NoDup-keep,
}
use freesbc.Shield.BanList.{
  BanList, BanEntry, IsValid, ban, banned, prune, sweep_due, make_room, extend, add, is_live,
  ban_cap, sweep_every, new_ban_table, size, live_count,
}
use freesbc.Shield.BanList.Verdict.{banned-NoDup}

module _ {K : Type 0} (dec : Discrete K) where
  prune-IsValid : (now : ℕ) (b : BanList K) → IsValid dec b → IsValid dec (prune now b)
  unfolding prune
  prune-IsValid now b v = record {
    bounded = omega (arith, length-keep-le (is_live now) b.until, v.bounded);
    distinct = NoDup-keep dec (is_live now) b.until v.distinct;
  }

  make_room-IsValid : (now : ℕ) (b : BanList K) → IsValid dec b → IsValid dec (make_room now b)
  unfolding make_room sweep_due
  make_room-IsValid now b v = elim (Bool-cases (leb ban_cap (length b.until))) [
    | inl full ↦ elim (Bool-cases (leb (b.last_sweep + sweep_every) now)) [
      | inl due ↦
          rw (full, due)
            (record {
              bounded = omega (arith, length-keep-le (is_live now) b.until, v.bounded);
              distinct = NoDup-keep dec (is_live now) b.until v.distinct;
            })
      | inr early ↦ rw (full, early) v
    ]
    | inr room ↦ rw room v
  ]

  extend-IsValid :
      (key : K) (until : ℕ) (old : BanEntry) (b : BanList K)
      → find dec key b.until ≡ some old
      → IsValid dec b
      → IsValid dec (extend dec key until old b)
  unfolding extend
  extend-IsValid key until old b known v = elim (Bool-cases (ltb old.until until)) [
    | inl later ↦
        let e : BanEntry = record old { until = until } in
        rw later (record {
          bounded = omega (arith, length-put_known dec key e b.until old known, v.bounded);
          distinct = NoDup-put dec key e b.until v.distinct;
        })
    | inr sooner ↦ rw sooner v
  ]

  add-IsValid :
      (key : K) (e : BanEntry) (b : BanList K)
      → find dec key b.until ≡ none
      → IsValid dec b
      → IsValid dec (add dec key e b).0
  unfolding add
  add-IsValid key e b new v = elim (Bool-cases (leb ban_cap (length b.until))) [
    | inl full ↦ rw full (record { bounded = v.bounded; distinct = v.distinct })
    | inr room ↦ rw room (record {
      bounded = omega (arith, length-put_new dec key e b.until new, leb_false→lt _ _ room);
      distinct = NoDup-put dec key e b.until v.distinct;
    })
  ]

  make_room-none :
      (key : K) (now : ℕ) (b : BanList K)
      → find dec key b.until ≡ none
      → find dec key (make_room now b).until ≡ none
  unfolding make_room sweep_due
  make_room-none key now b new = ground (arith, new, find-keep-none dec (is_live now) key b.until)

  ban-IsValid :
      (key : K) (dur : ℕ) (reason : String) (now : ℕ) (b : BanList K)
      → IsValid dec b
      → IsValid dec (ban dec key dur reason now b).0
  unfolding ban
  ban-IsValid key dur reason now b v = elim (Option-cases (find dec key b.until)) [
    | inl new ↦
        rw (new, ban)
          (add-IsValid key _ (make_room now b) (make_room-none key now b new)
            (make_room-IsValid now b v))
    | inr (old, known) ↦ rw (known, ban) (extend-IsValid key (now + dur) old b known v)
  ]

  banned-IsValid :
      (key : K) (now : ℕ) (b : BanList K) → IsValid dec b → IsValid dec (banned dec key now b).0
  unfolding banned
  banned-IsValid key now b v = record {
    bounded = ground (arith, length-remove-le dec key b.until, v.bounded);
    distinct = banned-NoDup dec key now b v.distinct;
  }

  -- What the shield and its prune loop do to a table.
  pub data Step (b : BanList K) : BanList K → Type 0 where
    bans : (key : K) (dur : ℕ) (reason : String) (now : ℕ) → Step b (ban dec key dur reason now b).0
    asks : (key : K) (now : ℕ) → Step b (banned dec key now b).0
    prunes : (now : ℕ) → Step b (prune now b)

  pub data Reach : BanList K → Type 0 where
    start : Reach new_ban_table
    next : {b c : BanList K} → Reach b → Step b c → Reach c

  Step-IsValid : {b c : BanList K} → Step b c → IsValid dec b → IsValid dec c
  Step-IsValid {b} (bans key dur reason now) v = ban-IsValid key dur reason now b v
  Step-IsValid {b} (asks key now) v = banned-IsValid key now b v
  Step-IsValid {b} (prunes now) v = prune-IsValid now b v

  -- The table is bounded: a table that any calls of `ban`, `banned` and `prune`, at any instants,
  -- have made from a new one tracks at most 65,536 keys, and none of them twice.
  pub Reach-IsValid : {b : BanList K} → Reach b → IsValid dec b
  unfolding new_ban_table
  Reach-IsValid start = record { bounded = omega arith; distinct = tt }
  Reach-IsValid (next r s) = Step-IsValid s (Reach-IsValid r)

  -- A call of `ban` refuses exactly when the key is untracked, the table is at its cap, and a sweep
  -- would not help: the last one is less than a second old, or as many bans as the cap are still
  -- live. It then counts one refusal, and otherwise none.
  pub ban_refused_iff :
      (key : K) (dur : ℕ) (reason : String) (now : ℕ) (b : BanList K)
      → (((ban dec key dur reason now b).1 ≡ false) ↔ (
          (find dec key b.until ≡ none)
          × (ban_cap ≤ size b)
          × ((now < b.last_sweep + sweep_every) ⊎ (ban_cap ≤ live_count now b))))
        × ((ban dec key dur reason now b).0.overflow
            ≡ b.overflow + (if (ban dec key dur reason now b).1 then 0 else 1))
  unfolding ban add extend make_room sweep_due
  ban_refused_iff key dur reason now b =
      ((λ h. (ground arith, ground arith, why h), back), ground arith)
    where
      why :
          (ban dec key dur reason now b).1 ≡ false
          → (now < b.last_sweep + sweep_every) ⊎ (ban_cap ≤ live_count now b)
      why h = elim (Bool-cases (leb (b.last_sweep + sweep_every) now)) [
        | inl due ↦ inr (ground (arith, due, h))
        | inr early ↦ inl (leb_false→lt _ _ early)
      ]

      back :
          (find dec key b.until ≡ none)
            × (ban_cap ≤ size b)
            × ((now < b.last_sweep + sweep_every) ⊎ (ban_cap ≤ live_count now b))
          → (ban dec key dur reason now b).1 ≡ false
      back (new, full, inl early) = ground (arith, new, full, early)
      back (new, full, inr crowded) = ground (arith, new, full, crowded)

  -- A sweep that is due makes room: if fewer bans than the cap are live, and the last sweep is a
  -- second old, `ban` records the ban of any key.
  pub ban_admits :
      (key : K) (dur : ℕ) (reason : String) (now : ℕ) (b : BanList K)
      → b.last_sweep + sweep_every ≤ now
      → live_count now b < ban_cap
      → (ban dec key dur reason now b).1 ≡ true
  unfolding ban add make_room sweep_due
  ban_admits key dur reason now b due few = ground arith
