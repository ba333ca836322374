-- ===== src/Shield/BanList/Verdict.antt =====
-- What a ban promises its caller, and what expiry changes (internal/shield/banlist.go).
use freesbc.Base.{
  ℕ, ◌+◌, ◌≤◌, ◌<◌, ◌≡◌, ◌≢◌, ◌∙◌, refl, String, true, length, leb, keep, some, inl, inr, ite, max,
  arith, ltb, if◌then◌else◌, Bool-cases, Option-cases,
}
use freesbc.Base.Assoc.{
  find, put, NoDup, find-put, find-put_ne, NoDup-put, NoDup-keep, find-remove, find-keep,
  NoDup-remove,
}
use freesbc.Shield.BanList.{
  BanList, BanEntry, ban_cap, sweep_every, ban, banned, prune, sweep_due, make_room, extend, add,
  ban_at, is_live,
}

module _ {K : Type 0} (dec : Discrete K) where
  find-ban_at :
      (key : K) (t : ℕ) (b : BanList K) {e : BanEntry}
      → ban_at dec key t b ≡ some e
      → (find dec key b.until ≡ some e) × (t < e.until)
  unfolding ban_at
  find-ban_at key t b h = ground arith

  -- Dropping what has lapsed by `now` is invisible from `now` on.
  ban_at-prune :
      (key : K) (now t : ℕ) (b : BanList K)
      → NoDup dec b.until
      → now ≤ t
      → ban_at dec key t (prune now b) ≡ ban_at dec key t b
  unfolding ban_at prune
  ban_at-prune key now t b d h = ground (arith, find-keep dec (is_live now) key b.until d)

  find-make_room :
      (key : K) (now : ℕ) (b : BanList K) (e : BanEntry)
      → NoDup dec b.until
      → ban_at dec key now b ≡ some e
      → find dec key (make_room now b).until ≡ some e
  unfolding ban_at make_room sweep_due
  find-make_room key now b e d h = ground (arith, find-keep dec (is_live now) key b.until d)

  find-extend :
      (j key : K) (until : ℕ) (old : BanEntry) (b : BanList K)
      → find dec j (extend dec key until old b).until ≡ (
          if ltb old.until until
          then ite (dec j key) (some (record old { until = until })) (find dec j b.until)
          else find dec j b.until)
  unfolding extend
  find-extend j key until old b =
      ground (arith, find-put dec j key (record old { until = until }) b.until)

  find-add :
      (j key : K) (e : BanEntry) (b : BanList K)
      → find dec j (add dec key e b).0.until ≡ (
          if (add dec key e b).1
          then ite (dec j key) (some e) (find dec j b.until)
          else find dec j b.until)
  unfolding add
  find-add j key e b = ground (arith, find-put dec j key e b.until)

  -- A recorded ban holds until its duration has passed: after `ban` has returned true, the key is
  -- banned at every instant before now + dur.
  pub ban-banned :
      (key : K) (dur : ℕ) (reason : String) (now t : ℕ) (b : BanList K)
      → (ban dec key dur reason now b).1 ≡ true
      → t < now + dur
      → (banned dec key t (ban dec key dur reason now b).0).1 ≡ true
  unfolding ban banned
  ban-banned key dur reason now t b h lt = elim (Option-cases (find dec key b.until)) [
    | inl new ↦
        let e : BanEntry = record { until = now + dur; since = now; reason = reason } in
        ground (arith, new, find-add key key e (make_room now b))
    | inr (old, known) ↦ ground (arith, known, find-extend key key (now + dur) old b)
  ]

  -- A ban is never shortened: whatever key `ban` is called for, and whether or not it records it,
  -- a ban that has not lapsed by the call is still there with its start and its reason. Its expiry
  -- becomes the later of the two if it is the key's own, and stays if it is another's. The table holds
  -- no key twice.
  pub ban-keeps :
      (j key : K) (dur : ℕ) (reason : String) (now : ℕ) (b : BanList K) (e : BanEntry)
      → NoDup dec b.until
      → ban_at dec j now b ≡ some e
      → ban_at dec j now (ban dec key dur reason now b).0
        ≡ some (ite (dec j key) (record e { until = max e.until (now + dur) }) e)
  unfolding ban ban_at
  ban-keeps j key dur reason now b e d h = elim (Option-cases (find dec key b.until)) [
    | inl new ↦
        let e' : BanEntry = record { until = now + dur; since = now; reason = reason } in
        ground (
          arith,
          new,
          find-ban_at j now b h,
          find-add j key e' (make_room now b),
          find-make_room j now b e d h,
        )
    | inr (old, known) ↦
        ground (arith, known, find-ban_at j now b h, find-extend j key (now + dur) old b)
  ]

  -- Lazy expiry and pruning are invisible: after a look-up of any key, or after a prune, at one
  -- instant, the verdict on every key at that instant or later is what it was, in a table that holds no
  -- key twice.
  pub banned_invisible :
      (j key : K) (now t : ℕ) (b : BanList K)
      → NoDup dec b.until
      → now ≤ t
      → ((banned dec j t (banned dec key now b).0).1 ≡ (banned dec j t b).1)
        × ((banned dec j t (prune now b)).1 ≡ (banned dec j t b).1)
  unfolding banned prune
  banned_invisible j key now t b d h = (
    ground (arith, find-remove dec j key b.until),
    ground (arith, find-keep dec (is_live now) j b.until d),
  )

  pub banned-NoDup :
      (key : K) (now : ℕ) (b : BanList K)
      → NoDup dec b.until
      → NoDup dec (banned dec key now b).0.until
  unfolding banned
  banned-NoDup key now b d = elim (Option-cases (find dec key b.until)) [
    | inl new ↦ rw (new, banned) d
    | inr (e, known) ↦ elim (Bool-cases (ltb now e.until)) [
      | inl live ↦ rw (known, banned, live) d
      | inr lapsed ↦ rw (known, banned, lapsed) (NoDup-remove dec key b.until d)
    ]
  ]

  -- The verdict on a key is that of its entry.
  banned-find :
      (j : K) (t : ℕ) (b c : BanList K)
      → find dec j c.until ≡ find dec j b.until
      → (banned dec j t c).1 ≡ (banned dec j t b).1
  unfolding banned
  banned-find j t b c e = elim (Option-cases (find dec j b.until)) [
    | inl new ↦ ground (arith, e, new)
    | inr (x, known) ↦ ground (arith, e, known)
  ]

  make_room-banned :
      (j : K) (now t : ℕ) (b : BanList K)
      → NoDup dec b.until
      → now ≤ t
      → ((banned dec j t (make_room now b)).1 ≡ (banned dec j t b).1)
        × NoDup dec (make_room now b).until
  unfolding make_room sweep_due prune
  make_room-banned j now t b d le =
      let swept = (banned_invisible j j now t b d le).1 in
      let left = NoDup-keep dec (is_live now) b.until d in
      elim (Bool-cases (leb ban_cap (length b.until))) [
        | inr room ↦ rw room (refl, d)
        | inl full ↦ elim (Bool-cases (leb (b.last_sweep + sweep_every) now)) [
          | inr early ↦ rw (full, early) (refl, d)
          | inl due ↦
              rw (full, due)
                (
                  banned-find j t (prune now b)
                        (record b { until = keep (is_live now) b.until; last_sweep = now }) refl
                      ∙ swept,
                  left,
                )
        ]
      ]

  extend-elsewhere :
      (j key : K) (until : ℕ) (old : BanEntry) (t : ℕ) (b : BanList K)
      → NoDup dec b.until
      → j ≢ key
      → ((banned dec j t (extend dec key until old b)).1 ≡ (banned dec j t b).1)
        × NoDup dec (extend dec key until old b).until
  unfolding extend
  extend-elsewhere j key until old t b d ne =
      let e = record old { until = until } in
      elim (Bool-cases (ltb old.until until)) [
        | inr shorter ↦ rw shorter (refl, d)
        | inl longer ↦ rw longer (
          banned-find j t b (record b { until = put dec key e b.until })
              (find-put_ne dec j key e b.until ne),
          NoDup-put dec key e b.until d,
        )
      ]

  add-elsewhere :
      (j key : K) (e : BanEntry) (t : ℕ) (b : BanList K)
      → NoDup dec b.until
      → j ≢ key
      → ((banned dec j t (add dec key e b).0).1 ≡ (banned dec j t b).1)
        × NoDup dec (add dec key e b).0.until
  unfolding add
  add-elsewhere j key e t b d ne = elim (Bool-cases (leb ban_cap (length b.until))) [
    | inl full ↦ rw full (banned-find j t b (record b { overflow = b.overflow + 1 }) refl, d)
    | inr room ↦ rw room (
      banned-find j t b (record b { until = put dec key e b.until })
          (find-put_ne dec j key e b.until ne),
      NoDup-put dec key e b.until d,
    )
  ]

  -- A ban of one key does not change the verdict on another, at that instant or later.
  pub ban-elsewhere :
      (j key : K) (dur : ℕ) (reason : String) (now t : ℕ) (b : BanList K)
      → NoDup dec b.until
      → j ≢ key
      → now ≤ t
      → ((banned dec j t (ban dec key dur reason now b).0).1 ≡ (banned dec j t b).1)
        × NoDup dec (ban dec key dur reason now b).0.until
  unfolding ban
  ban-elsewhere j key dur reason now t b d ne le = elim (Option-cases (find dec key b.until)) [
    | inr (old, known) ↦ rw (known, ban) (extend-elsewhere j key (now + dur) old t b d ne)
    | inl new ↦
        let (same, left) = make_room-banned j now t b d le in
        let e : BanEntry = record { until = now + dur; since = now; reason = reason } in
        let (added, all) = add-elsewhere j key e t (make_room now b) left ne in
        rw (new, ban) (added ∙ same, all)
  ]
