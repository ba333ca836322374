-- ===== src/Shield/Aors/Bounds.antt =====
-- The bound of the AoR table, and what its eviction spares (internal/shield/aorstrikes.go).
use freesbc.Base.{
  ℕ, zero, suc, ◌≤◌, ◌<◌, ◌≡◌, refl, sym, ◌∙◌, ◌≢◌, inl, inr, true, false, none, some, List, [],
  ◌∷◌, ◌++◌, arith, leb, leb→le, leb_false→lt, Bool-cases, Option-cases, false-true, length,
  length-keep-le,
}
use freesbc.Base.Assoc.{
  find, NoDup, find-remove, find-remove_ne, length-remove-le, length-remove_known, NoDup-remove,
  NoDup-keep, find-front_ne,
}
use freesbc.Base.Lru.{IsLru, IsLru-touch, find-touch_ne}
use mathlib.Core.List.{reverse, reverse-cons}
use mathlib.Core.Path.{subst}
use freesbc.Base.Member.{Has, Has-reverse, find_of_Has}
use freesbc.Shield.Offenders.{StrikeLimit}
use freesbc.Shield.Aors.{
  AorEntry, AorTable, Bytes-discrete, aor_key, holds_lock, scan_unlocked, evictable, make_room,
  reopened, count_strike, fresh, strike, is_locked, clear, prune, aor_evict_scan, first_key,
  new_aor_table, aor_cap,
}

-- The scan stops at an entry that holds no lock.
scan_unlocked-Has :
    (now rounds : ℕ) (l : List (List ℕ × AorEntry)) {k : List ℕ}
    → scan_unlocked now rounds l ≡ some k
    → (e : AorEntry) × Has k e l × (holds_lock now e ≡ false)
unfolding scan_unlocked
scan_unlocked-Has now zero l h = cc
scan_unlocked-Has now (suc rounds) [] h = cc
scan_unlocked-Has now (suc rounds) ((j, e) ∷ l) h = elim (Bool-cases (holds_lock now e)) [
  | inl lock ↦
      let (e', m, free) = scan_unlocked-Has now rounds l (rw lock at h) in (e', inr m, free)
  | inr free ↦ (e, inl (ground (arith, free), refl), free)
]

first_key-Has :
    (l : List (List ℕ × AorEntry)) {k : List ℕ} → first_key l ≡ some k → (e : AorEntry) × Has k e l
first_key-Has [] h = cc
first_key-Has ((j, e) ∷ l) h = (e, inl (cc, refl))

module _ (now : ℕ) (t : AorTable) (distinct : NoDup Bytes-discrete t.lru) where
  -- The victim is an entry of the table.
  evictable-Has :
      {k : List ℕ}
      → evictable now t.lru ≡ some k
      → (e : AorEntry) × (find Bytes-discrete k t.lru ≡ some e)
  unfolding evictable
  evictable-Has {k} h = elim (Option-cases (scan_unlocked now aor_evict_scan (reverse t.lru))) [
    | inl none_free ↦
        let (e, m) = first_key-Has (reverse t.lru) (rw (none_free, evictable) at h) in
        (e, find_of_Has Bytes-discrete k e t.lru distinct (Has-reverse k e t.lru m))
    | inr (j, free) ↦
        let same : j ≡ k = ground (arith, free) in
        let (e, m, unlocked) = scan_unlocked-Has now aor_evict_scan (reverse t.lru) free in
        (
          e,
          find_of_Has Bytes-discrete k e t.lru distinct
              (Has-reverse k e t.lru (subst (λ i. Has i e (reverse t.lru)) same m)),
        )
  ]

  -- A victim that the scan found holds no lock.
  scanned_free :
      {k : List ℕ} (e : AorEntry)
      → scan_unlocked now aor_evict_scan (reverse t.lru) ≡ some k
      → find Bytes-discrete k t.lru ≡ some e
      → holds_lock now e ≡ false
  scanned_free {k} e free known =
      let (e', m, unlocked) = scan_unlocked-Has now aor_evict_scan (reverse t.lru) free in
      let same = find_of_Has Bytes-discrete k e' t.lru distinct (Has-reverse k e' t.lru m) in
      let eq : e' ≡ e = cc (same, known) in subst (λ x. holds_lock now x ≡ false) eq unlocked

first_key-snoc :
    (l : List (List ℕ × AorEntry)) (x : List ℕ × AorEntry) → first_key (l ++ x ∷ []) ≢ none
first_key-snoc [] (k, e) h = cc
first_key-snoc ((k, e) ∷ l) x h = cc

-- A table with an entry has a victim.
evictable-ne-none :
    (now : ℕ) (x : List ℕ × AorEntry) (l : List (List ℕ × AorEntry)) → evictable now (x ∷ l) ≢ none
unfolding evictable
evictable-ne-none now x l h =
    elim (Option-cases (scan_unlocked now aor_evict_scan (reverse (x ∷ l)))) [
      | inl none_free ↦ first_key-snoc (reverse l) x (rw (none_free, evictable, reverse-cons) at h)
      | inr (j, free) ↦ ground (arith, free)
    ]

abbrev pub IsWithinCap : AorTable → Type 0
IsWithinCap t = (t.max ≡ aor_cap) × IsLru Bytes-discrete t.max t.lru

make_room-lt : (now : ℕ) (t : AorTable) → IsWithinCap t → length (make_room now t) < t.max
unfolding make_room
make_room-lt now t (cap, h) = elim (Bool-cases (leb t.max (length t.lru))) [
  | inr room ↦ rw room (leb_false→lt _ _ room)
  | inl full ↦ elim (Option-cases (evictable now t.lru)) [
    | inl no_victim ↦ absurd (nonempty t.lru no_victim (leb→le _ _ full))
    | inr (k, victim) ↦
        let (e, known) = evictable-Has now t h.distinct victim in
        rw (full, victim)
          (omega (arith, length-remove_known Bytes-discrete k t.lru e known, h.bounded))
  ]
]
  where
    nonempty : (l : List (List ℕ × AorEntry)) → evictable now l ≡ none → t.max ≤ length l → ⊥
    nonempty [] none_left full = omega arith
    nonempty (x ∷ l) none_left full = evictable-ne-none now x l none_left

make_room-NoDup :
    (now : ℕ) (t : AorTable) → NoDup Bytes-discrete t.lru → NoDup Bytes-discrete (make_room now t)
unfolding make_room
make_room-NoDup now t h = elim (Bool-cases (leb t.max (length t.lru))) [
  | inr room ↦ rw room h
  | inl full ↦ elim (Option-cases (evictable now t.lru)) [
    | inl no_victim ↦ rw (full, no_victim) h
    | inr (k, victim) ↦ rw (full, victim) (NoDup-remove Bytes-discrete k t.lru h)
  ]
]

make_room-none :
    (now : ℕ) (t : AorTable) (key : List ℕ)
    → find Bytes-discrete key t.lru ≡ none
    → find Bytes-discrete key (make_room now t) ≡ none
unfolding make_room
make_room-none now t key new = elim (Option-cases (evictable now t.lru)) [
  | inl no_victim ↦ ground (arith, no_victim)
  | inr (k, victim) ↦ ground (arith, victim, find-remove Bytes-discrete key k t.lru)
]

strike-IsWithinCap :
    (aor : List ℕ) (lim : StrikeLimit) (ban now : ℕ) (t : AorTable)
    → IsWithinCap t
    → IsWithinCap (strike aor lim ban now t).0
unfolding strike
strike-IsWithinCap aor lim ban now t (cap, h) =
    elim (Option-cases (find Bytes-discrete (aor_key aor) t.lru)) [
      | inl new ↦
          rw (new, strike)
            (
              cap,
              record {
                bounded = omega (arith, make_room-lt now t (cap, h));
                distinct =
                    (make_room-none now t (aor_key aor) new, make_room-NoDup now t h.distinct);
              },
            )
      | inr (e, known) ↦
          rw (known, strike) (cap, IsLru-touch Bytes-discrete t.max (aor_key aor) _ e t.lru known h)
    ]

clear-IsWithinCap : (aor : List ℕ) (t : AorTable) → IsWithinCap t → IsWithinCap (clear aor t)
unfolding clear
clear-IsWithinCap aor t (cap, h) = (
  cap,
  record {
    bounded = omega (arith, length-remove-le Bytes-discrete (aor_key aor) t.lru, h.bounded);
    distinct = NoDup-remove Bytes-discrete (aor_key aor) t.lru h.distinct;
  },
)

prune-IsWithinCap : (now : ℕ) (t : AorTable) → IsWithinCap t → IsWithinCap (prune now t)
unfolding prune
prune-IsWithinCap now t (cap, h) = (
  cap,
  record {
    bounded = omega (arith, length-keep-le {0} _ t.lru, h.bounded);
    distinct = NoDup-keep Bytes-discrete _ t.lru h.distinct;
  },
)

pub data Reach : AorTable → Type 0 where
  start : Reach new_aor_table
  strikes :
      {t : AorTable} (aor : List ℕ) (lim : StrikeLimit) (ban now : ℕ)
      → Reach t
      → Reach (strike aor lim ban now t).0
  clears : {t : AorTable} (aor : List ℕ) → Reach t → Reach (clear aor t)
  prunes : {t : AorTable} (now : ℕ) → Reach t → Reach (prune now t)

-- The table is bounded: after any strikes, clears and prunes of a new table it holds at most 16,384
-- AoRs, and an AoR once at most. The scan of a full table always finds a victim that is in it.
pub Reach-IsWithinCap : {t : AorTable} → Reach t → IsWithinCap t
Reach-IsWithinCap start = (refl, record { bounded = omega arith; distinct = tt })
Reach-IsWithinCap (strikes {t} aor lim ban now r) =
    strike-IsWithinCap aor lim ban now t (Reach-IsWithinCap r)
Reach-IsWithinCap (clears {t} aor r) = clear-IsWithinCap aor t (Reach-IsWithinCap r)
Reach-IsWithinCap (prunes {t} now r) = prune-IsWithinCap now t (Reach-IsWithinCap r)

make_room-spares :
    (now : ℕ) (t : AorTable) (key k : List ℕ) (e : AorEntry)
    → NoDup Bytes-discrete t.lru
    → scan_unlocked now aor_evict_scan (reverse t.lru) ≡ some k
    → find Bytes-discrete key t.lru ≡ some e
    → holds_lock now e ≡ true
    → find Bytes-discrete key (make_room now t) ≡ some e
unfolding make_room evictable
make_room-spares now t key k e distinct free known lock =
    let unlocked : key ≡ k → ⊥ = λ same. false-true (
      sym (
        scanned_free now t distinct e free
          (subst (λ i. find Bytes-discrete i t.lru ≡ some e) same known))
      ∙ lock) in
    ground (arith, free, known, find-remove_ne Bytes-discrete key k t.lru unlocked)

-- A flood of other AoRs spares a lock while one of the 64 least recently struck AoRs is unlocked: a
-- strike of another AoR leaves a locked one locked, in a table that holds no AoR twice.
pub strike-spares :
    (j aor : List ℕ) (lim : StrikeLimit) (ban now : ℕ) (t : AorTable) {k : List ℕ}
    → NoDup Bytes-discrete t.lru
    → aor_key j ≢ aor_key aor
    → scan_unlocked now aor_evict_scan (reverse t.lru) ≡ some k
    → is_locked j now t ≡ true
    → is_locked j now (strike aor lim ban now t).0 ≡ true
unfolding strike is_locked
strike-spares j aor lim ban now t {k} distinct other free lock =
    elim (Option-cases (find Bytes-discrete (aor_key j) t.lru)) [
      | inl absent ↦ ground (arith, absent)
      | inr (e, known) ↦ elim (Option-cases (find Bytes-discrete (aor_key aor) t.lru)) [
        | inl new ↦ ground (
          arith,
          new,
          known,
          make_room-spares now t (aor_key j) k e distinct free known (ground arith),
          find-front_ne Bytes-discrete (aor_key j) (aor_key aor)
              (count_strike lim ban now (fresh now)).0 (make_room now t) other,
        )
        | inr (e', old) ↦ ground (
          arith,
          old,
          known,
          find-touch_ne Bytes-discrete (aor_key j) (aor_key aor)
              (count_strike lim ban now (reopened now lim.window e')).0 t.lru other,
        )
      ]
    ]
