-- ===== src/Admin/Sessions.antt =====
-- The admin login sessions: internal/admin/session.go. The random session identifier and its SHA-256
-- are parameters. The store is a map, here an association list, whose order is that of a sort by
-- creation time where `create` sorts it.
pub mod Bounds
pub mod Lifetime
use freesbc.Base.{
  ℕ, zero, suc, ◌+◌, ◌-◌, ◌*◌, ◌/◌, ◌%◌, ◌^◌, ◌≤◌, ◌<◌, min, max, String, ◌≡◌, refl, sym, ap, ◌∙◌,
  ◌≢◌, ◌↔◌, ◌⊎◌, inl, inr, ite, if_pos, if_neg, Bool, true, false, not, ◌&&◌, ◌||◌, Option, none,
  some, List, [], ◌∷◌, ◌++◌, map, arith, ℕ_discrete, text_discrete, ltb, leb, ◌==◌, if◌then◌else◌,
  ltb→lt, lt→ltb, ltb_false→le, leb→le, leb_false→lt, le→leb, Bool-cases, Option-cases, false-true,
  length, drop_back, take, drop, keep, All, length-append, length-drop_back, length-drop_back-le,
  length-keep-le, length-take-le,
}
use freesbc.Base.Assoc.{
  find, remove, put, NoDup, find-remove, find-put, find-remove_self, find-remove_ne, find-put_self,
  find-put_ne, length-remove-le, length-remove_known, length-put_known, length-put_new,
  NoDup-remove, NoDup-put, passing, find-keep-none, find-keep, NoDup-keep, find-drop_back,
  find-drop_back-none, NoDup-drop_back, NoDup-touch, find-front_self, find-front_ne,
}
use freesbc.Base.Lru.{
  evict, length-evict, IsLru, IsLru-touch, IsLru-push, find-push_ne, find-touch_ne,
}

-- `sessionIdleTimeout`, `sessionMaxAge` in nanoseconds, and `sessionMax`.
abbrev pub session_idle_timeout : ℕ
session_idle_timeout = 30 * 60 * 1000000000

abbrev pub session_max_age : ℕ
session_max_age = 12 * 3600 * 1000000000

abbrev pub session_max : ℕ
session_max = 8

pub record Session : Type 0 where
  pub created : ℕ
  pub last : ℕ

-- The digests stand for `[sha256.Size]byte`.
abbrev pub Store : Type 0
Store = List (ℕ × Session)

-- Whether an identifier is missing.
unfoldable pub is_empty : String → Bool
is_empty id = ite (text_discrete id "") true false

-- `expiredLocked`. Go's `Sub` of an earlier instant is negative, so it is not past a timeout.
abbrev pub expired : Session → ℕ → Bool
expired sess now =
    leb session_idle_timeout (now - sess.last) || leb session_max_age (now - sess.created)

-- `pruneLocked`.
unfoldable pub prune : ℕ → Store → Store
prune now st = keep (λ e. not (expired e.1 now)) st

-- The key that a sort by creation time puts first: the first of the earliest.
unfoldable pub oldest : ℕ × Session → Store → ℕ × Session
oldest e [] = e
oldest e (f ∷ st) =
    let with_f = oldest f st in
    let with_e = oldest e st in if ltb f.1.created e.1.created then with_f else with_e

-- The eviction loop of `create`, on fuel: it runs at most as often as there are sessions.
unfoldable pub evict_loop : ℕ → Store → Store
unfolding oldest
evict_loop zero st = st
evict_loop (suc n) [] = []
evict_loop (suc n) (e ∷ st) =
    let rest = evict_loop n (remove ℕ_discrete (oldest e st).0 (e ∷ st)) in
    if leb session_max (length (e ∷ st)) then rest else e ∷ st

module _ (session_key : String → ℕ) where
  -- `create`, with the identifier that the random source gives.
  unfoldable pub create : String → ℕ → Store → Store
  unfolding prune evict_loop
  create id now st =
      let live = prune now st in
      put ℕ_discrete (session_key id) (record { created = now; last = now })
        (evict_loop (length live) live)

  -- `valid`.
  unfoldable pub valid : String → ℕ → Store → Store × Bool
  valid id now st =
      let k = session_key id in
      if is_empty id then (st, false) else elim (find ℕ_discrete k st) [
        | none ↦ (st, false)
        | some sess ↦
            if expired sess now
            then (remove ℕ_discrete k st, false)
            else (put ℕ_discrete k (record sess { last = now }) st, true)
      ]

  -- `drop`.
  unfoldable pub drop_session : String → ℕ → Store → Store × Bool
  drop_session id now st =
      let k = session_key id in
      if is_empty id then (st, false) else elim (find ℕ_discrete k st) [
        | none ↦ (st, false)
        | some sess ↦ (remove ℕ_discrete k st, not (expired sess now))
      ]
