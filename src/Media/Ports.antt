-- ===== src/Media/Ports.antt =====
-- The RTP/RTCP port pool: internal/media/portpool.go. `reserveNext`, `release` and `Stats` run under
-- the pool's mutex. Opening a socket is a parameter: `bind port` is what the operating system gives
-- for that port in this sweep, or `none`. No other thread's call stands inside a sweep here.
pub mod Reserve
pub mod Sweep
pub mod Grant
use freesbc.Base.{
  ℕ, zero, suc, ◌+◌, ◌-◌, ◌*◌, ◌/◌, ◌%◌, ◌^◌, ◌≤◌, ◌<◌, min, max, String, ◌≡◌, refl, sym, ap, ◌∙◌,
  ◌≢◌, ◌↔◌, ◌⊎◌, inl, inr, ite, if_pos, if_neg, Bool, true, false, not, ◌&&◌, ◌||◌, Option, none,
  some, List, [], ◌∷◌, ◌++◌, map, arith, ℕ_discrete, text_discrete, ltb, leb, ◌==◌, if◌then◌else◌,
  ltb→lt, lt→ltb, ltb_false→le, leb→le, leb_false→lt, le→leb, Bool-cases, Option-cases, false-true,
  length, drop_back, take, drop, keep, All, length-append, length-drop_back, length-drop_back-le,
  length-keep-le, length-take-le,
}
use freesbc.Base.Assoc.{
  find, remove, put, NoDup, find-remove, find-put, find-remove_self, find-remove_ne, find-put_self,
  find-put_ne, length-remove-le, length-remove_known, length-put_known, length-put_new,
  NoDup-remove, NoDup-put, passing, find-keep-none, find-keep, NoDup-keep, find-drop_back,
  find-drop_back-none, NoDup-drop_back, NoDup-touch, find-front_self, find-front_ne,
}
use freesbc.Base.Lru.{
  evict, length-evict, IsLru, IsLru-touch, IsLru-push, find-push_ne, find-touch_ne,
}

-- The range of `PlaneParams`.
pub record PortRange : Type 0 where
  pub min_port : ℕ
  pub max_port : ℕ

-- `inUse` as a map to the unit, and `cursor`.
pub record PlanePool : Type 0 where
  pub in_use : List (ℕ × Unit {0})
  pub cursor : ℕ

abbrev pub new_plane_pool : PlanePool
new_plane_pool = record { in_use = []; cursor = 0 }

-- RTP ports are even: an odd lower end moves up.
abbrev pub even_up : ℕ → ℕ
even_up lo = if lo % 2 == 0 then lo else lo + 1

-- How many pairs the range holds: none, if it is inverted.
abbrev pub pairs_in : ℕ → ℕ → ℕ
pairs_in lo hi = (hi + 1 - lo) / 2

abbrev pub cursor_in : ℕ → ℕ → ℕ → ℕ
cursor_in lo hi c = if ltb c lo || ltb hi (c + 1) then lo else c

-- What a look at the next candidate gives.
pub record Candidate : Type 0 where
  pub pool : PlanePool
  pub port : ℕ
  pub free : Bool

-- `reserveNext`.
unfoldable pub reserve_next : ℕ → ℕ → PlanePool → Candidate
reserve_next lo hi p =
    let port = cursor_in lo hi p.cursor in
    let next = if ltb hi (port + 2 + 1) then lo else port + 2 in
    elim (find ℕ_discrete port p.in_use) [
      | some _ ↦ record { pool = record p { cursor = next }; port = port; free = false }
      | none ↦ record {
        pool = record { in_use = put ℕ_discrete port tt p.in_use; cursor = next };
        port = port;
        free = true;
      }
    ]

-- `release`.
unfoldable pub release : ℕ → PlanePool → PlanePool
release rtp_port p = record p { in_use = remove ℕ_discrete rtp_port p.in_use }

module _ {T : Type 0} (bind : ℕ → Option T) where
  -- The loop of `sweep`: at most one lap of `tries` candidates.
  unfoldable pub sweep_loop : ℕ → ℕ → ℕ → PlanePool → PlanePool × Option (ℕ × T)
  sweep_loop lo hi zero p = (p, none)
  sweep_loop lo hi (suc tries) p =
      let c = reserve_next lo hi p in
      elim c.free [
        | false ↦ sweep_loop lo hi tries c.pool
        | true ↦ elim (bind c.port) [
          | some v ↦ (c.pool, some (c.port, v))
          | none ↦ sweep_loop lo hi tries (release c.port c.pool)
        ]
      ]

  -- `sweep`.
  unfoldable pub sweep : PortRange → PlanePool → PlanePool × Option (ℕ × T)
  unfolding sweep_loop
  sweep par p =
      let lo = even_up par.min_port in sweep_loop lo par.max_port (pairs_in lo par.max_port) p

-- `Stats`: the reservations inside the current range, and how many it can hold.
unfoldable pub stats : PortRange → PlanePool → ℕ × ℕ
stats par p =
    let lo = even_up par.min_port in
    (
      length (keep (λ e. leb lo e.0 && leb (e.0 + 1) par.max_port) p.in_use),
      pairs_in lo par.max_port,
    )

-- `bindPair`, over the sockets that the operating system gives: both ports, or none.
unfoldable pub bind_pair : {S : Type 0} → (ℕ → Option S) → ℕ → Option (S × S)
bind_pair listen port = elim (listen port) [
  | none ↦ none
  | some rtp ↦ elim (listen (port + 1)) [ none ↦ none | some rtcp ↦ some (rtp, rtcp) ]
]

-- `allocatePair`: a pair of sockets.
unfoldable pub allocate_pair :
    {S : Type 0} → (ℕ → Option S) → PortRange → PlanePool → PlanePool × Option (ℕ × (S × S))
allocate_pair listen par p = sweep (bind_pair listen) par p

-- `allocateSingle`: one socket; the odd port above it stays reserved with it.
unfoldable pub allocate_single :
    {S : Type 0} → (ℕ → Option S) → PortRange → PlanePool → PlanePool × Option (ℕ × S)
allocate_single listen par p = sweep listen par p
