-- ===== src/Shield/Gate.antt =====
-- The shield itself: internal/shield/shield.go, and the methods of Shield in offenders.go,
-- aorstrikes.go and banned.go. One value holds all tables; a method returns it with its result.
-- The tables' mutexes are leaves and no method holds one across a call of another, so a method here
-- is one run of it with no other thread between. Log lines are left out. The configuration of
-- the call (`store.Current()`), the carrier and vouched predicates and the two parsers of
-- internal/config are arguments.
use freesbc.Base.{
  ℕ, zero, suc, ◌+◌, ◌-◌, ◌*◌, ◌/◌, ◌%◌, ◌^◌, ◌≤◌, ◌<◌, min, max, String, ◌≡◌, refl, sym, ap, ◌∙◌,
  ◌≢◌, ◌↔◌, ◌⊎◌, inl, inr, ite, if_pos, if_neg, Bool, true, false, not, ◌&&◌, ◌||◌, Option, none,
  some, List, [], ◌∷◌, ◌++◌, map, arith, ℕ_discrete, text_discrete, ltb, leb, ◌==◌, if◌then◌else◌,
  ltb→lt, lt→ltb, ltb_false→le, leb→le, leb_false→lt, le→leb, Bool-cases, Option-cases, false-true,
  length, drop_back, take, drop, keep, All, length-append, length-drop_back, length-drop_back-le,
  length-keep-le, length-take-le,
}
use freesbc.Base.Assoc.{
  find, remove, put, NoDup, find-remove, find-put, find-remove_self, find-remove_ne, find-put_self,
  find-put_ne, length-remove-le, length-remove_known, length-put_known, length-put_new,
  NoDup-remove, NoDup-put, passing, find-keep-none, find-keep, NoDup-keep, find-drop_back,
  find-drop_back-none, NoDup-drop_back, NoDup-touch, find-front_self, find-front_ne,
}
use freesbc.Base.Lru.{
  evict, length-evict, IsLru, IsLru-touch, IsLru-push, find-push_ne, find-touch_ne,
}
pub mod Outcome
use freesbc.Base.Text.{codes, to_lower, text_eq}
use freesbc.Net.{Addr, AddrPort, Addr-discrete, AddrPort-discrete, unmap, bucket_key, without_zone}
use freesbc.Shield.BanList
use freesbc.Shield.BanList.{BanList, new_ban_table}
use freesbc.Shield.Limiter
use freesbc.Shield.Limiter.{Float, RateLimiter, take_token, new_rate_limiter}
use freesbc.Shield.Offenders
use freesbc.Shield.Offenders.{StrikeLimit, Report, OffenderTable, new_offender_table}
use freesbc.Shield.Aors
use freesbc.Shield.Aors.{AorTable, new_aor_table}
use freesbc.Shield.Scanner.{is_scanner}

-- `config.RateLimit`.
pub record RateLimit : Type 0 where
  pub rate : ℕ
  pub interval : ℕ
  pub per_ip : Bool

-- The shield section of the configuration, its limits as they are written.
pub record ShieldConfig : Type 0 where
  pub rate_limit : List ℕ
  pub carrier_rate_limit : List ℕ
  pub ban : ℕ
  pub register_ban : List ℕ
  pub admission_ban : List ℕ
  pub register_ban_aor : List ℕ

pub data Verdict : Type 0 where
  allow drop_it : Verdict

pub record Shield (fl : Float) : Type 0 where
  pub limiter : RateLimiter fl
  pub bans : BanList Addr
  pub socket_bans : BanList AddrPort
  pub udp_bans : BanList Addr
  pub offenders : OffenderTable
  pub aors : AorTable
  pub drops_banned : ℕ
  pub drops_scanner : ℕ
  pub drops_rate : ℕ
  pub rl_str : List ℕ
  pub rl_opts : RateLimit
  pub car_str : List ℕ
  pub car_opts : RateLimit
  pub strike_cache : List (String × (List ℕ × StrikeLimit))

abbrev pub no_limit : RateLimit
no_limit = record { rate = 0; interval = 0; per_ip = false }

-- `New`, without its prune goroutine (see `prune_tick`).
abbrev pub new_shield : (fl : Float) → Shield fl
new_shield fl = record {
  limiter = new_rate_limiter fl;
  bans = new_ban_table;
  socket_bans = new_ban_table;
  udp_bans = new_ban_table;
  offenders = new_offender_table;
  aors = new_aor_table;
  drops_banned = 0;
  drops_scanner = 0;
  drops_rate = 0;
  rl_str = [];
  rl_opts = no_limit;
  car_str = [];
  car_opts = no_limit;
  strike_cache = [];
}

-- `socketBanMax`, one minute.
abbrev pub socket_ban_max : ℕ
socket_ban_max = 60000000000

-- `bannableTransport`: the connection-oriented transports.
unfoldable pub bannable_transport : List ℕ → Bool
bannable_transport transport =
    let t = to_lower transport in
    text_eq t (codes "tcp")
    || text_eq t (codes "tls")
    || text_eq t (codes "ws")
    || text_eq t (codes "wss")

unfoldable pub is_udp : List ℕ → Bool
is_udp transport = text_eq (to_lower transport) (codes "udp")

abbrev pub unmap_port : AddrPort → AddrPort
unmap_port src = record src { addr = unmap src.addr }

module _ (fl : Float) where
  -- `Banned`.
  unfoldable pub banned : Addr → ℕ → Shield fl → Shield fl × Bool
  banned src now s =
      let (b, hit) = BanList.banned Addr-discrete (unmap src) now s.bans in
      (record s { bans = b }, hit)

  -- The rest of `BannedFrom` for a datagram: the UDP-only bans, then the exact socket.
  unfoldable pub banned_on_udp : AddrPort → ℕ → Shield fl → Shield fl × Bool
  banned_on_udp src now s =
      let (u, hit) = BanList.banned Addr-discrete src.addr now s.udp_bans in
      let s' = record s { udp_bans = u } in
      let (k, socket_hit) = BanList.banned AddrPort-discrete src now s.socket_bans in
      if hit
      then (s', true)
      else if src.port == 0
      then (s', false)
      else (record s' { socket_bans = k }, socket_hit)

  -- `BannedFrom`.
  unfoldable pub banned_from : AddrPort → List ℕ → ℕ → Shield fl → Shield fl × Bool
  banned_from src transport now s =
      let (b, hit) = BanList.banned Addr-discrete (unmap src.addr) now s.bans in
      let s' = record s { bans = b } in
      if hit
      then (s', true)
      else if is_udp transport
      then banned_on_udp (unmap_port src) now s'
      else (s', false)

  -- `DropBanned`.
  unfoldable pub drop_banned : AddrPort → List ℕ → ℕ → Shield fl → Shield fl × Bool
  drop_banned src transport now s =
      let (s', hit) = banned_from src transport now s in
      if hit then (record s' { drops_banned = s'.drops_banned + 1 }, true) else (s', false)

  module _ (parse : List ℕ → Option RateLimit) where
    -- `rateLimit`: the limit of the source's class, parsed again when its text changes. A text that
    -- does not parse leaves the last limit in force.
    unfoldable pub rate_limit : ShieldConfig → Bool → Shield fl → Shield fl × RateLimit
    rate_limit cfg true s =
        if text_eq cfg.carrier_rate_limit s.car_str
        then (s, s.car_opts)
        else elim (parse cfg.carrier_rate_limit) [
          | some rl ↦ (record s { car_str = cfg.carrier_rate_limit; car_opts = rl }, rl)
          | none ↦ (s, s.car_opts)
        ]
    rate_limit cfg false s =
        if text_eq cfg.rate_limit s.rl_str then (s, s.rl_opts) else elim (parse cfg.rate_limit) [
          | some rl ↦ (record s { rl_str = cfg.rate_limit; rl_opts = rl }, rl)
          | none ↦ (s, s.rl_opts)
        ]

    module _ (is_carrier : Addr → Bool) (vouched : List ℕ → AddrPort → Bool) where
      -- A refusal is counted.
      abbrev pub rate_drop : Shield fl → Shield fl × Bool
      rate_drop s = (record s { drops_rate = s.drops_rate + 1 }, false)

      -- The second bucket of `AllowRate`: the floor of a proven socket.
      unfoldable pub socket_floor : AddrPort → List ℕ → RateLimit → ℕ → Shield fl → Shield fl × Bool
      socket_floor src transport rl now s =
          let (r, ok) =
            take_token fl
              (record { src = src; stream = bannable_transport transport; socket = true }) rl.rate
              rl.interval true now s.limiter in
          if rl.per_ip && vouched transport src
          then if ok then (record s { limiter = r }, true) else rate_drop (record s { limiter = r })
          else rate_drop s

      -- `AllowRate`.
      unfoldable pub allow_rate :
          AddrPort → List ℕ → ShieldConfig → ℕ → Shield fl → Shield fl × Bool
      unfolding rate_limit socket_floor
      allow_rate src transport cfg now s =
          let source : AddrPort = record src { addr = without_zone (unmap src.addr) } in
          let (s', rl) = rate_limit cfg (is_carrier source.addr) s in
          let ip : AddrPort = record { addr = bucket_key source.addr; port = 0 } in
          let (r, ok) =
            take_token fl
              (record { src = ip; stream = bannable_transport transport; socket = false }) rl.rate
              rl.interval rl.per_ip now s'.limiter in
          if ok
          then (record s' { limiter = r }, true)
          else socket_floor source transport rl now (record s' { limiter = r })

      -- The scanner verdict on a datagram: at most a brief ban of its socket.
      unfoldable pub scanner_datagram :
          AddrPort → List ℕ → ShieldConfig → ℕ → Shield fl → Shield fl × Verdict
      scanner_datagram src transport cfg now s =
          if is_udp transport && not (src.port == 0)
          then (
            record s {
              socket_bans =
                  (BanList.ban AddrPort-discrete src (min cfg.ban socket_ban_max) "scanner" now
                    s.socket_bans).0;
            },
            drop_it,
          )
          else (s, drop_it)

      -- The scanner verdict on a connection: a ban of the address.
      unfoldable pub scanner_connection :
          AddrPort → ShieldConfig → ℕ → Shield fl → Shield fl × Verdict
      scanner_connection src cfg now s = (
        record s { bans = (BanList.ban Addr-discrete src.addr cfg.ban "scanner" now s.bans).0 },
        drop_it,
      )

      -- `CheckScanner`.
      unfoldable pub check_scanner :
          AddrPort → List ℕ → List ℕ → ShieldConfig → ℕ → Shield fl → Shield fl × Verdict
      check_scanner src user_agent transport cfg now s =
          let (s', hit) = banned_from src transport now s in
          let source = unmap_port src in
          let counted = record s' { drops_scanner = s'.drops_scanner + 1 } in
          if hit
          then (record s' { drops_banned = s'.drops_banned + 1 }, drop_it)
          else if not (is_carrier source.addr) && is_scanner user_agent
          then if bannable_transport transport
            then scanner_connection source cfg now counted
            else scanner_datagram source transport cfg now counted
          else (s', allow)

      -- `CheckFrom`.
      unfoldable pub check_from :
          AddrPort → List ℕ → List ℕ → ShieldConfig → ℕ → Shield fl → Shield fl × Verdict
      check_from src user_agent transport cfg now s =
          let (s', hit) = banned_from src transport now s in
          let (s'', ok) = allow_rate (unmap_port src) transport cfg now s' in
          if hit
          then (record s' { drops_banned = s'.drops_banned + 1 }, drop_it)
          else if ok
          then check_scanner (unmap_port src) user_agent transport cfg now s''
          else (s'', drop_it)

      -- `Check`, which knows only the address.
      unfoldable pub check :
          Addr → List ℕ → List ℕ → ShieldConfig → ℕ → Shield fl → Shield fl × Verdict
      check src user_agent transport cfg now s =
          check_from (record { addr = src; port = 0 }) user_agent transport cfg now s

  -- One tick of the prune loop.
  unfoldable pub prune_tick : ℕ → Shield fl → Shield fl
  prune_tick now s = record s {
    limiter = Limiter.prune fl now s.limiter;
    bans = BanList.prune now s.bans;
    socket_bans = BanList.prune now s.socket_bans;
    udp_bans = BanList.prune now s.udp_bans;
    offenders = Offenders.prune now s.offenders;
    aors = Aors.prune now s.aors;
  }
