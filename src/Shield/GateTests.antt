-- ===== src/Shield/GateTests.antt =====
-- The gate and the strikes on concrete inputs (internal/shield).
use freesbc.Base.{
  ℕ, ◌≡◌, ◌≢◌, refl, ◌↔◌, Bool, true, false, not, ◌&&◌, Option, some, List, [], ◌∷◌, arith,
}
use freesbc.Base.Assoc.{find}
use freesbc.Base.Text.{codes, to_lower, text_eq}
use freesbc.Net.{Addr, AddrPort, unmap, mask_64, bucket_key}
use freesbc.Shield.Samples.{phone, whole}
use freesbc.Shield.BanList
use freesbc.Shield.BanList.{new_ban_table}
use freesbc.Shield.Offenders
use freesbc.Shield.Offenders.{StrikeLimit, OffenderKey}
use freesbc.Shield.Scanner.{is_scanner}
use freesbc.Shield.Gate.{
  Shield, ShieldConfig, RateLimit, allow, new_shield, bannable_transport, unmap_port, banned_from,
  allow_rate, check_from,
}
use freesbc.Shield.Gate.Outcome.{IsKeyed, check_from-allow_iff}
use freesbc.Shield.Strikes.{
  strike, strike_limit, threshold, part_of, budget_of, strike_counted, strike_ban,
}
use freesbc.Shield.Strikes.Datagrams.{Datagram, run, run-spares}
use freesbc.Shield.Strikes.Effect.{strike-bans}

abbrev udp : List ℕ
udp = codes "udp"

abbrev tls : List ℕ
tls = codes "tls"

abbrev friendly_scanner : List ℕ
friendly_scanner = codes "friendly-scanner"

abbrev limits : ShieldConfig
limits = record {
  rate_limit = codes "100/s";
  carrier_rate_limit = codes "0/s";
  ban = 3600000000000;
  register_ban = codes "1/1m";
  admission_ban = codes "1/1m";
  register_ban_aor = codes "1/1m";
}

abbrev parse_rate : List ℕ → Option RateLimit
parse_rate text = some (record { rate = 100; interval = 1000000000; per_ip = true })

abbrev one_a_minute : StrikeLimit
one_a_minute = record { n = 1; window = 60000000000; off = false }

abbrev parse_strike : List ℕ → Option StrikeLimit
parse_strike text = some one_a_minute

abbrev no_carrier : Addr → Bool
no_carrier ip = false

abbrev nobody : List ℕ → AddrPort → Bool
nobody tr src = false

abbrev socket : AddrPort
socket = record { addr = phone; port = 5060 }

abbrev empty_shield : Shield whole
empty_shield = new_shield whole

abbrev flood : List (Datagram whole parse_rate parse_strike no_carrier nobody)
flood =
    Datagram.gate socket friendly_scanner udp limits 5
    ∷ Datagram.struck phone "malformed" udp limits 6
    ∷ Datagram.struck_everywhere (Addr.v4 0x0a0000ff) "register" limits 7
    ∷ []

other_address : unmap phone ≢ unmap (Addr.v4 0x0a0000ff)
unfolding unmap
other_address e = ground (arith, e)

run-spares_example :
    (banned_from whole socket tls 9
      (run whole parse_rate parse_strike no_carrier nobody flood empty_shield)).1
    ≡ (banned_from whole socket tls 9 empty_shield).1
unfolding bannable_transport to_lower text_eq new_ban_table
run-spares_example =
    run-spares whole parse_rate parse_strike no_carrier nobody 9 flood empty_shield socket tls
      ((refl, omega arith), ((refl, omega arith), ((other_address, omega arith), tt))) tt refl

empty_shield-IsKeyed : IsKeyed whole empty_shield
unfolding new_ban_table
empty_shield-IsKeyed = record { ips = tt; sockets = tt; udp_ips = tt }

check_from-allow_iff_example :
    ((check_from whole parse_rate no_carrier nobody socket friendly_scanner udp limits 5
        empty_shield).1
      ≡ allow)
    ↔ (((banned_from whole socket udp 5 empty_shield).1 ≡ false)
        × ((allow_rate whole parse_rate no_carrier nobody
              (unmap_port socket)
              udp
              limits
              5
              (banned_from whole socket udp 5 empty_shield).0).1
            ≡ true)
        × ((not (no_carrier (unmap phone)) && is_scanner friendly_scanner) ≡ false))
check_from-allow_iff_example =
    check_from-allow_iff whole parse_rate no_carrier nobody socket friendly_scanner udp limits 5
      empty_shield empty_shield-IsKeyed

-- A source with one strike on record.
abbrev struck_once : Shield whole
struck_once = record empty_shield {
  offenders = record {
    lru =
        (
          record { src = phone; reason = "register" },
          record { start = 1; window = 60000000000; count = 1; over = false; parts = [] },
        )
        ∷ [];
    max = 16384;
  };
  strike_cache = ("register", (codes "1/1m", one_a_minute)) ∷ [];
}

cached_limit :
    strike_limit whole parse_strike limits "register" struck_once ≡ (struck_once, one_a_minute)
unfolding strike_limit threshold find
cached_limit = ground arith

second_strike_bans :
    (strike whole parse_strike no_carrier false phone "register" limits 5 struck_once).1 ≡ true
unfolding strike strike_counted strike_ban budget_of part_of bucket_key unmap mask_64 find
    Offenders.strike Offenders.count_strike Offenders.reopened BanList.ban new_ban_table BanList.add
    BanList.make_room
second_strike_bans = ground (arith, cached_limit)

strike-bans_example :
    ((banned_from whole
        (record { addr = unmap phone; port = 7 })
        udp
        50
        (strike whole parse_strike no_carrier false phone "register" limits 5 struck_once).0).1
      ≡ true)
    × (no_carrier (unmap phone) ≡ false)
strike-bans_example =
    strike-bans whole parse_strike no_carrier false phone "register" limits 5 50 7 udp struck_once
      second_strike_bans (omega arith) refl
