-- ===== src/Edge/FrameTests.antt =====
-- The framers, the recorded responses, the carriers and the admission on concrete inputs
-- (internal/edge).
use freesbc.Base.{
  ℕ, ◌-◌, ◌^◌, ◌≤◌, ◌≡◌, refl, ◌⊎◌, inl, inr, Bool, Bool-cases, true, false, Option, none, some,
  List, [], ◌∷◌, ◌++◌, arith, keep, ltb, leb, ◌&&◌, if◌then◌else◌,
}
use freesbc.Net.{Addr, AddrPort, unmap, without_zone}
use freesbc.Shield.Samples.{whole}
use freesbc.Shield.Offenders.{StrikeLimit}
use freesbc.Shield.Gate.{ShieldConfig, new_shield}
use freesbc.Base.Assoc.{find}
use freesbc.Edge.Location.{
  Binding, zero_binding, new_location, prune_aor_locked, prune_positions, flush_removed,
}
use freesbc.Edge.Location.Table.{PutResult, put_binding, put_swept, same_call, insert}
use freesbc.Edge.Admission.Registered.{put_binding-offend_all}
use freesbc.Edge.Admission.{DropState, new_warn_once, max_warned_sources}
use freesbc.Edge.Admission.Spared.{Offence, dropped_request, malformed_read, offend_all}
use freesbc.Edge.WsFramer.{
  ws_head, WsFramer, close_none, Fed, feed, feed_loop, round_in, head_round, head_filled, head_done,
  payload_round, payload_length,
}
use freesbc.Edge.WsFramer.Rounds.{IsSound}
use freesbc.Edge.WsFramer.Chunks.{by_byte}
use freesbc.Edge.WsFramer.Feeds.{feed_refines, feed-IsSound, feed-append}
use freesbc.Edge.WsFramer
use freesbc.Edge.SipFramer.{sip_idle}
use freesbc.Edge.SipFramer as SipFramer
use mathlib.Core.Option.{some-injective}
use freesbc.Edge.SipFramer.Returns.{IsFramed, feed_returns}
use freesbc.Edge.Provisional.{
  prov_cap, Response, Message, request_read, response_read, register, unrelayed, before,
}
use freesbc.Edge.Provisional.Numbers.{until}
use freesbc.Edge.Provisional.Order.{last_of, heard, observe_all, before-heard}
use freesbc.Edge.Carriers.{
  CarrierSnapshot, carrier_for, scan_carriers, Serves, carrier_unknown, in_any, plain_addr,
  carrier_for-Serves,
}
use freesbc.Edge.Admission.{new_drop_summary, drop_options}
use freesbc.Edge.Admission.Summary.{Totals, add_all, add_all-Totals}

-- A framer past the upgrade, and the two halves of a masked ping of two bytes.
abbrev ws_start : WsFramer
ws_start = record {
  state = ws_head;
  matched = 4;
  read = 0;
  hdr = [];
  need = 2;
  left = 0;
  began = false;
  data_began = false;
}

abbrev half : List ℕ
half = 0x89 ∷ 0x82 ∷ 1 ∷ []

abbrev rest : List ℕ
rest = 2 ∷ 3 ∷ 4 ∷ 70 ∷ 71 ∷ []

abbrev half_fed : Fed
half_fed = record {
  framer = record ws_start { hdr = half; need = 6; began = true };
  charges = 0;
  bad = close_none;
}

abbrev rest_fed : Fed
rest_fed = record { framer = ws_start; charges = 1; bad = close_none }

ws_start-IsSound : IsSound 100 ws_start
unfolding IsSound
ws_start-IsSound = (omega arith, omega arith)

half-fed : feed 100 ws_start half ≡ some half_fed
unfolding feed feed_loop round_in head_round head_filled head_done payload_length
half-fed = refl

rest-fed : feed 100 half_fed.framer rest ≡ some rest_fed
unfolding feed feed_loop round_in head_round head_filled head_done payload_round payload_length
rest-fed = refl

feed_refines_example :
    feed 100 ws_start half ≡ some (by_byte 100 (record ws_start { began = false }) 0 half)
feed_refines_example = feed_refines 100 ws_start half ws_start-IsSound

feed-IsSound_example : IsSound 100 half_fed.framer
feed-IsSound_example = feed-IsSound 100 ws_start half half_fed ws_start-IsSound half-fed refl

feed-append_example :
    (t : Fed) × (feed 100 ws_start (half ++ rest) ≡ some t)
    × (t.charges ≡ 1)
    × (t.bad ≡ close_none)
    × (WsFramer.fresh t.framer ≡ ws_start)
feed-append_example =
    feed-append 100 ws_start half rest half_fed rest_fed ws_start-IsSound half-fed refl rest-fed

-- Two responses of one INVITE, with another's and a request between them.
abbrev ringing : Response
ringing = record { ptr = 1; status_code = 180; cseq_method = some "INVITE"; tx_key = some "k" }

abbrev answered : Response
answered = record { ptr = 3; status_code = 200; cseq_method = some "INVITE"; tx_key = some "k" }

abbrev traffic : List Message
traffic =
    response_read ringing
    ∷ request_read
    ∷ response_read (record ringing { ptr = 2; tx_key = some "other" })
    ∷ response_read answered
    ∷ []

before-heard_example :
    before (some "k") 3 [] (observe_all traffic (register (some "k") []))
    ≡ keep (unrelayed []) (until 3 (last_of prov_cap (heard "k" traffic)))
before-heard_example = before-heard "k" 3 [] traffic [] (omega arith)

-- A carrier on tls, asked for over tls from another port.
abbrev carrier_addr : Addr
carrier_addr = Addr.v4 0x0a000001

abbrev no_prefix : ℕ → Addr → Bool
no_prefix p ip = false

abbrev snapshot : CarrierSnapshot no_prefix
snapshot = record {
  entries =
      record {
        name = "acme";
        transport = "tls";
        addrs = record { addr = carrier_addr; port = 5061 } ∷ [];
      }
      ∷ [];
  nets = [];
  extra = [];
}

abbrev from_carrier : AddrPort
from_carrier = record { addr = carrier_addr; port = 40000 }

acme-found : carrier_for no_prefix from_carrier "tls" snapshot ≡ some "acme"
unfolding carrier_for scan_carriers unmap without_zone
acme-found = ground arith

carrier_for-Serves_example :
    Serves "acme" (plain_addr carrier_addr) "tls" snapshot.entries
    ⊎ (("acme" ≡ carrier_unknown)
        × (in_any no_prefix (plain_addr carrier_addr) snapshot.extra ≡ true))
carrier_for-Serves_example =
    carrier_for-Serves no_prefix from_carrier "tls" snapshot "acme" acme-found

add_all-Totals_example : Totals 3 (
    add_all
      ((carrier_addr, true) ∷ (carrier_addr, false) ∷ (Addr.v4 7, true) ∷ [])
      new_drop_summary)
add_all-Totals_example =
    add_all-Totals ((carrier_addr, true) ∷ (carrier_addr, false) ∷ (Addr.v4 7, true) ∷ [])

-- A source that is no carrier, a malformed read and a request that is dropped.
abbrev no_strikes : List ℕ → Option StrikeLimit
no_strikes text = none

abbrev no_carrier : Addr → Bool
no_carrier ip = false

abbrev strict : ShieldConfig
strict = record {
  rate_limit = [];
  carrier_rate_limit = [];
  ban = 60000000000;
  register_ban = [];
  admission_ban = 49 ∷ [];
  register_ban_aor = [];
}

abbrev quiet_state : DropState whole
quiet_state = record {
  dropped = [];
  summary = new_drop_summary;
  warned = new_warn_once max_warned_sources;
  shield = some (new_shield whole);
}

abbrev offences : List (ℕ × Offence)
offences = (5, malformed_read []) ∷ (6, dropped_request drop_options [] 5060) ∷ []

-- A phone registers, and then sends what is dropped, its address written as IPv4-mapped.
abbrev phone : Binding
phone = record zero_binding {
  aor = "sip:a";
  call_id = "c1";
  token = "t1";
  source = record { addr = Addr.v4 0x0a000001; port = 5060 };
  expires_at = 100;
}

abbrev mapped_phone : Addr
mapped_phone = Addr.v6 0 0xffff0a000001 ""

phone_stored : (put_binding 1 "t9" phone new_location).0.1 ≡ PutResult.stored 0
unfolding put_binding put_swept prune_aor_locked prune_positions same_call insert find flush_removed
phone_stored = refl

mapped_phone-unmap : unmap mapped_phone ≡ unmap phone.source.addr
unfolding unmap
mapped_phone-unmap = refl

put_binding-offend_all_example :
    (offend_all whole no_strikes no_carrier strict mapped_phone
      (put_binding 1 "t9" phone new_location).0.0
      offences
      quiet_state).shield
    ≡ some (new_shield whole)
put_binding-offend_all_example =
    put_binding-offend_all whole no_strikes no_carrier strict 1 "t9" phone new_location 0
      mapped_phone offences quiet_state phone_stored mapped_phone-unmap

-- A keep-alive and the start of a message.
abbrev idle_framer : SipFramer.SipFramer
idle_framer = record { state = sip_idle; head = []; left = 0; began = false }

abbrev as_is : List ℕ → List ℕ
as_is l = l

-- `strconv.Atoi` of one digit.
abbrev one_digit : List ℕ → Option ℕ
one_digit [] = none
one_digit (d ∷ []) = if leb 48 d && ltb d 58 then some (d - 48) else none
one_digit (d ∷ e ∷ l) = none

one_digit-le : (s : List ℕ) (n : ℕ) → one_digit s ≡ some n → n ≤ 9
one_digit-le [] n e = absurd (ground (arith, e))
one_digit-le (d ∷ []) n e = elim (Bool-cases (leb 48 d && ltb d 58)) [
  | inl t ↦ let z : d - 48 ≡ n = some-injective (d - 48) n (rw t at e) in ground (arith, t, z)
  | inr t ↦ absurd (ground (arith, rw t at e))
]
one_digit-le (d ∷ f ∷ l) n e = absurd (ground (arith, e))

idle_framer-IsFramed : IsFramed 100 9 idle_framer
unfolding IsFramed
idle_framer-IsFramed = tt

-- "l:5", an empty line, and three bytes of the body.
abbrev short_body : List ℕ
short_body = 108 ∷ 58 ∷ 53 ∷ 13 ∷ 10 ∷ 13 ∷ 10 ∷ 97 ∷ 98 ∷ 99 ∷ []

feed_returns_example :
    (r : SipFramer.Fed as_is as_is one_digit) × (SipFramer.feed as_is as_is one_digit 100
        idle_framer short_body
      ≡ some r)
    × (r.bad ≡ close_none → IsFramed 100 9 r.framer)
feed_returns_example =
    feed_returns as_is as_is one_digit 9 one_digit-le 100 idle_framer short_body
      idle_framer-IsFramed

-- A Content-Length of 2^63 - 1 after a header block of 100 bytes passes a limit of 65,536.
huge_body-passes : SipFramer.exceeds 65536 100 (2 ^ 63 - 1) ≡ false
unfolding SipFramer.exceeds
huge_body-passes = refl
