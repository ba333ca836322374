-- ===== src/Shield/Tests.antt =====
-- The shield on concrete inputs (internal/shield).
use freesbc.Base.{
  ℕ, ◌+◌, ◌≤◌, ◌<◌, String, ◌≡◌, ◌⊎◌, refl, ap, ◌≢◌, ◌↔◌, ite, true, false, none, some, List, [],
  ◌∷◌, arith, text_discrete, if◌then◌else◌, false-true,
}
use freesbc.Base.Assoc.{find}
use freesbc.Net.{Addr, Addr-discrete}
use freesbc.Shield.Samples.{phone, other_phone, whole}
use freesbc.Shield.BanList.{
  IsValid, ban_at, prune, BanList, new_ban_table, ban, banned, ban_cap, size, add, make_room,
  sweep_every, live_count,
}
use freesbc.Shield.BanList.Verdict.{ban-banned, ban-keeps, banned_invisible}
use freesbc.Shield.BanList.Bounds.{Step, Reach, Reach-IsValid, ban_refused_iff}
use freesbc.Shield.Limiter.{RateKey, new_rate_limiter}
use freesbc.Shield.Limiter.Burst.{burst, burst-le_rate}
use freesbc.Shield.Offenders.{StrikeLimit, OffenderKey, new_offender_table}
use freesbc.Shield.Offenders.Window.{run-expected, run, expected_from}
use freesbc.Shield.Aors
use freesbc.Shield.Aors.{AorTable, AorEntry, new_aor_table, is_locked, strike}
use freesbc.Shield.Aors.Lock.{strike-locks}

ban-banned_example :
    (banned Addr-discrete phone 5 (ban Addr-discrete phone 10 "scanner" 1 new_ban_table).0).1 ≡ true
unfolding ban find add make_room new_ban_table
ban-banned_example =
    ban-banned Addr-discrete phone 10 "scanner" 1 5 new_ban_table refl (omega arith)

abbrev one_ban : BanList Addr
one_ban = record {
  until = (phone, record { until = 20; since = 1; reason = "register" }) ∷ [];
  last_sweep = 0;
  overflow = 0;
}

ban-keeps_example :
    ban_at Addr-discrete phone 3 (ban Addr-discrete other_phone 40 "scanner" 3 one_ban).0
    ≡ some (
        ite
          (Addr-discrete phone other_phone)
          (record { until = 43; since = 1; reason = "register" })
          (record { until = 20; since = 1; reason = "register" }))
unfolding ban_at find
ban-keeps_example =
    ban-keeps Addr-discrete phone other_phone 40 "scanner" 3 one_ban
      (record { until = 20; since = 1; reason = "register" }) (refl, tt) (ground arith)

banned_invisible_example :
    ((banned Addr-discrete phone 9 (banned Addr-discrete other_phone 4 one_ban).0).1
      ≡ (banned Addr-discrete phone 9 one_ban).1)
    × ((banned Addr-discrete phone 9 (prune 4 one_ban)).1
        ≡ (banned Addr-discrete phone 9 one_ban).1)
unfolding find
banned_invisible_example =
    banned_invisible Addr-discrete phone other_phone 4 9 one_ban (refl, tt) (omega arith)

Reach-IsValid_example :
    IsValid Addr-discrete (ban Addr-discrete phone 10 "scanner" 1 new_ban_table).0
Reach-IsValid_example =
    Reach-IsValid Addr-discrete (Reach.next Reach.start (Step.bans phone 10 "scanner" 1))

ban_refused_iff_example :
    (((ban Addr-discrete phone 10 "scanner" 1 one_ban).1 ≡ false) ↔ (
      (find Addr-discrete phone one_ban.until ≡ none)
      × (ban_cap ≤ size one_ban)
      × ((1 < one_ban.last_sweep + sweep_every) ⊎ (ban_cap ≤ live_count 1 one_ban))))
    × ((ban Addr-discrete phone 10 "scanner" 1 one_ban).0.overflow
        ≡ 0 + (if (ban Addr-discrete phone 10 "scanner" 1 one_ban).1 then 0 else 1))
ban_refused_iff_example = ban_refused_iff Addr-discrete phone 10 "scanner" 1 one_ban

abbrev one_key : RateKey
one_key = record { src = record { addr = phone; port = 0 }; stream = false; socket = false }

abbrev other_key : RateKey
other_key = record { src = record { addr = phone; port = 0 }; stream = true; socket = false }

burst-le_rate_example : (burst whole 7 one_key 3 1000000000 5 (new_rate_limiter whole)).1 ≤ 3
burst-le_rate_example =
    burst-le_rate whole 7 one_key 3 1000000000 5 (new_rate_limiter whole) (omega arith)
      (omega arith) (omega arith)

keys_differ : one_key ≢ other_key
keys_differ e = absurd (false-true (ap (λ (k : RateKey). k.stream) e))

abbrev two_a_minute : StrikeLimit
two_a_minute = record { n = 2; window = 60000000000; off = false }

abbrev budget : OffenderKey
budget = record { src = phone; reason = "admission" }

run-expected_example :
    run two_a_minute budget
      (("admission", 1) ∷ ("admission_udp", 2) ∷ ("admission", 3) ∷ [])
      new_offender_table
    ≡ expected_from two_a_minute 0 (("admission", 1) ∷ ("admission_udp", 2) ∷ ("admission", 3) ∷ [])
unfolding find
run-expected_example =
    run-expected two_a_minute budget "admission" 1 (("admission_udp", 2) ∷ ("admission", 3) ∷ [])
      new_offender_table refl (omega arith, (omega arith, tt))

abbrev part : String
part = "admission"

named_part : part ≢ ""
named_part e = false-true (ap (λ s. ite (text_discrete s "") true false) e)

abbrev aor : List ℕ
aor = 97 ∷ 64 ∷ 98 ∷ []

abbrev other_aor : List ℕ
other_aor = 99 ∷ 64 ∷ 98 ∷ []

abbrev none_allowed : StrikeLimit
none_allowed = record { n = 0; window = 60000000000; off = false }

abbrev locked_entry : AorEntry
locked_entry = record { start = 1; window = 60000000000; count = 3; locked = 90 }

abbrev locked_table : AorTable
locked_table = record {
  lru = (aor, locked_entry) ∷ (other_aor, record locked_entry { locked = 0 }) ∷ [];
  max = 2;
}

strike-locks_example :
    (is_locked aor 40 (Aors.strike aor none_allowed 100 1 new_aor_table).0 ≡ true)
    × (0 < (Aors.strike aor none_allowed 100 1 new_aor_table).1.count)
unfolding strike find Aors.aor_key Aors.count_strike
strike-locks_example =
    strike-locks aor none_allowed 100 1 40 new_aor_table (ground arith) (omega arith)

aors_differ : aor ≢ other_aor
aors_differ e = ground (arith, e)
