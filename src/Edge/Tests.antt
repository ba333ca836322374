-- ===== src/Edge/Tests.antt =====
-- The edge's tables on concrete inputs (internal/edge).
use freesbc.Base.{
  List, leb, ℕ, ◌+◌, ◌-◌, ◌≤◌, ◌<◌, String, ◌≡◌, refl, ite, Bool, true, false, some, [], ◌∷◌, arith,
  text_discrete, length,
}
use freesbc.Base.Assoc.{find, put}
use freesbc.Base.Lru.{evict}
use freesbc.Base.Every.{set_at}
use freesbc.Net.{Addr, Addr-discrete, stream_key}
use freesbc.Edge.Cooldown.{
  zero_breaker, CooldownTable, new_cooldown_table, register_allow, Unanswered, register_unanswered,
}
use freesbc.Edge.Cooldown.Breaker.{opens-third, run_unanswered}
use freesbc.Edge.Cooldown.Held.{Later, unanswered-holds}
use freesbc.Edge.Streams.{StreamTable, default_stream_limits, new_stream_table, acquire, class_full}
use freesbc.Edge.Streams.Caps.{Counts, WithinCaps, Reach-Counts, acquire_carrier, from_key}
use freesbc.Edge.Streams.Caps as Caps
use freesbc.Edge.Location.{
  Binding, Location, new_location, index_source_locked, prune_aor_locked, prune_positions, nth,
  flush_removed,
}
use freesbc.Edge.Location.Table.{put_binding, put_swept, same_call, insert, lookup_token}
use freesbc.Edge.Location.Table.Bounds.{WithinBounds, Reach-WithinBounds}
use freesbc.Edge.Location.Table.Bounds as Bounds
use freesbc.Edge.Location.Table.Lookups.{put_binding-refresh, put_binding-lookup_token}
use freesbc.Edge.RegGuard.{
  RegRecord, zero_record, RegGuard, new_reg_guard, enum_key, challenged, countable, reg_nonce_ttl,
  add_nonces, add_branch, recent, xor_bits,
}
use freesbc.Edge.RegGuard.Forgery.{Issued, countable-Issued}
use freesbc.Edge.RegGuard.Forgery as Forgery
use freesbc.Edge.Enumeration.{new_enum_limiter, blocked, enum_max_aors}
use freesbc.Edge.Enumeration.Distinct as Distinct
use freesbc.Edge.Enumeration.Distinct.{blocked-distinct, distinct_after}
use freesbc.Edge.RegGuard.Once.{countable-once}
use freesbc.Edge.CarrierRegs.{CarrierBinding}

abbrev node : String
node = "10.0.0.1:5060"

abbrev open_breaker : CooldownTable
open_breaker = record {
  until = [];
  last_fail = [];
  reg = (node, record zero_breaker { fails = 3; level = 1; is_open = true; open_until = 40 }) ∷ [];
}

unanswered-holds_example :
    (h' : CooldownTable) × (r : Unanswered) × (register_unanswered node true 50 open_breaker
      ≡ some (h', r))
    × (r.opened ≡ true
        → (30000000000 ≤ r.window)
          × (r.window ≤ 300000000000)
          × ((u : CooldownTable)
              → Later node h' u
              → 60 < 50 + r.window
              → (register_allow node 10 60 u).1 ≡ false))
unanswered-holds_example = unanswered-holds node true 50 10 60 open_breaker

opens-third_example :
    run_unanswered node ((false, 1) ∷ (false, 2) ∷ (false, 3) ∷ []) new_cooldown_table
    ≡ some (false ∷ false ∷ true ∷ [])
unfolding find
opens-third_example = opens-third node false false false 1 2 3 new_cooldown_table (refl, refl)

abbrev phone : Addr
phone = Addr.v4 0x0a000001

abbrev one_open : StreamTable
one_open = (acquire phone false default_stream_limits new_stream_table).0

one_open-Reach :
    Caps.Reach default_stream_limits one_open
      (record { key = stream_key phone; carrier = false } ∷ [])
unfolding acquire class_full find
one_open-Reach = Caps.Reach.opens phone false refl Caps.Reach.start

Reach-Counts_example :
    Counts one_open (record { key = stream_key phone; carrier = false } ∷ [])
    × WithinCaps default_stream_limits (record { key = stream_key phone; carrier = false } ∷ [])
Reach-Counts_example = Reach-Counts one_open-Reach

abbrev fold : String → String → Bool
fold a b = ite (text_discrete a b) true false

abbrev desk : Binding
desk = record {
  token = "t1";
  aor = "ann@example.org";
  user = "ann";
  transport = "tls";
  source = record { addr = phone; port = 40000 };
  expires_at = 500;
  call_id = "c1";
}

abbrev registered : Location
registered = insert desk new_location

put_binding-refresh_example :
    lookup_token 20 "t1"
      (put_binding 10 "t9" (record desk { token = ""; expires_at = 900 }) registered).0.0
    ≡ some (record desk { expires_at = 900 })
unfolding insert index_source_locked find put prune_aor_locked prune_positions nth same_call
put_binding-refresh_example =
    put_binding-refresh "t9" (record desk { token = ""; expires_at = 900 }) registered 10 20 0 0
      refl refl (omega arith)

put_binding-lookup_token_example :
    lookup_token 20 "t1" (put_binding 10 "t9" desk new_location).0.0 ≡ some desk
unfolding put_binding put_swept same_call find prune_aor_locked prune_positions flush_removed
put_binding-lookup_token_example =
    put_binding-lookup_token "t9" desk new_location 10 20 0 refl refl (omega arith)

Reach-WithinBounds_example : WithinBounds (put_binding 10 "t9" desk new_location).0.0
unfolding find
Reach-WithinBounds_example =
    Reach-WithinBounds {equal_fold = fold}
      (Bounds.Reach.next Bounds.Reach.here (Bounds.Step.put_step 10 "t9" desk))
      (record { total = omega arith; per_aor = λ a. omega arith })

abbrev blank_hash : String → ℕ
blank_hash s = 7

abbrev guard : RegGuard
guard = challenged blank_hash 5 phone "z9hG4bK1" ("n1" ∷ []) new_reg_guard

abbrev noted : RegRecord
noted = add_branch blank_hash 5 "z9hG4bK1" (add_nonces blank_hash 5 ("n1" ∷ []) zero_record)

found : find Addr-discrete (enum_key phone) guard.entries ≡ some noted
unfolding challenged evict find
found = ground arith

counts_here : (countable blank_hash 9 phone "z9hG4bK2" "n1" 3 false guard).1 ≡ true
unfolding countable add_branch add_nonces recent xor_bits set_at
counts_here = rw (found, countable) refl

countable-Issued_example :
    (t : ℕ) × Issued blank_hash
      (record { at_time = 5; src = phone; branch = "z9hG4bK1"; nonces = "n1" ∷ [] } ∷ [])
      (enum_key phone)
      7
      t
    × (9 - t < reg_nonce_ttl)
countable-Issued_example =
    countable-Issued blank_hash 9 phone "z9hG4bK2" "n1" 3 false
      (Forgery.Reach.relay 5 phone "z9hG4bK1" ("n1" ∷ []) Forgery.Reach.start) counts_here

countable-once_example :
    (countable blank_hash 11 phone "z9hG4bK2" "n2" 3 true
      (countable blank_hash 9 phone "z9hG4bK2" "n1" 3 false guard).0).1
    ≡ false
countable-once_example =
    countable-once blank_hash 9 11 phone "z9hG4bK2" "n1" "n2" 3 false true
      (Forgery.Reach.relay 5 phone "z9hG4bK1" ("n1" ∷ []) Forgery.Reach.start) counts_here

abbrev trunk : CarrierBinding String
trunk = record { token = "t1"; carrier = "acme"; node = node; contact = "gw"; expires = 20 }

abbrev guesses : List (String × ℕ)
guesses =
    ("a", 6)
    ∷ ("b", 7)
    ∷ ("c", 8)
    ∷ ("d", 9)
    ∷ ("e", 10)
    ∷ ("f", 11)
    ∷ ("g", 12)
    ∷ ("h", 13)
    ∷ ("i", 14)
    ∷ ("j", 15)
    ∷ []

blocked-distinct_example :
    blocked 90 phone (Distinct.run phone (("a", 5) ∷ guesses) new_enum_limiter)
    ≡ leb enum_max_aors (length (distinct_after [] (("a", 5) ∷ guesses)))
unfolding find
blocked-distinct_example =
    blocked-distinct 5 90 phone "a" guesses new_enum_limiter refl
      (
        omega arith,
        (
          omega arith,
          (
            omega arith,
            (
              omega arith,
              (
                omega arith,
                (omega arith, (omega arith, (omega arith, (omega arith, (omega arith, tt))))),
              ),
            ),
          ),
        ),
      )
      (omega arith)
