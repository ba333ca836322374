-- ===== src/Edge/Streams/Caps.antt =====
-- The counts of the connection table, and its caps (internal/edge/stream.go).
use freesbc.Base.{
  ℕ, suc, ◌+◌, ◌-◌, ◌≤◌, ◌<◌, ◌≡◌, refl, sym, ite, Bool, true, none, some, List, [], ◌∷◌, ◌++◌,
  arith, length, length-append,
}
use freesbc.Base.Assoc.{find, find-remove, find-put}
use mathlib.Core.Path.{subst}
use freesbc.Net.{Addr, Addr-discrete, stream_key}
use freesbc.Edge.Streams.{
  StreamLimits, StreamRefusal, StreamTable, new_stream_table, open_from, one_if, acquire, release,
}

-- An open connection: the key of its source, and whether it is a carrier's.
pub record Conn : Type 0 where
  pub key : Addr
  pub carrier : Bool

abbrev pub carriers : List Conn → ℕ
carriers [] = 0
carriers (c ∷ cs) = one_if c.carrier + carriers cs

unfoldable pub from_key : Addr → List Conn → ℕ
from_key k [] = 0
from_key k (c ∷ cs) = let rest = from_key k cs in ite (Addr-discrete k c.key) (suc rest) rest

-- The table counts these connections.
pub record Counts (t : StreamTable) (cs : List Conn) : Type 0 where
  pub total : t.total ≡ length cs
  pub carrier : t.carrier ≡ carriers cs
  pub per_ip : (k : Addr) → open_from k t ≡ from_key k cs

-- No cap is exceeded.
pub record WithinCaps (lim : StreamLimits) (cs : List Conn) : Type 0 where
  pub total : length cs ≤ lim.max_total + carriers cs
  pub carrier : carriers cs ≤ lim.max_carrier
  pub per_ip : (k : Addr) → from_key k cs ≤ lim.max_per_ip

carriers-append : (xs ys : List Conn) → carriers (xs ++ ys) ≡ carriers xs + carriers ys
carriers-append [] ys = omega arith
carriers-append (x ∷ xs) ys = omega (arith, carriers-append xs ys)

from_key-append :
    (k : Addr) (xs ys : List Conn) → from_key k (xs ++ ys) ≡ from_key k xs + from_key k ys
unfolding from_key
from_key-append k [] ys = omega arith
from_key-append k (x ∷ xs) ys = ground (arith, from_key-append k xs ys)

carriers-le : (cs : List Conn) → carriers cs ≤ length cs
carriers-le [] = omega arith
carriers-le (c ∷ cs) = ground (arith, carriers-le cs)

acquire-Counts :
    (ip : Addr) (carrier : Bool) (lim : StreamLimits) (t : StreamTable) (cs : List Conn)
    → Counts t cs
    → (acquire ip carrier lim t).1 ≡ none
    → Counts (acquire ip carrier lim t).0 (record { key = stream_key ip; carrier = carrier } ∷ cs)
unfolding acquire from_key
acquire-Counts ip carrier lim t cs h ok = record {
  total = ground (arith, h.total);
  carrier = ground (arith, h.carrier);
  per_ip = λ k. ground (
    arith,
    h.per_ip k,
    h.per_ip (stream_key ip),
    find-put Addr-discrete k (stream_key ip) (open_from (stream_key ip) t + 1) t.per_ip,
  );
}

acquire-WithinCaps :
    (ip : Addr) (carrier : Bool) (lim : StreamLimits) (t : StreamTable) (cs : List Conn)
    → Counts t cs
    → WithinCaps lim cs
    → (acquire ip carrier lim t).1 ≡ none
    → WithinCaps lim (record { key = stream_key ip; carrier = carrier } ∷ cs)
unfolding acquire from_key
acquire-WithinCaps ip carrier lim t cs h w ok = record {
  total = ground (arith, h.total, h.carrier, w.total, carriers-le cs);
  carrier = ground (arith, h.carrier, w.carrier);
  per_ip = λ k. ground (arith, h.per_ip k, w.per_ip k, h.per_ip (stream_key ip));
}

release-Counts :
    (ip : Addr) (carrier : Bool) (t : StreamTable) (xs ys : List Conn)
    → Counts t (xs ++ record { key = stream_key ip; carrier = carrier } ∷ ys)
    → Counts (release ip carrier t) (xs ++ ys)
unfolding release from_key
release-Counts ip carrier t xs ys h =
    let c : Conn = record { key = stream_key ip; carrier = carrier } in
    record {
      total = omega (arith, h.total, length-append xs (c ∷ ys), length-append {0} xs ys);
      carrier = omega (arith, h.carrier, carriers-append xs (c ∷ ys), carriers-append xs ys);
      per_ip = λ k. ground (
        arith,
        h.per_ip k,
        h.per_ip (stream_key ip),
        from_key-append k xs (c ∷ ys),
        from_key-append k xs ys,
        from_key-append (stream_key ip) xs (c ∷ ys),
        find-put Addr-discrete k (stream_key ip) (open_from (stream_key ip) t - 1) t.per_ip,
        find-remove Addr-discrete k (stream_key ip) t.per_ip,
      );
    }

release-WithinCaps :
    (lim : StreamLimits) (c : Conn) (xs ys : List Conn)
    → WithinCaps lim (xs ++ c ∷ ys)
    → WithinCaps lim (xs ++ ys)
unfolding from_key
release-WithinCaps lim c xs ys w = record {
  total = ground (
    arith,
    w.total,
    length-append xs (c ∷ ys),
    length-append xs ys,
    carriers-append xs (c ∷ ys),
    carriers-append xs ys,
  );
  carrier = omega (arith, w.carrier, carriers-append xs (c ∷ ys), carriers-append xs ys);
  per_ip = λ k. ground (arith, w.per_ip k, from_key-append k xs (c ∷ ys), from_key-append k xs ys);
}

-- The connections that are open, in any order of opening, refusing and closing. A refused one leaves
-- the table as `acquire` returns it.
pub data Reach (lim : StreamLimits) : StreamTable → List Conn → Type 0 where
  start : Reach lim new_stream_table []
  opens :
      {t : StreamTable} {cs : List Conn} (ip : Addr) (carrier : Bool)
      → (acquire ip carrier lim t).1 ≡ none
      → Reach lim t cs
      → Reach lim
          (acquire ip carrier lim t).0
          (record { key = stream_key ip; carrier = carrier } ∷ cs)
  refuses :
      {t : StreamTable} {cs : List Conn} {why : StreamRefusal} (ip : Addr) (carrier : Bool)
      → (acquire ip carrier lim t).1 ≡ some why
      → Reach lim t cs
      → Reach lim (acquire ip carrier lim t).0 cs
  closes :
      {t : StreamTable} (cs xs ys : List Conn) (ip : Addr) (carrier : Bool)
      → cs ≡ xs ++ record { key = stream_key ip; carrier = carrier } ∷ ys
      → Reach lim t cs
      → Reach lim (release ip carrier t) (xs ++ ys)

acquire_refused :
    (ip : Addr) (carrier : Bool) (lim : StreamLimits) (t : StreamTable) {why : StreamRefusal}
    → (acquire ip carrier lim t).1 ≡ some why
    → (acquire ip carrier lim t).0 ≡ t
unfolding acquire
acquire_refused ip carrier lim t h = ground arith

-- The table counts exactly, and the caps hold: after any sequence of accepted, refused and closed
-- connections under one set of limits, the table's counts are those of the connections that are open,
-- and these exceed none of the caps: the public one, the carriers', and the one per source.
pub Reach-Counts :
    {lim : StreamLimits} {t : StreamTable} {cs : List Conn}
    → Reach lim t cs
    → Counts t cs × WithinCaps lim cs
unfolding from_key find
Reach-Counts start = (
  record { total = refl; carrier = refl; per_ip = λ k. refl },
  record { total = omega arith; carrier = omega arith; per_ip = λ k. omega arith },
)
Reach-Counts {lim} (opens {t} {cs} ip carrier ok r) =
    let (h, w) = Reach-Counts r in
    (acquire-Counts ip carrier lim t cs h ok, acquire-WithinCaps ip carrier lim t cs h w ok)
Reach-Counts {lim} (refuses {t} {cs} ip carrier no_slot r) =
    let (h, w) = Reach-Counts r in
    (subst (λ u. Counts u cs) (sym (acquire_refused ip carrier lim t no_slot)) h, w)
Reach-Counts {lim} (closes {t} cs xs ys ip carrier e r) =
    let (h, w) = Reach-Counts r in
    (
      release-Counts ip carrier t xs ys (subst (λ l. Counts t l) e h),
      release-WithinCaps lim _ xs ys (subst (λ l. WithinCaps lim l) e w),
    )

-- A flood of public connections cannot starve the carriers: on a table that counts the open
-- connections, a carrier's connection gets a slot whenever fewer than the carriers' cap are carriers'
-- and fewer than the cap per source are from its source, however many public ones are open.
pub acquire_carrier :
    (ip : Addr) (lim : StreamLimits) (t : StreamTable) (cs : List Conn)
    → Counts t cs
    → carriers cs < lim.max_carrier
    → from_key (stream_key ip) cs < lim.max_per_ip
    → (acquire ip true lim t).1 ≡ none
unfolding acquire
acquire_carrier ip lim t cs h few few_from = ground (arith, h.carrier, h.per_ip (stream_key ip))
