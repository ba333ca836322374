-- ===== src/Edge/Streams.antt =====
-- The cap on open stream connections: the connection table of internal/edge/stream.go. Calls run
-- under the table's mutex. Every release belongs to one earlier acquire (`closeOnce`), so the counts
-- never fall below 0.
pub mod Caps
use freesbc.Base.{
  ℕ, zero, suc, ◌+◌, ◌-◌, ◌*◌, ◌/◌, ◌%◌, ◌^◌, ◌≤◌, ◌<◌, min, max, String, ◌≡◌, refl, sym, ap, ◌∙◌,
  ◌≢◌, ◌↔◌, ◌⊎◌, inl, inr, ite, if_pos, if_neg, Bool, true, false, not, ◌&&◌, ◌||◌, Option, none,
  some, List, [], ◌∷◌, ◌++◌, map, arith, ℕ_discrete, text_discrete, ltb, leb, ◌==◌, if◌then◌else◌,
  ltb→lt, lt→ltb, ltb_false→le, leb→le, leb_false→lt, le→leb, Bool-cases, Option-cases, false-true,
  length, drop_back, take, drop, keep, All, length-append, length-drop_back, length-drop_back-le,
  length-keep-le, length-take-le,
}
use freesbc.Base.Assoc.{
  find, remove, put, NoDup, find-remove, find-put, find-remove_self, find-remove_ne, find-put_self,
  find-put_ne, length-remove-le, length-remove_known, length-put_known, length-put_new,
  NoDup-remove, NoDup-put, passing, find-keep-none, find-keep, NoDup-keep, find-drop_back,
  find-drop_back-none, NoDup-drop_back, NoDup-touch, find-front_self, find-front_ne,
}
use freesbc.Base.Lru.{
  evict, length-evict, IsLru, IsLru-touch, IsLru-push, find-push_ne, find-touch_ne,
}
use freesbc.Net.{Addr, Addr-discrete, stream_key}

-- The part of `streamLimits` that bounds the number of connections.
pub record StreamLimits : Type 0 where
  pub max_per_ip : ℕ
  pub max_total : ℕ
  pub max_carrier : ℕ

abbrev pub default_stream_limits : StreamLimits
default_stream_limits = record { max_per_ip = 256; max_total = 10000; max_carrier = 1024 }

-- The refusals of `acquire`.
pub data StreamRefusal : Type 0 where
  refuse_global_cap refuse_ip_cap : StreamRefusal

pub record StreamTable : Type 0 where
  pub total : ℕ
  pub carrier : ℕ
  pub per_ip : List (Addr × ℕ)

abbrev pub new_stream_table : StreamTable
new_stream_table = record { total = 0; carrier = 0; per_ip = [] }

-- `t.perIP[k]`: 0 for a missing key.
abbrev pub or_zero : Option ℕ → ℕ
or_zero none = 0
or_zero (some n) = n

abbrev pub open_from : Addr → StreamTable → ℕ
open_from k t = or_zero (find Addr-discrete k t.per_ip)

-- Whether the cap of the connection's class is reached.
unfoldable pub class_full : Bool → StreamLimits → StreamTable → Bool
class_full true lim t = leb lim.max_carrier t.carrier
class_full false lim t = leb lim.max_total (t.total - t.carrier)

abbrev pub one_if : Bool → ℕ
one_if true = 1
one_if false = 0

-- `acquire`: `none` is a slot.
unfoldable pub acquire :
    Addr → Bool → StreamLimits → StreamTable → StreamTable × Option StreamRefusal
unfolding class_full
acquire ip carrier lim t =
    let k = stream_key ip in
    if class_full carrier lim t
    then (t, some refuse_global_cap)
    else if leb lim.max_per_ip (open_from k t)
    then (t, some refuse_ip_cap)
    else (
      record t {
        total = t.total + 1;
        carrier = t.carrier + one_if carrier;
        per_ip = put Addr-discrete k (open_from k t + 1) t.per_ip;
      },
      none,
    )

-- `release`.
unfoldable pub release : Addr → Bool → StreamTable → StreamTable
release ip carrier t =
    let k = stream_key ip in
    record t {
      total = t.total - 1;
      carrier = t.carrier - one_if carrier;
      per_ip =
          if leb (open_from k t) 1
          then remove Addr-discrete k t.per_ip
          else put Addr-discrete k (open_from k t - 1) t.per_ip;
    }

-- `open`.
abbrev pub open_count : StreamTable → ℕ
open_count t = t.total
