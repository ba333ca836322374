-- ===== src/Edge/Enumeration.antt =====
-- The REGISTER enumeration limit: enumLimiter of internal/edge/admission.go. The map with its LRU
-- list is one association list, most recently rejected first. Calls run under the limiter's mutex.
pub mod Distinct
use freesbc.Base.{
  ℕ, zero, suc, ◌+◌, ◌-◌, ◌*◌, ◌/◌, ◌%◌, ◌^◌, ◌≤◌, ◌<◌, min, max, String, ◌≡◌, refl, sym, ap, ◌∙◌,
  ◌≢◌, ◌↔◌, ◌⊎◌, inl, inr, ite, if_pos, if_neg, Bool, true, false, not, ◌&&◌, ◌||◌, Option, none,
  some, List, [], ◌∷◌, ◌++◌, map, arith, ℕ_discrete, text_discrete, ltb, leb, ◌==◌, if◌then◌else◌,
  ltb→lt, lt→ltb, ltb_false→le, leb→le, leb_false→lt, le→leb, Bool-cases, Option-cases, false-true,
  length, drop_back, take, drop, keep, All, length-append, length-drop_back, length-drop_back-le,
  length-keep-le, length-take-le,
}
use freesbc.Base.Assoc.{
  find, remove, put, NoDup, find-remove, find-put, find-remove_self, find-remove_ne, find-put_self,
  find-put_ne, length-remove-le, length-remove_known, length-put_known, length-put_new,
  NoDup-remove, NoDup-put, passing, find-keep-none, find-keep, NoDup-keep, find-drop_back,
  find-drop_back-none, NoDup-drop_back, NoDup-touch, find-front_self, find-front_ne,
}
use freesbc.Base.Lru.{
  evict, length-evict, IsLru, IsLru-touch, IsLru-push, find-push_ne, find-touch_ne,
}
use freesbc.Net.{Addr, Addr-discrete}
use freesbc.Edge.RegGuard.{enum_key}

abbrev pub enum_window : ℕ
enum_window = 10 * 60 * 1000000000

abbrev pub enum_max_aors : ℕ
enum_max_aors = 10

abbrev pub enum_max_sources : ℕ
enum_max_sources = 4096

pub record EnumEntry : Type 0 where
  pub start : ℕ
  pub aors : List String

pub record EnumLimiter : Type 0 where
  pub entries : List (Addr × EnumEntry)
  pub max_sources : ℕ

-- `newEnumLimiter`.
abbrev pub new_enum_limiter : EnumLimiter
new_enum_limiter = record { entries = []; max_sources = enum_max_sources }

-- `blocked`.
unfoldable pub blocked : ℕ → Addr → EnumLimiter → Bool
blocked now ip l = elim (find Addr-discrete (enum_key ip) l.entries) [
  | none ↦ false
  | some e ↦ ltb (now - e.start) enum_window && leb enum_max_aors (length e.aors)
]

unfoldable pub has_text : String → List String → Bool
has_text a [] = false
has_text a (b ∷ l) = let rest = has_text a l in ite (text_discrete b a) true rest

-- A known entry, whose window starts anew when it has passed.
unfoldable pub renewed : ℕ → EnumEntry → EnumEntry
renewed now e = if leb enum_window (now - e.start) then record { start = now; aors = [] } else e

-- The end of `rejected`: the entry, and whether it has just reached the limit.
unfoldable pub note_aor : String → EnumEntry → EnumEntry × Bool
unfolding has_text
note_aor aor e =
    if leb enum_max_aors (length e.aors)
    then (e, false)
    else if has_text aor e.aors
    then (e, false)
    else (record e { aors = e.aors ++ (aor ∷ []) }, length (e.aors ++ (aor ∷ [])) == enum_max_aors)

-- `rejected`.
unfoldable pub rejected : ℕ → Addr → String → EnumLimiter → EnumLimiter × Bool
unfolding renewed note_aor
rejected now ip aor l =
    let key = enum_key ip in
    elim (find Addr-discrete key l.entries) [
      | some e ↦
          let (e', reached) = note_aor aor (renewed now e) in
          (record l { entries = (key, e') ∷ remove Addr-discrete key l.entries }, reached)
      | none ↦
          let (e', reached) = note_aor aor (record { start = now; aors = [] }) in
          (record l { entries = (key, e') ∷ evict l.max_sources l.entries }, reached)
    ]

-- `countsAsEnumeration`.
abbrev pub counts_as_enumeration : ℕ → Bool
counts_as_enumeration code = code == 403 || code == 404
