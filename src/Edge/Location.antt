-- ===== src/Edge/Location.antt =====
-- The table of registration bindings: internal/edge/location.go. Bindings are shared between the
-- three indexes by pointer: a reference is a number, and `heap` gives what it points to. Each method
-- runs under the table's mutex and reads the clock once. The removal hook is represented by the
-- tokens it is handed.
pub mod Table
use freesbc.Base.{
  ℕ, zero, suc, ◌+◌, ◌-◌, ◌*◌, ◌/◌, ◌%◌, ◌^◌, ◌≤◌, ◌<◌, min, max, String, ◌≡◌, refl, sym, ap, ◌∙◌,
  ◌≢◌, ◌↔◌, ◌⊎◌, inl, inr, ite, if_pos, if_neg, Bool, true, false, not, ◌&&◌, ◌||◌, Option, none,
  some, List, [], ◌∷◌, ◌++◌, map, arith, ℕ_discrete, text_discrete, ltb, leb, ◌==◌, if◌then◌else◌,
  ltb→lt, lt→ltb, ltb_false→le, leb→le, leb_false→lt, le→leb, Bool-cases, Option-cases, false-true,
  length, drop_back, take, drop, keep, All, length-append, length-drop_back, length-drop_back-le,
  length-keep-le, length-take-le,
}
use freesbc.Base.Assoc.{
  find, remove, put, NoDup, find-remove, find-put, find-remove_self, find-remove_ne, find-put_self,
  find-put_ne, length-remove-le, length-remove_known, length-put_known, length-put_new,
  NoDup-remove, NoDup-put, passing, find-keep-none, find-keep, NoDup-keep, find-drop_back,
  find-drop_back-none, NoDup-drop_back, NoDup-touch, find-front_self, find-front_ne,
}
use freesbc.Base.Lru.{
  evict, length-evict, IsLru, IsLru-touch, IsLru-push, find-push_ne, find-touch_ne,
}
use freesbc.Base.Text.{to_lower, text_eq}
use freesbc.Net.{Addr, Addr-discrete, AddrPort, AddrPort-discrete, unmap}

pub record Binding : Type 0 where
  pub token : String
  pub aor : String
  pub user : String
  pub transport : String
  pub source : AddrPort
  pub expires_at : ℕ
  pub call_id : String

-- `Expired`.
abbrev pub expired : ℕ → Binding → Bool
expired now b = leb b.expires_at now

pub record Location : Type 0 where
  pub heap : ℕ → Binding
  pub next_ref : ℕ
  pub by_token : List (String × ℕ)
  pub by_aor : List (String × List ℕ)
  pub by_source : List (AddrPort × List ℕ)
  pub by_ip : List (Addr × ℕ)
  pub max_total : ℕ
  pub max_per_aor : ℕ
  pub hooked : Bool
  pub removed : List String

-- `defaultMaxBindings`, `defaultMaxPerAOR` and the scopes of `ErrTooManyBindings`.
abbrev pub default_max_bindings : ℕ
default_max_bindings = 20000

abbrev pub default_max_per_aor : ℕ
default_max_per_aor = 10

pub data TooManyBindings : Type 0 where
  per_aor total_full : TooManyBindings

abbrev pub zero_binding : Binding
zero_binding = record {
  token = "";
  aor = "";
  user = "";
  transport = "";
  source = record { addr = Addr.invalid; port = 0 };
  expires_at = 0;
  call_id = "";
}

-- `NewLocation`.
abbrev pub new_location : Location
new_location = record {
  heap = λ r. zero_binding;
  next_ref = 0;
  by_token = [];
  by_aor = [];
  by_source = [];
  by_ip = [];
  max_total = default_max_bindings;
  max_per_aor = default_max_per_aor;
  hooked = false;
  removed = [];
}

-- A missing key of a map of slices is the empty slice.
abbrev pub or_empty : Option (List ℕ) → List ℕ
or_empty none = []
or_empty (some l) = l

abbrev pub of_aor : String → Location → List ℕ
of_aor aor l = or_empty (find text_discrete aor l.by_aor)

abbrev pub at_source : AddrPort → Location → List ℕ
at_source src l = or_empty (find AddrPort-discrete src l.by_source)

abbrev pub count_or_zero : Option ℕ → ℕ
count_or_zero none = 0
count_or_zero (some n) = n

abbrev pub ip_count : Addr → Location → ℕ
ip_count ip l = count_or_zero (find Addr-discrete ip l.by_ip)

-- `append(list[:i], list[i+1:]...)`, and `list[i]`.
unfoldable pub erase_at : ℕ → List ℕ → List ℕ
erase_at i [] = []
erase_at zero (x ∷ l) = l
erase_at (suc i) (x ∷ l) = x ∷ erase_at i l

unfoldable pub nth : ℕ → List ℕ → Option ℕ
nth i [] = none
nth zero (x ∷ l) = some x
nth (suc i) (x ∷ l) = nth i l

-- The first occurrence of a pointer, taken out; its position.
unfoldable pub erase_ref : ℕ → List ℕ → List ℕ
erase_ref r [] = []
erase_ref r (x ∷ l) = let rest = erase_ref r l in if x == r then l else x ∷ rest

abbrev pub after_one : Option ℕ → Option ℕ
after_one none = none
after_one (some i) = some (suc i)

unfoldable pub position : ℕ → List ℕ → Option ℕ
position r [] = none
position r (x ∷ l) = let rest = position r l in if x == r then some 0 else after_one rest

-- A map entry that is set, or deleted when its list is empty.
unfoldable pub set_or_delete :
    {K : Type 0} → Discrete K → K → List ℕ → List (K × List ℕ) → List (K × List ℕ)
set_or_delete dec k [] m = remove dec k m
set_or_delete dec k (x ∷ l) m = put dec k (x ∷ l) m

-- `indexSourceLocked`.
unfoldable pub index_source_locked : ℕ → Location → Location
index_source_locked r l =
    let b = l.heap r in
    let ip = unmap b.source.addr in
    record l {
      by_source = put AddrPort-discrete b.source (at_source b.source l ++ (r ∷ [])) l.by_source;
      by_ip = put Addr-discrete ip (ip_count ip l + 1) l.by_ip;
    }

-- `unindexSourceLocked`.
unfoldable pub unindex_source_locked : ℕ → Location → Location
unfolding erase_ref set_or_delete
unindex_source_locked r l =
    let b = l.heap r in
    let ip = unmap b.source.addr in
    record l {
      by_source =
          set_or_delete AddrPort-discrete b.source (erase_ref r (at_source b.source l)) l.by_source;
      by_ip =
          if leb (ip_count ip l) 1
          then remove Addr-discrete ip l.by_ip
          else put Addr-discrete ip (ip_count ip l - 1) l.by_ip;
    }

-- `deleteLocked`. An index out of range, which no caller passes, leaves the table as it is.
unfoldable pub delete_locked : String → ℕ → Location → Location
unfolding erase_at nth unindex_source_locked set_or_delete
delete_locked aor i l = elim (nth i (of_aor aor l)) [
  | none ↦ l
  | some r ↦
      let b = l.heap r in
      let l' = unindex_source_locked r (record l {
        by_token = remove text_discrete b.token l.by_token;
        removed = if l.hooked then l.removed ++ (b.token ∷ []) else l.removed;
      }) in
      record l' { by_aor = set_or_delete text_discrete aor (erase_at i (of_aor aor l)) l'.by_aor }
]

-- Whether what a position points to has expired.
abbrev pub lapsed : ℕ → (ℕ → Binding) → Option ℕ → Bool
lapsed now heap none = false
lapsed now heap (some r) = expired now (heap r)

-- `pruneAORLocked`: the positions below `i`, from the last one down.
unfoldable pub prune_positions : ℕ → ℕ → String → Location → Location × ℕ
unfolding nth delete_locked
prune_positions now zero aor l = (l, 0)
prune_positions now (suc i) aor l =
    let gone = lapsed now l.heap (nth i (of_aor aor l)) in
    let l' = if gone then delete_locked aor i l else l in
    let (final, n) = prune_positions now i aor l' in (final, if gone then n + 1 else n)

unfoldable pub prune_aor_locked : ℕ → String → Location → Location × ℕ
unfolding prune_positions
prune_aor_locked now aor l = prune_positions now (length (of_aor aor l)) aor l

-- `pruneLocked`, over the keys of `byAOR`.
unfoldable pub prune_keys : ℕ → List String → Location → Location × ℕ
unfolding prune_aor_locked
prune_keys now [] l = (l, 0)
prune_keys now (aor ∷ keys) l =
    let (l', n) = prune_aor_locked now aor l in
    let (final, m) = prune_keys now keys l' in (final, n + m)

unfoldable pub prune_locked : ℕ → Location → Location × ℕ
unfolding prune_keys
prune_locked now l = prune_keys now (map (λ e. e.0) l.by_aor) l

-- `flushRemoved`: the table after it, and what the hook is told.
unfoldable pub flush_removed : Location → Location × List String
flush_removed l = (record l { removed = [] }, if l.hooked then l.removed else [])
