-- ===== src/Edge/Location/Table.antt =====
-- The exported methods of the registration table (internal/edge/location.go).
pub mod Bounds
pub mod Lookups
use freesbc.Base.{
  ℕ, zero, suc, ◌+◌, ◌-◌, ◌*◌, ◌/◌, ◌%◌, ◌^◌, ◌≤◌, ◌<◌, min, max, String, ◌≡◌, refl, sym, ap, ◌∙◌,
  ◌≢◌, ◌↔◌, ◌⊎◌, inl, inr, ite, if_pos, if_neg, Bool, true, false, not, ◌&&◌, ◌||◌, Option, none,
  some, List, [], ◌∷◌, ◌++◌, map, arith, ℕ_discrete, text_discrete, ltb, leb, ◌==◌, if◌then◌else◌,
  ltb→lt, lt→ltb, ltb_false→le, leb→le, leb_false→lt, le→leb, Bool-cases, Option-cases, false-true,
  length, drop_back, take, drop, keep, All, length-append, length-drop_back, length-drop_back-le,
  length-keep-le, length-take-le,
}
use freesbc.Base.Assoc.{
  find, remove, put, NoDup, find-remove, find-put, find-remove_self, find-remove_ne, find-put_self,
  find-put_ne, length-remove-le, length-remove_known, length-put_known, length-put_new,
  NoDup-remove, NoDup-put, passing, find-keep-none, find-keep, NoDup-keep, find-drop_back,
  find-drop_back-none, NoDup-drop_back, NoDup-touch, find-front_self, find-front_ne,
}
use freesbc.Base.Lru.{
  evict, length-evict, IsLru, IsLru-touch, IsLru-push, find-push_ne, find-touch_ne,
}
use freesbc.Net.{Addr, Addr-discrete, AddrPort, AddrPort-discrete, unmap}
use freesbc.Edge.Location.{
  Binding, expired, Location, TooManyBindings, of_aor, at_source, ip_count, nth, position,
  index_source_locked, unindex_source_locked, delete_locked, prune_aor_locked, prune_locked,
  flush_removed,
}

-- Whether two strings are equal.
abbrev pub same : String → String → Bool
same a b = ite (text_discrete a b) true false

abbrev further : Option (ℕ × ℕ) → Option (ℕ × ℕ)
further none = none
further (some e) = some (suc e.0, e.1)

-- The pointer among `refs` whose binding has this Call-ID, and its position.
unfoldable pub same_call : (ℕ → Binding) → String → List ℕ → Option (ℕ × ℕ)
same_call heap call_id [] = none
same_call heap call_id (r ∷ refs) =
    let rest = same_call heap call_id refs in
    if same (heap r).call_id call_id then some (0, r) else further rest

-- `*e = b`.
abbrev pub store : ℕ → Binding → Location → Location
store r b l = record l { heap = λ q. if q == r then b else l.heap q }

-- A refresh in place: the token stays.
unfoldable pub refresh : ℕ → Binding → Location → Location
unfolding index_source_locked unindex_source_locked
refresh r b l =
    let kept = record b { token = (l.heap r).token } in
    index_source_locked r (store r kept (unindex_source_locked r l))

-- A new binding, in all the indexes.
unfoldable pub insert : Binding → Location → Location
unfolding index_source_locked
insert b l =
    let r = l.next_ref in
    let l' = store r b l in
    index_source_locked r (record l' {
      next_ref = r + 1;
      by_token = put text_discrete b.token r l'.by_token;
      by_aor = put text_discrete b.aor (of_aor b.aor l ++ (r ∷ [])) l'.by_aor;
    })

-- What `Put` returns: the stored binding's pointer, or the error.
pub data PutResult : Type 0 where
  stored : ℕ → PutResult
  refused : TooManyBindings → PutResult

-- `Put` after its sweep. `fresh` is what `NewToken` gives.
unfoldable pub put_swept : String → Binding → Location → Location × PutResult
unfolding same_call refresh insert
put_swept fresh b l = elim (same_call l.heap b.call_id (of_aor b.aor l)) [
  | some e ↦ (refresh e.1 b l, stored e.1)
  | none ↦
      if leb l.max_per_aor (length (of_aor b.aor l))
      then (l, refused TooManyBindings.per_aor)
      else if leb l.max_total (length l.by_token)
      then (l, refused TooManyBindings.total_full)
      else (insert (if same b.token "" then record b { token = fresh } else b) l, stored l.next_ref)
]

-- `Put`: the table, what is returned, and the tokens the hook is told.
unfoldable pub put_binding : ℕ → String → Binding → Location → (Location × PutResult) × List String
unfolding prune_aor_locked put_swept flush_removed
put_binding now fresh b l =
    let (l', result) = put_swept fresh b (prune_aor_locked now b.aor l).0 in
    let (l'', told) = flush_removed l' in ((l'', result), told)

-- `Remove`.
unfoldable pub remove_binding :
    String → String → Location → (Location × Option Binding) × List String
unfolding same_call delete_locked flush_removed
remove_binding aor call_id l = elim (same_call l.heap call_id (of_aor aor l)) [
  | none ↦ let (l', told) = flush_removed l in ((l', none), told)
  | some e ↦
      let (l', told) = flush_removed (delete_locked aor e.0 l) in ((l', some (l.heap e.1)), told)
]

unfoldable pub remove_refs : List ℕ → Location → Location
unfolding position delete_locked
remove_refs [] l = l
remove_refs (r ∷ refs) l =
    let aor = (l.heap r).aor in
    elim (position r (of_aor aor l)) [
      | none ↦ remove_refs refs l
      | some i ↦ remove_refs refs (delete_locked aor i l)
    ]

-- `Prune`.
unfoldable pub prune : ℕ → Location → (Location × ℕ) × List String
unfolding prune_locked flush_removed
prune now l =
    let (l', n) = prune_locked now l in let (l'', told) = flush_removed l' in ((l'', n), told)

-- `SetOnRemove`.
abbrev pub set_on_remove : Location → Location
set_on_remove l = record l { hooked = true }

-- `HasIP`.
unfoldable pub has_ip : Addr → Location → Bool
has_ip ip l = ltb 0 (ip_count (unmap ip) l)

abbrev or_first : Option Binding → Binding → Option Binding
or_first none b = some b
or_first (some a) b = some a

-- `ByToken`.
unfoldable pub lookup_token : ℕ → String → Location → Option Binding
lookup_token now token l = elim (find text_discrete token l.by_token) [
  | none ↦ none
  | some r ↦ if expired now (l.heap r) then none else some (l.heap r)
]

-- `Count`.
abbrev pub count : Location → ℕ
count l = length l.by_token

-- `strings.EqualFold` of the standard library.
module _ (equal_fold : String → String → Bool) where
  -- The bindings of a source that `removeBySource` takes: an empty transport is any.
  unfoldable pub victims : (ℕ → Binding) → String → List ℕ → List ℕ
  victims heap transport refs =
      keep (λ r. same transport "" || equal_fold (heap r).transport transport) refs

  -- `removeBySource`; `RemoveBySource` passes the empty transport, `RemoveBySourceOn` a transport.
  unfoldable pub remove_by_source : String → AddrPort → Location → (Location × ℕ) × List String
  unfolding victims remove_refs flush_removed
  remove_by_source transport src l =
      let gone = victims l.heap transport (at_source src l) in
      let (l', told) = flush_removed (remove_refs gone l) in ((l', length gone), told)

  -- A live binding over the transport.
  abbrev pub live_over : ℕ → String → Binding → Bool
  live_over now transport b = equal_fold b.transport transport && not (expired now b)

  -- `HasSource`: its loop, and the method.
  unfoldable pub any_live : ℕ → (ℕ → Binding) → String → List ℕ → Bool
  any_live now heap transport [] = false
  any_live now heap transport (r ∷ refs) =
      let rest = any_live now heap transport refs in
      if live_over now transport (heap r) then true else rest

  unfoldable pub has_source : ℕ → String → AddrPort → Location → Bool
  unfolding any_live
  has_source now transport src l = any_live now l.heap transport (at_source src l)

  -- `SourceBinding`: its loop, with `first` the first live binding so far, and the method.
  unfoldable pub scan_source :
      ℕ → (ℕ → Binding) → String → String → Option Binding → List ℕ → Option Binding
  scan_source now heap transport user first [] = first
  scan_source now heap transport user first (r ∷ refs) =
      let b = heap r in
      let skipped = scan_source now heap transport user first refs in
      let on = scan_source now heap transport user (or_first first b) refs in
      if not (live_over now transport b)
      then skipped
      else if not (same user "") && equal_fold b.user user
      then some b
      else on

  unfoldable pub source_binding : ℕ → String → AddrPort → String → Location → Option Binding
  unfolding scan_source
  source_binding now transport src user l =
      scan_source now l.heap transport user none (at_source src l)

-- `ByAOR`, with the library's `strings.ToLower`.
unfoldable pub lookup_aor : (String → String) → ℕ → String → Location → List Binding
lookup_aor lower now aor l =
    map (λ r. l.heap r) (keep (λ r. not (expired now (l.heap r))) (of_aor (lower aor) l))
