-- ===== src/Edge/Dialogs/Search.antt =====
-- The lookups of the dialog table: `early`, `lookup`, `lookupEarly`, `newestRoutedByCallID` and
-- `count` of internal/edge/dialog.go.
use freesbc.Base.{
  ℕ, ◌+◌, String, Bool, true, false, not, ◌&&◌, ◌||◌, Option, none, some, List, [], ◌∷◌,
  text_discrete, if◌then◌else◌,
}
use freesbc.Base.Assoc.{find}
use freesbc.Edge.Dialogs.{
  is_early, is_confirmed, is_ended, DialogRoute, Dialog, DialogTable, same, group, first_of,
  is_early_of,
}

-- `early`.
unfoldable pub early : String → String → DialogTable → Option ℕ
early call_id caller_tag t = first_of (λ o. is_early_of caller_tag (t.store o)) (group call_id t)

-- A confirmed record of these tags, from the caller or to it.
abbrev pub from_caller_of : String → String → Dialog → Bool
from_caller_of from_tag to_tag d = same from_tag d.caller_tag && same to_tag d.callee_tag

abbrev pub from_callee_of : String → String → Dialog → Bool
from_callee_of from_tag to_tag d = same from_tag d.callee_tag && same to_tag d.caller_tag

abbrev pub is_dialog_of : String → String → Dialog → Bool
is_dialog_of from_tag to_tag d =
    is_confirmed d.state && (from_caller_of from_tag to_tag d || from_callee_of from_tag to_tag d)

-- `lookup`: the record, and whether the request is from the caller.
unfoldable pub lookup : String → String → String → DialogTable → Option (ℕ × Bool)
lookup call_id from_tag to_tag t =
    if same from_tag "" || same to_tag ""
    then none
    else elim (first_of (λ o. is_dialog_of from_tag to_tag (t.store o)) (group call_id t)) [
      | none ↦ none
      | some r ↦ some (r, from_caller_of from_tag to_tag (t.store r))
    ]

-- The route of a fork that has one.
abbrev pub routed_fork : String → Dialog → Option DialogRoute
routed_fork tag d = elim (find text_discrete tag d.forks) [
  | none ↦ none
  | some f ↦ if f.routed then some f.route else none
]

abbrev pub with_side : Bool → Option DialogRoute → Option (DialogRoute × Bool)
with_side from_caller none = none
with_side from_caller (some r) = some (r, from_caller)

-- The route of the fork that the tags name, and whether they say the caller sent the request.
abbrev pub early_route : String → String → Dialog → Option (DialogRoute × Bool)
early_route from_tag to_tag d =
    if not (is_early d.state)
    then none
    else (if same from_tag d.caller_tag
        then with_side true (routed_fork to_tag d)
        else (if same to_tag d.caller_tag then with_side false (routed_fork from_tag d) else none))

-- The loop of `lookupEarly`.
abbrev pub scan_early : (ℕ → Dialog) → String → String → List ℕ → Option (ℕ × (DialogRoute × Bool))
scan_early store from_tag to_tag [] = none
scan_early store from_tag to_tag (r ∷ rs) =
    let rest = scan_early store from_tag to_tag rs in
    elim (early_route from_tag to_tag (store r)) [ none ↦ rest | some found ↦ some (r, found) ]

-- `lookupEarly`.
unfoldable pub lookup_early :
    String → String → String → DialogTable → Option (ℕ × (DialogRoute × Bool))
lookup_early call_id from_tag to_tag t =
    if same from_tag "" || same to_tag ""
    then none
    else scan_early t.store from_tag to_tag (group call_id t)

abbrev pub has_route : Dialog → Bool
has_route d = not (is_ended d.state || same d.route.public_remote "")

abbrev pub last_where : (ℕ → Bool) → List ℕ → Option ℕ
last_where p [] = none
last_where p (r ∷ rs) = elim (last_where p rs) [
  | some l ↦ some l
  | none ↦ if p r then some r else none
]

-- `newestRoutedByCallID`.
unfoldable pub newest_routed_by_call_id : String → DialogTable → Option (ℕ × DialogRoute)
newest_routed_by_call_id call_id t =
    elim (last_where (λ r. has_route (t.store r)) (group call_id t)) [
      | none ↦ none
      | some r ↦ some (r, (t.store r).route)
    ]

abbrev pub count_of : (ℕ → Bool) → List ℕ → ℕ
count_of p [] = 0
count_of p (r ∷ rs) = (if p r then 1 else 0) + count_of p rs

abbrev pub count_all : (ℕ → Bool) → List (String × List ℕ) → ℕ
count_all p [] = 0
count_all p ((k, rs) ∷ m) = count_of p rs + count_all p m

-- `count`.
unfoldable pub count : DialogTable → ℕ
count t = count_all (λ r. is_confirmed (t.store r).state) t.by_call_id
