-- ===== src/Edge/Dialogs/Listed.antt =====
-- Which records the dialog table lists (internal/edge/dialog.go).
use freesbc.Base.{
  ℕ, suc, ◌+◌, ◌-◌, String, ◌≡◌, refl, sym, ap, ◌∙◌, ◌≢◌, inl, inr, ite, if_pos, if_neg, Bool, true,
  false, not, ◌&&◌, ◌||◌, List, [], ◌∷◌, ◌++◌, arith, ℕ_discrete, text_discrete, ltb, ◌==◌,
  if◌then◌else◌, Bool-cases,
}
use freesbc.Base.Assoc.{find, put, find-remove, find-put}
use mathlib.Core.Path.{subst}
use freesbc.Edge.Dialogs.{
  is_early, is_ended, EndReason, DialogRoute, Plane, Dialog, DialogTable, set_cell,
  new_dialog_table, Invite, same, or_empty, group, close, erase_first, put_group, remove_locked,
}
use freesbc.Edge.Dialogs.Calls.{update, accepted, confirm, laid_down, lay_down, finish, has_media}
use freesbc.Edge.Dialogs.Slots.{with_record, begin-cases, early_state}
use freesbc.Edge.Dialogs.Ends.{finish-Still}
use freesbc.Edge.Dialogs.Calm.{Calm}
use freesbc.Edge.Dialogs.Over.{lay_down-store, lay_down-gone, set_cell-off, set_cell-at}
use freesbc.Edge.Dialogs.Reach.{
  run_method, run_method-Calm, Step, begins, acts, confirms, ends, finishes, closes, Steps, stays,
  goes,
}

-- How often a record stands in a list.
abbrev pub occurs : ℕ → List ℕ → ℕ
occurs r [] = 0
occurs r (x ∷ xs) = (if x == r then 1 else 0) + occurs r xs

pub occurs-append : (r : ℕ) (xs ys : List ℕ) → occurs r (xs ++ ys) ≡ occurs r xs + occurs r ys
occurs-append r [] ys = omega arith
occurs-append r (x ∷ xs) ys = omega (arith, occurs-append r xs ys)

occurs-erase_self : (r : ℕ) (xs : List ℕ) → occurs r (erase_first r xs) ≡ occurs r xs - 1
occurs-erase_self r [] = refl
occurs-erase_self r (x ∷ xs) = ground (arith, occurs-erase_self r xs)

occurs-erase_ne : (r k : ℕ) (xs : List ℕ) → k ≢ r → occurs k (erase_first r xs) ≡ occurs k xs
occurs-erase_ne r k [] ne = refl
occurs-erase_ne r k (x ∷ xs) ne = ground (arith, ne, occurs-erase_ne r k xs ne)

-- The record was begun with this Call-ID, and has not ended.
abbrev pub live_as : String → ℕ → ℕ → Dialog → Bool
live_as k r next d = ltb r next && not (is_ended d.state) && same d.call_id k

abbrev pub is_live_in : String → ℕ → DialogTable → Bool
is_live_in k r t = live_as k r t.next (t.store r)

abbrev pub one_if : Bool → ℕ
one_if b = if b then 1 else 0

-- The table lists, under each Call-ID, the records of that Call-ID that have not ended, each once.
unfoldable pub Lists : DialogTable → Type 0
Lists t = (k : String) (r : ℕ) → occurs r (group k t) ≡ one_if (is_live_in k r t)

-- Two tables with the same lists and the same live records.
abbrev SameLive : DialogTable → DialogTable → Type 0
SameLive t u =
    (u.next ≡ t.next)
    × (u.by_call_id ≡ t.by_call_id)
    × ((r : ℕ) → is_ended (u.store r).state ≡ is_ended (t.store r).state)
    × ((r : ℕ) → (u.store r).call_id ≡ (t.store r).call_id)

SameLive-Lists : (t u : DialogTable) → SameLive t u → Lists t → Lists u
unfolding Lists
SameLive-Lists t u (nx, groups, state, call) lists k r =
    rw (groups, nx, state r, call r) (lists k r)

Calm-Lists : (t u : DialogTable) → Calm t u → Lists t → Lists u
Calm-Lists t u calm lists =
    SameLive-Lists t u
      (
        calm.same_next,
        calm.same_groups,
        λ r. ap is_ended (calm.each_keeps r).same_state,
        λ r. (calm.each_keeps r).same_call,
      )
      lists

confirm-Lists :
    (now r : ℕ) (tag : String) (route : DialogRoute) (t : DialogTable)
    → Lists t
    → Lists (confirm now r tag route t).0
unfolding confirm
confirm-Lists now r tag route t lists =
    let d = t.store r in
    let d1 = accepted now tag route d in
    elim (Bool-cases (not (is_early d.state) || not (has_media d.media) || d.cancelled)) [
      | inl no_way ↦ rw no_way lists
      | inr way ↦
          let was = early_state d.state (ground (arith, way)) in
          let u = record (update r (accepted now tag route) t) { gauge = t.gauge + 1 } in
          let lists_u : Lists u =
            SameLive-Lists t u
              (
                refl,
                refl,
                λ k. elim (ℕ_discrete k r) [
                  | yes e ↦
                      ap (λ x. is_ended x.state) (ap u.store e ∙ set_cell-at r d1 t.store)
                      ∙ sym (ap is_ended (ap (λ j. (t.store j).state) e ∙ was))
                  | no ne ↦ ap (λ x. is_ended x.state) (set_cell-off r k d1 t.store ne)
                ],
                λ k. elim (ℕ_discrete k r) [
                  | yes e ↦
                      ap (λ x. x.call_id) (ap u.store e ∙ set_cell-at r d1 t.store)
                      ∙ sym (ap (λ j. (t.store j).call_id) e)
                  | no ne ↦ ap (λ x. x.call_id) (set_cell-off r k d1 t.store ne)
                ],
              )
              lists in
          rw way lists_u
    ]

find-put_group :
    (k j : String) (l : List ℕ) (m : List (String × List ℕ))
    → or_empty (find text_discrete j (put_group k l m))
      ≡ ite (text_discrete j k) l (or_empty (find text_discrete j m))
find-put_group k j [] m = ground (arith, find-remove text_discrete j k m)
find-put_group k j (x ∷ xs) m = ground (arith, find-put text_discrete j k (x ∷ xs) m)

group-put :
    (k call : String) (l : List ℕ) (m : List (String × List ℕ))
    → or_empty (find text_discrete k (put text_discrete call l m))
      ≡ ite (text_discrete k call) l (or_empty (find text_discrete k m))
group-put k call l m = ground (arith, find-put text_discrete k call l m)

same-yes : (s t : String) → s ≡ t → same s t ≡ true
same-yes s t e = rw (if_pos (text_discrete s t) e) refl

same-no : (s t : String) → s ≢ t → same s t ≡ false
same-no s t ne = rw (if_neg (text_discrete s t) ne) refl

-- The two new facts of `with_record`: the record at the end, and the group with it.
with_record-live :
    (req : Invite) (plane : Plane) (t : DialogTable) (k : String) (r : ℕ)
    → one_if (is_live_in k r (with_record req plane t))
      ≡ one_if (is_live_in k r t) + one_if ((r == t.next) && same req.call_id k)
with_record-live req plane t k r = elim (ℕ_discrete r t.next) [
  | yes e ↦
      let n : (r == t.next) ≡ true = ground (arith, e) in
      let lt : ltb r (suc t.next) ≡ true = ground (arith, e) in
      let ge : ltb r t.next ≡ false = ground (arith, e) in rw (n, lt, ge) (omega arith)
  | no ne ↦
      let n : (r == t.next) ≡ false = ground (arith, ne) in
      let lt : ltb r (suc t.next) ≡ ltb r t.next = ground (arith, ne) in rw (n, lt) (omega arith)
]

with_record-Lists :
    (req : Invite) (plane : Plane) (t : DialogTable) → Lists t → Lists (with_record req plane t)
unfolding Lists
with_record-Lists req plane t lists k r =
    let call = req.call_id in
    let grp = group-put k call (group call t ++ (t.next ∷ [])) t.by_call_id in
    let more = occurs-append r (group call t) (t.next ∷ []) in
    ap (occurs r) grp
    ∙ elim (text_discrete k call) [
      | yes e ↦
          let here : occurs r (group call t) ≡ occurs r (group k t) =
            ap (λ c. occurs r (group c t)) (sym e) in
          let same_call : same call k ≡ true = same-yes call k (sym e) in
          rw (if_pos _ e) (more ∙ ground (arith, here, lists k r, same_call))
      | no ne ↦
          let other : same call k ≡ false = same-no call k (λ e. ne (sym e)) in
          rw (if_neg _ ne, other) (ground (arith, lists k r))
    ]
    ∙ sym (with_record-live req plane t k r)

-- The record that is laid down is live no more; the others are as before.
laid_down-live :
    (t u : DialogTable) (r : ℕ) (k : String) (j : ℕ)
    → u.store ≡ set_cell r (laid_down (t.store r)) t.store
    → u.next ≡ t.next
    → one_if (is_live_in k j u) ≡ (if j == r then 0 else one_if (is_live_in k j t))
laid_down-live t u r k j st nx =
    ap (λ x. one_if (live_as k j x (u.store j))) nx
    ∙ ap (λ f. one_if (live_as k j t.next (f j))) st
    ∙ elim (Bool-cases (j == r)) [ inl e ↦ rw e (ground arith) | inr e ↦ rw e refl ]

-- The group of a Call-ID once a record has left it.
remove_locked-group :
    (t : DialogTable) (r : ℕ) (k : String)
    → group k (remove_locked r t)
      ≡ ite
          (text_discrete k (t.store r).call_id)
          (erase_first r (group (t.store r).call_id t))
          (group k t)
unfolding remove_locked
remove_locked-group t r k =
    find-put_group (t.store r).call_id k (erase_first r (group (t.store r).call_id t)) t.by_call_id

erased_self :
    (t : DialogTable) (r : ℕ) (k : String) (j : ℕ)
    → Lists t
    → k ≡ (t.store r).call_id
    → occurs j (erase_first r (group (t.store r).call_id t))
      ≡ (if j == r then 0 else one_if (is_live_in k j t))
unfolding Lists
erased_self t r k j lists e =
    let g = group (t.store r).call_id t in
    let here : occurs j g ≡ occurs j (group k t) = ap (λ c. occurs j (group c t)) (sym e) in
    elim (ℕ_discrete j r) [
      | yes ej ↦
          let less = ap (λ i. occurs i (erase_first r g)) ej ∙ occurs-erase_self r g in
          let same_r : occurs r g ≡ occurs j g = ap (λ i. occurs i g) (sym ej) in
          ground (arith, less, same_r, here, lists k j, ej)
      | no ne ↦ ground (arith, occurs-erase_ne r j g ne, here, lists k j, ne)
    ]

untouched :
    (t : DialogTable) (r : ℕ) (k : String) (j : ℕ)
    → Lists t
    → k ≢ (t.store r).call_id
    → occurs j (group k t) ≡ (if j == r then 0 else one_if (is_live_in k j t))
unfolding Lists
untouched t r k j lists ne = elim (ℕ_discrete j r) [
  | yes ej ↦
      let other : same (t.store j).call_id k ≡ false =
        same-no (t.store j).call_id k (λ e. ne (sym e ∙ ap (λ i. (t.store i).call_id) ej)) in
      ground (arith, lists k j, other, ej)
  | no nj ↦ ground (arith, lists k j, nj)
]

pub lay_down-Lists :
    (r : ℕ) (reason : EndReason) (t : DialogTable) → Lists t → Lists (lay_down r reason t).0
unfolding Lists
lay_down-Lists r reason t lists k j = elim (Bool-cases (is_ended (t.store r).state)) [
  | inl gone ↦
      subst (λ x. occurs j (group k x.0) ≡ one_if (is_live_in k j x.0))
        (sym (lay_down-gone r reason t gone)) (lists k j)
  | inr live ↦
      let u = (lay_down r reason t).0 in
      let t1 = update r laid_down t in
      let (st, nx, groups) = lay_down-store r reason t live in
      let call : (t1.store r).call_id ≡ (t.store r).call_id =
        ap (λ x. x.call_id) (set_cell-at r (laid_down (t.store r)) t.store) in
      let grp : group k u
          ≡ ite (text_discrete k (t.store r).call_id) (erase_first r (group (t.store r).call_id t))
              (group k t) =
        ap (λ m. or_empty (find text_discrete k m)) groups
        ∙ remove_locked-group t1 r k
        ∙ ap (λ c. ite (text_discrete k c) (erase_first r (group c t)) (group k t)) call in
      ap (occurs j) grp
      ∙ elim (text_discrete k (t.store r).call_id) [
        | yes e ↦ rw (if_pos _ e) (erased_self t r k j lists e)
        | no ne ↦ rw (if_neg _ ne) (untouched t r k j lists ne)
      ]
      ∙ sym (laid_down-live t u r k j st nx)
]

Step-Lists : (limit : ℕ) {t u : DialogTable} → Step limit t u → Lists t → Lists u
Step-Lists limit (begins req plane cap t small) lists = elim (begin-cases req plane cap t) [
  | inl e ↦ subst Lists (sym e) lists
  | inr (more, room) ↦ subst Lists (sym more) (with_record-Lists req plane t lists)
]
Step-Lists limit (acts m t) lists = Calm-Lists t (run_method m t) (run_method-Calm m t) lists
Step-Lists limit (confirms now r tag route t begun) lists = confirm-Lists now r tag route t lists
Step-Lists limit (ends r reason t begun) lists = lay_down-Lists r reason t lists
Step-Lists limit (finishes i t) lists =
    let (st, nx, groups, held, shut) = finish-Still i t in
    SameLive-Lists t (finish i t)
      (nx, groups, λ r. ap (λ s. is_ended (s r).state) st, λ r. ap (λ s. (s r).call_id) st) lists
Step-Lists limit (closes t) lists =
    SameLive-Lists t (close t) (refl, refl, λ r. refl, λ r. refl) lists

Steps-Lists_from : (limit : ℕ) {t u : DialogTable} → Steps limit t u → Lists t → Lists u
Steps-Lists_from limit (stays t) lists = lists
Steps-Lists_from limit (goes steps step) lists =
    Step-Lists limit step (Steps-Lists_from limit steps lists)

new-Lists : Lists new_dialog_table
unfolding Lists find
new-Lists k r = let ge : ltb r 0 ≡ false = ground arith in rw ge refl

-- After any steps of a new table, the table lists under each Call-ID the records that were begun
-- with it and have not ended, each of them once, and nothing else.
pub Steps-Lists : (limit : ℕ) (t : DialogTable) → Steps limit new_dialog_table t → Lists t
Steps-Lists limit t steps = Steps-Lists_from limit steps new-Lists
