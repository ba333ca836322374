-- ===== src/Edge/Dialogs/Over.antt =====
-- Calls that can no longer come up (internal/edge/dialog.go).
use freesbc.Base.{
  ℕ, ◌<◌, String, ◌≡◌, refl, sym, ap, ◌∙◌, ◌≢◌, inl, inr, Bool, true, false, not, ◌&&◌, ◌||◌, arith,
  ℕ_discrete, ◌==◌, Bool-cases, false-true,
}
use mathlib.Core.Path.{subst}
use freesbc.Edge.Dialogs.{
  is_early, is_confirmed, is_ended, EndReason, DialogRoute, Plane, Dialog, DialogTable, set_cell,
  Invite, opened, remove_locked,
}
use freesbc.Edge.Dialogs.Calls.{update, accepted, confirm, laid_down, lay_down, has_media}
use freesbc.Edge.Dialogs.Slots.{with_record, begin-cases, early_state}
use freesbc.Edge.Dialogs.Ends.{finish-Still}
use freesbc.Edge.Dialogs.Calm.{Calm}
use freesbc.Edge.Dialogs.Reach.{
  run_method, run_method-Calm, Step, begins, acts, confirms, ends, finishes, closes, Steps, stays,
  goes,
}

-- The call was given up before it was up, or it has ended.
abbrev pub is_over : Dialog → Bool
is_over d = not (is_confirmed d.state) && (d.cancelled || is_ended d.state)

-- The record was begun, and is over.
abbrev Over : ℕ → DialogTable → Type 0
Over r t = (r < t.next) × (is_over (t.store r) ≡ true)

pub set_cell-off :
    (r k : ℕ) (d : Dialog) (store : ℕ → Dialog) → k ≢ r → set_cell r d store k ≡ store k
set_cell-off r k d store ne = let t : (k == r) ≡ false = ground (arith, ne) in rw t refl

pub set_cell-at : (r : ℕ) (d : Dialog) (store : ℕ → Dialog) → set_cell r d store r ≡ d
set_cell-at r d store = let t : (r == r) ≡ true = ground arith in rw t refl

confirm-Over :
    (now r : ℕ) (tag : String) (route : DialogRoute) (t : DialogTable) (k : ℕ)
    → Over k t
    → Over k (confirm now r tag route t).0
unfolding confirm
confirm-Over now r tag route t k (in_, over) =
    let d = t.store r in
    elim (Bool-cases (not (is_early d.state) || not (has_media d.media) || d.cancelled)) [
      | inl no_way ↦ rw no_way (in_, over)
      | inr way ↦ elim (ℕ_discrete k r) [
        | no ne ↦
            rw way (in_, ap is_over (set_cell-off r k (accepted now tag route d) t.store ne) ∙ over)
        | yes e ↦
            let over : is_over d ≡ true = ap (λ j. is_over (t.store j)) (sym e) ∙ over in
            let was = early_state d.state (ground (arith, way)) in
            let free : d.cancelled ≡ false = ground (arith, way) in
            absurd (false-true (rw (was, free) at over))
      ]
    ]

-- A record that has not ended is laid down, whatever it held.
pub lay_down-store :
    (r : ℕ) (reason : EndReason) (t : DialogTable)
    → is_ended (t.store r).state ≡ false
    → ((lay_down r reason t).0.store ≡ set_cell r (laid_down (t.store r)) t.store)
      × ((lay_down r reason t).0.next ≡ t.next)
      × ((lay_down r reason t).0.by_call_id ≡ (remove_locked r (update r laid_down t)).by_call_id)
unfolding lay_down remove_locked
lay_down-store r reason t live = rw live (refl, refl, refl)

pub lay_down-gone :
    (r : ℕ) (reason : EndReason) (t : DialogTable)
    → is_ended (t.store r).state ≡ true
    → lay_down r reason t ≡ (t, false)
unfolding lay_down
lay_down-gone r reason t gone = rw gone refl

lay_down-Over :
    (r : ℕ) (reason : EndReason) (t : DialogTable) (k : ℕ)
    → Over k t
    → Over k (lay_down r reason t).0
lay_down-Over r reason t k (in_, over) = elim (Bool-cases (is_ended (t.store r).state)) [
  | inl gone ↦ subst (λ x. Over k x.0) (sym (lay_down-gone r reason t gone)) (in_, over)
  | inr live ↦
      let laid : is_over (laid_down (t.store r)) ≡ true = ground arith in
      let (st, nx, groups) = lay_down-store r reason t live in
      (
        omega (arith, in_, nx),
        ap (λ f. is_over (f k)) st ∙ elim (ℕ_discrete k r) [
          | yes e ↦
              ap is_over (
                ap (set_cell r (laid_down (t.store r)) t.store) e
                ∙ set_cell-at r (laid_down (t.store r)) t.store)
              ∙ laid
          | no ne ↦ ap is_over (set_cell-off r k (laid_down (t.store r)) t.store ne) ∙ over
        ],
      )
]

with_record-Over :
    (req : Invite) (plane : Plane) (t : DialogTable) (k : ℕ)
    → Over k t
    → Over k (with_record req plane t)
with_record-Over req plane t k (in_, over) = (
  omega (arith, in_),
  ap is_over
        (set_cell-off t.next k (opened req plane) t.store (λ e. absurd (omega (arith, in_, e))))
      ∙ over,
)

Calm-Over : (t u : DialogTable) (k : ℕ) → Calm t u → Over k t → Over k u
Calm-Over t u k calm (in_, over) =
    let keeps = calm.each_keeps k in
    (
      omega (arith, in_, calm.same_next),
      elim (Bool-cases (t.store k).cancelled) [
        | inl c ↦ ground (arith, over, keeps.same_state, keeps.still_cancelled c)
        | inr c ↦
            let was : is_ended (t.store k).state ≡ true = ground (arith, over, c) in
            let down : is_confirmed (t.store k).state ≡ false = ground (arith, over) in
            let ended = ap is_ended keeps.same_state ∙ was in
            let not_up = ap is_confirmed keeps.same_state ∙ down in ground (arith, ended, not_up)
      ],
    )

Step-Over : (limit : ℕ) {t u : DialogTable} (k : ℕ) → Step limit t u → Over k t → Over k u
Step-Over limit k (begins req plane cap t small) over = elim (begin-cases req plane cap t) [
  | inl same ↦ subst (Over k) (sym same) over
  | inr (more, room) ↦ subst (Over k) (sym more) (with_record-Over req plane t k over)
]
Step-Over limit k (acts m t) over = Calm-Over t (run_method m t) k (run_method-Calm m t) over
Step-Over limit k (confirms now r tag route t begun) over = confirm-Over now r tag route t k over
Step-Over limit k (ends r reason t begun) over = lay_down-Over r reason t k over
Step-Over limit k (finishes i t) (in_, over) =
    let (st, nx, groups, held, shut) = finish-Still i t in
    (omega (arith, in_, nx), ap (λ s. is_over (s k)) st ∙ over)
Step-Over limit k (closes t) over = over

-- A record that was begun, and was cancelled before it came up or has ended, never comes up: after
-- any steps it is not confirmed, and it is cancelled or ended still.
pub Steps-over :
    (limit : ℕ) {t u : DialogTable} (r : ℕ)
    → Steps limit t u
    → r < t.next
    → is_over (t.store r) ≡ true
    → is_over (u.store r) ≡ true
Steps-over limit {t} {u} r steps in_ over = (Steps-Over limit r steps (in_, over)).1
  where
    Steps-Over : (limit : ℕ) {t u : DialogTable} (k : ℕ) → Steps limit t u → Over k t → Over k u
    Steps-Over limit k (stays t) over = over
    Steps-Over limit k (goes steps step) over =
        Step-Over limit k step (Steps-Over limit k steps over)

refused_over :
    (d : Dialog)
    → is_over d ≡ true
    → not (is_early d.state) || not (has_media d.media) || d.cancelled ≡ true
refused_over d over = elim (Bool-cases (is_early d.state)) [
  | inr late ↦ ground (arith, late)
  | inl e ↦
      let was = early_state d.state e in
      let c : (d.cancelled || false) ≡ true = rw was at over in ground (arith, c)
]

-- A record that was begun, and then was cancelled before it came up or has ended, is refused from
-- there on: after any steps, those that come between the two halves of an end included, `confirm` of
-- it returns false, and so does `endBy`, for any reason, by what it finds when it holds the mutex.
pub Steps-refused :
    (limit : ℕ) {t u : DialogTable} (r : ℕ)
    → Steps limit t u
    → r < t.next
    → is_over (t.store r) ≡ true
    → ((now : ℕ) (tag : String) (route : DialogRoute) → (confirm now r tag route u).1 ≡ false)
      × ((reason : EndReason) → (lay_down r reason u).1 ≡ false)
unfolding confirm lay_down
Steps-refused limit {t} {u} r steps in_ over =
    let d = u.store r in
    let over : is_over d ≡ true = Steps-over limit r steps in_ over in
    let down : is_confirmed d.state ≡ false = ground (arith, over) in
    let no_way : not (is_early d.state) || not (has_media d.media) || d.cancelled ≡ true =
      refused_over d over in
    (
      λ now tag route. rw no_way refl,
      λ reason. elim (Bool-cases (is_ended d.state)) [
        | inl gone ↦ rw gone refl
        | inr live ↦ rw (live, down) refl
      ],
    )

-- The end of a call that was up is reported once: when an `endBy` finds that it ends a confirmed
-- dialog, which is what it returns, each later `endBy` of it finds that it does not, after any steps
-- from the instant at which the first one released the mutex, whether or not that one has come to
-- its end.
pub lay_down-once :
    (limit : ℕ) (r : ℕ) (reason again : EndReason) (t u : DialogTable)
    → r < t.next
    → (lay_down r reason t).1 ≡ true
    → Steps limit (lay_down r reason t).0 u
    → (lay_down r again u).1 ≡ false
lay_down-once limit r reason again t u in_ won steps =
    elim (Bool-cases (is_ended (t.store r).state)) [
      | inl gone ↦ absurd (false-true (sym (ap (λ x. x.1) (lay_down-gone r reason t gone)) ∙ won))
      | inr live ↦
          let (st, nx, groups) = lay_down-store r reason t live in
          let laid : is_over (laid_down (t.store r)) ≡ true = ground arith in
          let over =
            ap (λ f. is_over (f r)) st
            ∙ ap is_over (set_cell-at r (laid_down (t.store r)) t.store)
            ∙ laid in
          (Steps-refused limit r steps (omega (arith, nx, in_)) over).1 again
    ]
