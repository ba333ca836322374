-- ===== src/Edge/Dialogs/Slots.antt =====
-- The session slots and the gauge of the calls (internal/edge/dialog.go).
use freesbc.Base.{
  ℕ, zero, suc, ◌+◌, ◌≤◌, ◌<◌, String, ◌≡◌, refl, sym, ap, ◌∙◌, ◌⊎◌, inl, inr, true, false, List,
  not, ◌&&◌, ◌||◌, [], ◌∷◌, ◌++◌, arith, ℕ_discrete, text_discrete, ltb, leb, ◌==◌, if◌then◌else◌,
  ltb→lt, ltb_false→le, Bool-cases, Option-cases, false-true,
}
use freesbc.Base.Assoc.{put}
use mathlib.Core.Path.{subst}
use freesbc.Edge.Dialogs.{
  DialogState, dialog_early, dialog_confirmed, dialog_ended, is_early, is_confirmed, is_ended,
  EndReason, Ending, DialogRoute, Plane, Dialog, DialogTable, set_cell, Invite, opened, first_of,
  is_early_of, group, begin, remove_locked,
}
use freesbc.Edge.Dialogs.Calls.{has_media, accepted, confirm, laid_down, lay_down}

-- The sum over the records that were begun.
unfoldable pub sum_upto : (Dialog → ℕ) → (ℕ → Dialog) → ℕ → ℕ
sum_upto w store zero = 0
sum_upto w store (suc n) = w (store n) + sum_upto w store n

abbrev pub alive : Dialog → ℕ
alive d = if is_ended d.state then 0 else 1

abbrev pub up : Dialog → ℕ
up d = if is_confirmed d.state then 1 else 0

sum_upto-off :
    (w : Dialog → ℕ) (store : ℕ → Dialog) (n r : ℕ) (d : Dialog)
    → n ≤ r
    → sum_upto w (set_cell r d store) n ≡ sum_upto w store n
unfolding sum_upto
sum_upto-off w store zero r d out = refl
sum_upto-off w store (suc n) r d out =
    let t : (n == r) ≡ false = ground (arith, out) in
    rw (t, sum_upto-off w store n r d (omega (arith, out))) refl

sum_upto-set :
    (w : Dialog → ℕ) (store : ℕ → Dialog) (n r : ℕ) (d : Dialog)
    → r < n
    → sum_upto w (set_cell r d store) n + w (store r) ≡ sum_upto w store n + w d
unfolding sum_upto
sum_upto-set w store zero r d in_ = absurd (omega (arith, in_))
sum_upto-set w store (suc n) r d in_ = elim (ℕ_discrete n r) [
  | yes e ↦
      let t : (n == r) ≡ true = ground (arith, e) in
      let same : w (store n) ≡ w (store r) = ap (λ k. w (store k)) e in
      rw t (omega (arith, same, sum_upto-off w store n r d (omega (arith, e))))
  | no ne ↦
      let t : (n == r) ≡ false = ground (arith, ne) in
      rw t (omega (arith, sum_upto-set w store n r d (omega (arith, in_, ne))))
]

-- An end that has still to lower the gauge.
abbrev pub owes : Ending → ℕ
owes e = if e.was_up && has_media e.session then 1 else 0

abbrev pub unreported : List Ending → ℕ
unreported [] = 0
unreported (e ∷ es) = owes e + unreported es

-- A slot is held for each record that has not ended, the gauge counts the confirmed ones and the ends
-- that have not lowered it yet, and the confirmed ones have media.
unfoldable pub Counts : DialogTable → Type 0
Counts t =
    (t.sessions ≡ sum_upto alive t.store t.next)
    × (t.gauge ≡ sum_upto up t.store t.next + unreported t.pending)
    × ((r : ℕ) → is_confirmed (t.store r).state ≡ true → has_media (t.store r).media ≡ true)

sum_upto-same :
    (w : Dialog → ℕ) (store : ℕ → Dialog) (n r : ℕ) (d : Dialog)
    → w d ≡ w (store r)
    → sum_upto w (set_cell r d store) n ≡ sum_upto w store n
sum_upto-same w store n r d e = elim (Bool-cases (ltb r n)) [
  | inl t ↦ omega (arith, e, sum_upto-set w store n r d (ltb→lt r n t))
  | inr t ↦ sum_upto-off w store n r d (ltb_false→le r n t)
]

-- What holds of the new record and of each old one holds of each record.
pub set_cell-each :
    (P : Dialog → Type 0) (r : ℕ) (d : Dialog) (store : ℕ → Dialog)
    → P d
    → ((k : ℕ) → P (store k))
    → (k : ℕ) → P (set_cell r d store k)
set_cell-each P r d store here there k = elim (Bool-cases (k == r)) [
  | inl t ↦ rw t here
  | inr t ↦ rw t (there k)
]

abbrev pub WithMedia : Dialog → Type 0
WithMedia d = is_confirmed d.state ≡ true → has_media d.media ≡ true

-- The table with one record more.
abbrev pub with_record : Invite → Plane → DialogTable → DialogTable
with_record req plane t = record t {
  store = set_cell t.next (opened req plane) t.store;
  next = suc t.next;
  by_call_id = put text_discrete req.call_id (group req.call_id t ++ (t.next ∷ [])) t.by_call_id;
  sessions = t.sessions + 1;
}

-- An INVITE opens a record, where there is room for it, or changes nothing.
pub begin-cases :
    (req : Invite) (plane : Plane) (limit : ℕ) (t : DialogTable)
    → ((begin req plane limit t).0 ≡ t)
      ⊎ (((begin req plane limit t).0 ≡ with_record req plane t)
          × (ltb 0 limit && leb limit t.sessions ≡ false))
unfolding begin
begin-cases req plane limit t = elim (Bool-cases t.closed) [
  | inl shut ↦ inl (ground (arith, shut))
  | inr opn ↦
      elim (Option-cases
        (first_of (λ o. is_early_of req.from_tag (t.store o)) (group req.call_id t))) [
          | inr (o, merged) ↦ inl (ground (arith, opn, merged))
          | inl new ↦ elim (Bool-cases (ltb 0 limit && leb limit t.sessions)) [
            | inl full ↦ inl (ground (arith, opn, new, full))
            | inr room ↦ inr (ground (arith, opn, new, room), room)
          ]
        ]
]

sum_upto-more :
    (w : Dialog → ℕ) (store : ℕ → Dialog) (n : ℕ) (d : Dialog)
    → sum_upto w (set_cell n d store) (suc n) ≡ w d + sum_upto w store n
unfolding sum_upto
sum_upto-more w store n d =
    let t : (n == n) ≡ true = ground arith in rw (t, sum_upto-off w store n n d (omega arith)) refl

with_record-Counts :
    (req : Invite) (plane : Plane) (t : DialogTable) → Counts t → Counts (with_record req plane t)
unfolding Counts
with_record-Counts req plane t (slots, gauge, media) =
    let d = opened req plane in
    (
      omega (arith, slots, sum_upto-more alive t.store t.next d),
      omega (arith, gauge, sum_upto-more up t.store t.next d),
      set_cell-each WithMedia t.next d t.store (λ e. absurd (false-true e)) media,
    )

pub begin-Counts :
    (req : Invite) (plane : Plane) (limit : ℕ) (t : DialogTable)
    → Counts t
    → Counts (begin req plane limit t).0
begin-Counts req plane limit t counts = elim (begin-cases req plane limit t) [
  | inl same ↦ subst Counts (sym same) counts
  | inr (more, room) ↦ subst Counts (sym more) (with_record-Counts req plane t counts)
]

pub early_state : (s : DialogState) → is_early s ≡ true → s ≡ dialog_early
early_state dialog_early e = refl
early_state dialog_confirmed e = absurd (false-true e)
early_state dialog_ended e = absurd (false-true e)

pub confirm-Counts :
    (now r : ℕ) (tag : String) (route : DialogRoute) (t : DialogTable)
    → r < t.next
    → Counts t
    → Counts (confirm now r tag route t).0
unfolding confirm Counts
confirm-Counts now r tag route t begun (slots, gauge, media) =
    let d = t.store r in
    elim (Bool-cases (not (is_early d.state) || not (has_media d.media) || d.cancelled)) [
      | inl no_way ↦ rw no_way (slots, gauge, media)
      | inr yes_way ↦
          let d1 = accepted now tag route d in
          let was = early_state d.state (ground (arith, yes_way)) in
          let has : has_media d.media ≡ true = ground (arith, yes_way) in
          rw yes_way (
            slots ∙ sym (sum_upto-same alive t.store t.next r d1 (rw was refl)),
            omega (
              arith,
              gauge,
              sum_upto-set up t.store t.next r d1 begun,
              ap {B = ℕ} (λ x. if is_confirmed x then 1 else 0) was,
            ),
            set_cell-each WithMedia r d1 t.store (λ e. has) media,
          )
    ]

pub lay_down-Counts :
    (r : ℕ) (reason : EndReason) (t : DialogTable)
    → r < t.next
    → Counts t
    → Counts (lay_down r reason t).0
unfolding lay_down remove_locked Counts
lay_down-Counts r reason t begun (slots, gauge, media) =
    let d = t.store r in
    elim (Bool-cases (is_ended d.state)) [
      | inl gone ↦ rw gone (slots, gauge, media)
      | inr live ↦
          let media_of = media r in
          let less = sum_upto-set alive t.store t.next r (laid_down d) begun in
          let less_up = sum_upto-set up t.store t.next r (laid_down d) begun in
          let alive_d : alive d ≡ 1 = rw live refl in
          let same_up : up d ≡ (if is_confirmed d.state && has_media d.media then 1 else 0) =
            ground (arith, media_of) in
          rw live (
            omega (arith, slots, less, alive_d),
            omega (arith, gauge, less_up, same_up),
            set_cell-each WithMedia r (laid_down d) t.store (λ e. absurd (false-true e)) media,
          )
    ]
