-- ===== src/Edge/Dialogs/Shutdown.antt =====
-- What is left of the calls after the shutdown (internal/edge/dialog.go).
use freesbc.Base.{
  ℕ, zero, suc, ◌≤◌, ◌<◌, String, ◌≡◌, refl, sym, ap, ◌∙◌, ◌⊎◌, inl, inr, true, false, not, ◌||◌,
  List, [], ◌∷◌, arith, ℕ_discrete, text_discrete, ltb, ltb→lt, Bool-cases, false-true,
}
use freesbc.Base.Assoc.{find}
use freesbc.Edge.Dialogs.{
  is_early, is_ended, EndReason, end_shutdown, Plane, DialogRoute, Dialog, DialogTable, set_cell,
  new_dialog_table, Invite, opened, begin, group, or_empty, remove_locked,
}
use freesbc.Edge.Dialogs.Calls.{accepted, confirm, has_media, laid_down, lay_down, listed_refs}
use freesbc.Edge.Dialogs.Slots.{sum_upto, alive, up, unreported, Counts, begin-cases, early_state}
use freesbc.Edge.Dialogs.Ends.{finish-Still}
use freesbc.Edge.Dialogs.Over.{lay_down-store, lay_down-gone, set_cell-off, set_cell-at}
use freesbc.Edge.Dialogs.Listed.{occurs, occurs-append, Lists, is_live_in, Steps-Lists}
use freesbc.Edge.Dialogs.Lookups.{Live-listed}
use freesbc.Edge.Dialogs.Reach.{
  run_method-Calm, Step, begins, acts, confirms, ends, finishes, closes, Steps, goes, Steps-Exact,
}

-- The records up to `n` have ended.
pub AllEnded : DialogTable → Type 0
AllEnded t = (r : ℕ) → r < t.next → is_ended (t.store r).state ≡ true

-- An end leaves each record that has ended so, and its own.
lay_down-ended :
    (r : ℕ) (reason : EndReason) (t : DialogTable) (k : ℕ)
    → (k ≡ r) ⊎ (is_ended (t.store k).state ≡ true)
    → is_ended ((lay_down r reason t).0.store k).state ≡ true
lay_down-ended r reason t k which = elim (Bool-cases (is_ended (t.store r).state)) [
  | inl gone ↦
      ap (λ x. is_ended (x.0.store k).state) (lay_down-gone r reason t gone)
      ∙ elim which [ inl e ↦ ap (λ j. is_ended (t.store j).state) e ∙ gone | inr ended ↦ ended ]
  | inr live ↦
      let d = laid_down (t.store r) in
      ap (λ f. is_ended (f k).state) (lay_down-store r reason t live).0 ∙ elim (ℕ_discrete k r) [
        | yes e ↦ ap (λ x. is_ended x.state) (ap (set_cell r d t.store) e ∙ set_cell-at r d t.store)
        | no ne ↦
            ap (λ x. is_ended x.state) (set_cell-off r k d t.store ne)
            ∙ elim which [ inl e ↦ absurd (ne e) | inr ended ↦ ended ]
      ]
]

lay_down-closed :
    (r : ℕ) (reason : EndReason) (t : DialogTable)
    → t.closed ≡ true
    → ((lay_down r reason t).0.closed ≡ true) × ((lay_down r reason t).0.next ≡ t.next)
unfolding lay_down remove_locked
lay_down-closed r reason t shut = elim (Bool-cases (is_ended (t.store r).state)) [
  | inl gone ↦ rw gone (shut, refl)
  | inr live ↦ rw live (shut, refl)
]

confirm-ended :
    (now r : ℕ) (tag : String) (route : DialogRoute) (t : DialogTable) (k : ℕ)
    → is_ended (t.store k).state ≡ true
    → is_ended ((confirm now r tag route t).0.store k).state ≡ true
unfolding confirm
confirm-ended now r tag route t k ended =
    let d = t.store r in
    elim (Bool-cases (not (is_early d.state) || not (has_media d.media) || d.cancelled)) [
      | inl no_way ↦ rw no_way ended
      | inr way ↦ elim (ℕ_discrete k r) [
        | no ne ↦ rw way (
            ap (λ x. is_ended x.state) (set_cell-off r k (accepted now tag route d) t.store ne)
            ∙ ended)
        | yes e ↦
            let was = early_state d.state (ground (arith, way)) in
            let ended : is_ended d.state ≡ true =
              ap (λ j. is_ended (t.store j).state) (sym e) ∙ ended in
            absurd (false-true (rw was at ended))
      ]
    ]

confirm-closed :
    (now r : ℕ) (tag : String) (route : DialogRoute) (t : DialogTable)
    → t.closed ≡ true
    → ((confirm now r tag route t).0.closed ≡ true) × ((confirm now r tag route t).0.next ≡ t.next)
unfolding confirm
confirm-closed now r tag route t shut =
    let d = t.store r in
    elim (Bool-cases (not (is_early d.state) || not (has_media d.media) || d.cancelled)) [
      | inl no_way ↦ rw no_way (shut, refl)
      | inr way ↦ rw way (shut, refl)
    ]

begin-closed :
    (req : Invite) (plane : Plane) (cap : ℕ) (t : DialogTable)
    → t.closed ≡ true
    → (begin req plane cap t).0 ≡ t
unfolding begin
begin-closed req plane cap t shut = rw shut refl

-- A step leaves each record that has ended so.
Step-ended :
    (limit : ℕ) {t u : DialogTable} (k : ℕ)
    → Step limit t u
    → k < t.next
    → is_ended (t.store k).state ≡ true
    → is_ended (u.store k).state ≡ true
Step-ended limit k (begins req plane cap t small) in_ ended = elim (begin-cases req plane cap t) [
  | inl same ↦ ap (λ x. is_ended (x.store k).state) same ∙ ended
  | inr (more, room) ↦
      ap (λ x. is_ended (x.store k).state) more
      ∙ ap (λ x. is_ended x.state)
          (set_cell-off t.next k (opened req plane) t.store (λ e. absurd (omega (arith, in_, e))))
      ∙ ended
]
Step-ended limit k (acts m t) in_ ended =
    ap is_ended ((run_method-Calm m t).each_keeps k).same_state ∙ ended
Step-ended limit k (confirms now r tag route t begun) in_ ended =
    confirm-ended now r tag route t k ended
Step-ended limit k (ends r reason t begun) in_ ended = lay_down-ended r reason t k (inr ended)
Step-ended limit k (finishes i t) in_ ended =
    ap (λ s. is_ended (s k).state) (finish-Still i t).0 ∙ ended
Step-ended limit k (closes t) in_ ended = ended

-- A closed table stays closed, and no record is begun in it.
Step-closed :
    (limit : ℕ) {t u : DialogTable}
    → Step limit t u
    → t.closed ≡ true
    → (u.closed ≡ true) × (u.next ≡ t.next)
Step-closed limit (begins req plane cap t small) shut =
    let same = begin-closed req plane cap t shut in
    (ap (λ x. x.closed) same ∙ shut, ap (λ x. x.next) same)
Step-closed limit (acts m t) shut =
    let calm = run_method-Calm m t in (calm.same_closed ∙ shut, calm.same_next)
Step-closed limit (confirms now r tag route t begun) shut = confirm-closed now r tag route t shut
Step-closed limit (ends r reason t begun) shut = lay_down-closed r reason t shut
Step-closed limit (finishes i t) shut =
    let (st, nx, groups, held, same) = finish-Still i t in (same ∙ shut, nx)
Step-closed limit (closes t) shut = (refl, refl)

-- A run of `closeAll` over its snapshot, the steps of the other goroutines between its ends.
pub data CloseAll (limit : ℕ) : List ℕ → DialogTable → DialogTable → Type 0 where
  all_ended : (t : DialogTable) → CloseAll limit [] t t
  ends_next :
      {rs : List ℕ} {u : DialogTable} (r : ℕ) (t : DialogTable)
      → r < t.next
      → CloseAll limit rs (lay_down r end_shutdown t).0 u
      → CloseAll limit (r ∷ rs) t u
  meanwhile :
      {rs : List ℕ} {t u v : DialogTable}
      → Step limit t u
      → CloseAll limit rs u v
      → CloseAll limit rs t v

CloseAll-Steps :
    (limit : ℕ) {rs : List ℕ} {s t u : DialogTable}
    → Steps limit s t
    → CloseAll limit rs t u
    → Steps limit s u
CloseAll-Steps limit steps (all_ended t) = steps
CloseAll-Steps limit steps (ends_next r t begun run) =
    CloseAll-Steps limit (goes steps (ends r end_shutdown t begun)) run
CloseAll-Steps limit steps (meanwhile step run) = CloseAll-Steps limit (goes steps step) run

CloseAll-ended :
    (limit : ℕ) {rs : List ℕ} {t u : DialogTable} (k : ℕ)
    → CloseAll limit rs t u
    → k < t.next
    → t.closed ≡ true
    → (0 < occurs k rs) ⊎ (is_ended (t.store k).state ≡ true)
    → (is_ended (u.store k).state ≡ true)
CloseAll-ended limit k (all_ended t) in_ shut (inl one) = absurd (omega (arith, one))
CloseAll-ended limit k (all_ended t) in_ shut (inr ended) = ended
CloseAll-ended limit k (ends_next {rs} r t begun run) in_ shut which =
    let (still_shut, nx) = lay_down-closed r end_shutdown t shut in
    CloseAll-ended limit k run (omega (arith, in_, nx)) still_shut (next_one which)
  where
    next_one :
        (0 < occurs k (r ∷ rs)) ⊎ (is_ended (t.store k).state ≡ true)
        → (0 < occurs k rs) ⊎ (is_ended ((lay_down r end_shutdown t).0.store k).state ≡ true)
    next_one (inr ended) = inr (lay_down-ended r end_shutdown t k (inr ended))
    next_one (inl one) = elim (ℕ_discrete k r) [
      | yes e ↦ inr (lay_down-ended r end_shutdown t k (inl e))
      | no ne ↦ inl (ground (arith, one, ne))
    ]
CloseAll-ended limit k (meanwhile step run) in_ shut which =
    let (still_shut, nx) = Step-closed limit step shut in
    CloseAll-ended limit k run (omega (arith, in_, nx)) still_shut
      (elim which [ inl one ↦ inl one | inr ended ↦ inr (Step-ended limit k step in_ ended) ])

CloseAll-next :
    (limit : ℕ) {rs : List ℕ} {t u : DialogTable}
    → CloseAll limit rs t u
    → t.closed ≡ true
    → u.next ≡ t.next
CloseAll-next limit (all_ended t) shut = refl
CloseAll-next limit (ends_next r t begun run) shut =
    let (still_shut, nx) = lay_down-closed r end_shutdown t shut in
    CloseAll-next limit run still_shut ∙ nx
CloseAll-next limit (meanwhile step run) shut =
    let (still_shut, nx) = Step-closed limit step shut in CloseAll-next limit run still_shut ∙ nx

-- A group's records are among all that the table lists.
occurs-listed :
    (k : String) (r : ℕ) (m : List (String × List ℕ))
    → occurs r (or_empty (find text_discrete k m)) ≤ occurs r (listed_refs m)
unfolding find
occurs-listed k r [] = omega arith
occurs-listed k r ((j, rs) ∷ m) =
    ground (arith, occurs-listed k r m, occurs-append r rs (listed_refs m))

nothing_live : (t : DialogTable) (k : String) (r : ℕ) → AllEnded t → is_live_in k r t ≡ false
unfolding AllEnded
nothing_live t k r ended = elim (Bool-cases (ltb r t.next)) [
  | inr out ↦ ground (arith, out)
  | inl in_ ↦ ground (arith, in_, ended r (ltb→lt r t.next in_))
]

CloseAll-AllEnded :
    (limit : ℕ) (t u : DialogTable)
    → Steps limit new_dialog_table t
    → t.closed ≡ true
    → CloseAll limit (listed_refs t.by_call_id) t u
    → AllEnded u
unfolding AllEnded
CloseAll-AllEnded limit t u steps shut run r in_ =
    let begun : r < t.next = omega (arith, in_, CloseAll-next limit run shut) in
    CloseAll-ended limit r run begun shut (elim (Bool-cases (is_ended (t.store r).state)) [
      | inl ended ↦ inr ended
      | inr live ↦
          let k = (t.store r).call_id in
          let listed = Live-listed t k r (Steps-Lists limit t steps) (begun, live, refl) in
          inl (omega (arith, listed, occurs-listed k r t.by_call_id))
    ])

-- The sum over records of which each counts nothing.
sum_upto-zero :
    (w : Dialog → ℕ) (store : ℕ → Dialog) (n : ℕ)
    → ((r : ℕ) → r < n → w (store r) ≡ 0)
    → sum_upto w store n ≡ 0
unfolding sum_upto
sum_upto-zero w store zero none = refl
sum_upto-zero w store (suc n) none =
    omega
      (arith, none n (omega arith), sum_upto-zero w store n (λ r in_. none r (omega (arith, in_))))

-- The shutdown leaves no call behind. From a table that any steps have made and that `close` has
-- closed, when `closeAll` has ended each record of its snapshot, whatever steps of other goroutines
-- came between, calls of `begin` and the ends of other calls included: each record that was begun
-- has ended, the table lists no record under any Call-ID, and no session slot is held; and the gauge
-- is down to 0 when no end is under way any more.
pub CloseAll-empties :
    (limit : ℕ) (t u : DialogTable)
    → Steps limit new_dialog_table t
    → t.closed ≡ true
    → CloseAll limit (listed_refs t.by_call_id) t u
    → AllEnded u
      × ((k : String) (r : ℕ) → occurs r (group k u) ≡ 0)
      × (u.sessions ≡ 0)
      × (u.pending ≡ [] → u.gauge ≡ 0)
unfolding Lists Counts AllEnded
CloseAll-empties limit t u steps shut run =
    let ended = CloseAll-AllEnded limit t u steps shut run in
    let all_steps = CloseAll-Steps limit steps run in
    let lists = Steps-Lists limit u all_steps in
    let counts = (Steps-Exact limit u all_steps).0 in
    let no_slots = sum_upto-zero alive u.store u.next (λ r in_. rw (ended r in_) refl) in
    let none_up = sum_upto-zero up u.store u.next (λ r in_. ground (arith, ended r in_)) in
    (
      ended,
      λ k r. lists k r ∙ rw (nothing_live u k r ended) refl,
      counts.0 ∙ no_slots,
      λ done. counts.1 ∙ omega (arith, none_up, ap unreported done),
    )
