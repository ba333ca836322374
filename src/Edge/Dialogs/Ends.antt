-- ===== src/Edge/Dialogs/Ends.antt =====
-- The ends of calls that have released the mutex (internal/edge/dialog.go).
use freesbc.Base.{
  ℕ, zero, suc, ◌+◌, ◌-◌, ◌≡◌, refl, sym, ap, ◌∙◌, inl, inr, Option, none, some, List, [], ◌∷◌,
  arith, Bool-cases, Option-cases,
}
use mathlib.Core.Option.{some-injective}
use freesbc.Edge.Dialogs.{Ending, Dialog, DialogTable}
use freesbc.Edge.Dialogs.Calls.{report, pick, finish_picked, finish}
use freesbc.Edge.Dialogs.Slots.{sum_upto, alive, up, owes, unreported, Counts}

-- The pick is counted with the others.
pick-unreported :
    (i : ℕ) (es : List Ending) (e : Ending) (rest : List Ending)
    → pick i es ≡ some (e, rest)
    → unreported es ≡ owes e + unreported rest
pick-unreported i [] e rest none_is = absurd (ground (arith, none_is))
pick-unreported zero (x ∷ es) e rest picked =
    let p : (x, es) ≡ (e, rest) = some-injective (x, es) (e, rest) picked in
    ap (λ (q : Ending × List Ending). owes q.0 + unreported q.1) p
pick-unreported (suc i) (x ∷ es) e rest picked = elim (Option-cases (pick i es)) [
  | inl none_is ↦ absurd (ground (arith, none_is, picked))
  | inr ((y, l), more) ↦
      let q : some (y, x ∷ l) ≡ some (e, rest) = sym (rw more refl) ∙ picked in
      let p : (y, x ∷ l) ≡ (e, rest) = some-injective (y, x ∷ l) (e, rest) q in
      let all : owes y + unreported (x ∷ l) ≡ owes e + unreported rest =
        ap (λ (q : Ending × List Ending). owes q.0 + unreported q.1) p in
      omega (arith, pick-unreported i es y l more, all)
]

-- The end of an end changes neither the records nor their lists.
abbrev pub Still : DialogTable → DialogTable → Type 0
Still t u =
    (u.store ≡ t.store)
    × (u.next ≡ t.next)
    × (u.by_call_id ≡ t.by_call_id)
    × (u.sessions ≡ t.sessions)
    × (u.closed ≡ t.closed)

report-Still : (e : Ending) (t : DialogTable) → Still t (report e t)
unfolding report
report-Still e t = elim (Option-cases e.session) [
  | inl none_yet ↦ rw (none_yet, report) (refl, refl, refl, refl, refl)
  | inr (m, had) ↦ elim (Bool-cases e.was_up) [
    | inl w ↦ rw (had, w, report) (refl, refl, refl, refl, refl)
    | inr w ↦ rw (had, w, report) (refl, refl, refl, refl, refl)
  ]
]

report-gauge :
    (e : Ending) (t : DialogTable)
    → ((report e t).gauge ≡ t.gauge - owes e) × ((report e t).pending ≡ t.pending)
unfolding report
report-gauge e t = elim (Option-cases e.session) [
  | inl none_yet ↦ rw (none_yet, report) (ground arith, refl)
  | inr (m, had) ↦ elim (Bool-cases e.was_up) [
    | inl w ↦ rw (had, w, report) (refl, refl)
    | inr w ↦ rw (had, w, report) (omega arith, refl)
  ]
]

pub finish-Still : (i : ℕ) (t : DialogTable) → Still t (finish i t)
unfolding finish finish_picked
finish-Still i t = by_pick (pick i t.pending)
  where
    by_pick : (o : Option (Ending × List Ending)) → Still t (finish_picked o t)
    by_pick none = (refl, refl, refl, refl, refl)
    by_pick (some p) = report-Still p.0 (record t { pending = p.1 })

report-Counts :
    (e : Ending) (rest : List Ending) (t : DialogTable)
    → unreported t.pending ≡ owes e + unreported rest
    → Counts t
    → Counts (report e (record t { pending = rest }))
unfolding Counts
report-Counts e rest t count (slots, gauge, media) =
    let u = record t { pending = rest } in
    let v = report e u in
    let (st, nx, groups, held, shut) = report-Still e u in
    let (lowered, others) = report-gauge e u in
    let sum : (w : Dialog → ℕ) → sum_upto w v.store v.next ≡ sum_upto w t.store t.next =
      λ w. ap (λ s. sum_upto w s v.next) st ∙ ap (sum_upto w t.store) nx in
    (
      held ∙ slots ∙ sym (sum alive),
      lowered
          ∙ omega (arith, gauge, count, sum up)
          ∙ sym (ap (λ l. sum_upto up v.store v.next + unreported l) others),
      λ k. rw st (media k),
    )

pub finish-Counts : (i : ℕ) (t : DialogTable) → Counts t → Counts (finish i t)
unfolding finish finish_picked
finish-Counts i t counts = elim (Option-cases (pick i t.pending)) [
  | inl none_is ↦ rw none_is counts
  | inr ((e, rest), picked) ↦
      rw picked (report-Counts e rest t (pick-unreported i t.pending e rest picked) counts)
]
