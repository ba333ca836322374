-- ===== src/Edge/Dialogs/Lookups.antt =====
-- The dialogs that a request finds (internal/edge/dialog.go).
use freesbc.Base.{
  ℕ, ◌<◌, String, ◌≡◌, refl, sym, ap, ◌∙◌, ◌≢◌, inl, inr, if_pos, if_neg, Bool, true, false, ◌||◌,
  none, some, List, [], ◌∷◌, arith, ℕ_discrete, text_discrete, ltb→lt, lt→ltb, Bool-cases,
  Option-cases, false-true,
}
use mathlib.Core.Path.{subst}
use mathlib.Core.Option.{some-injective}
use freesbc.Edge.Dialogs.{
  is_confirmed, is_ended, DialogTable, new_dialog_table, same, group, first_of,
}
use freesbc.Edge.Dialogs.Search.{from_caller_of, from_callee_of, is_dialog_of, lookup}
use freesbc.Edge.Dialogs.Listed.{occurs, is_live_in, Lists, Steps-Lists}
use freesbc.Edge.Dialogs.Reach.{Steps}

first_of-passes :
    (p : ℕ → Bool) (l : List ℕ) (r : ℕ) → first_of p l ≡ some r → (p r ≡ true) × (0 < occurs r l)
first_of-passes p [] r found = absurd (ground (arith, found))
first_of-passes p (x ∷ xs) r found = elim (Bool-cases (p x)) [
  | inl t ↦
      let e : x ≡ r = some-injective x r (rw t at found) in (ap p (sym e) ∙ t, ground (arith, e))
  | inr t ↦
      let (passes, in_) = first_of-passes p xs r (rw t at found) in (passes, omega (arith, in_))
]

first_of-none :
    (p : ℕ → Bool) (l : List ℕ) (r : ℕ) → first_of p l ≡ none → 0 < occurs r l → p r ≡ false
first_of-none p [] r nothing in_ = absurd (omega (arith, in_))
first_of-none p (x ∷ xs) r nothing in_ = elim (Bool-cases (p x)) [
  | inl t ↦ absurd (ground (arith, t, nothing))
  | inr t ↦ elim (ℕ_discrete x r) [
    | yes e ↦ ap p (sym e) ∙ t
    | no ne ↦ first_of-none p xs r (rw t at nothing) (ground (arith, in_, ne))
  ]
]

-- The record is a live one of this Call-ID.
abbrev pub Live : String → ℕ → DialogTable → Type 0
Live call_id r t =
    (r < t.next) × (is_ended (t.store r).state ≡ false) × ((t.store r).call_id ≡ call_id)

same→eq : (s t : String) → same s t ≡ true → s ≡ t
same→eq s t e = elim (text_discrete s t) [
  | yes p ↦ p
  | no ne ↦ absurd (false-true (sym (rw (if_neg (text_discrete s t) ne) refl) ∙ e))
]

listed-Live :
    (t : DialogTable) (k : String) (r : ℕ) → Lists t → 0 < occurs r (group k t) → Live k r t
unfolding Lists
listed-Live t k r lists in_ =
    let live : is_live_in k r t ≡ true = ground (arith, lists k r, in_) in
    (
      ltb→lt r t.next (ground (arith, live)),
      ground (arith, live),
      same→eq (t.store r).call_id k (ground (arith, live)),
    )

pub Live-listed :
    (t : DialogTable) (k : String) (r : ℕ) → Lists t → Live k r t → 0 < occurs r (group k t)
unfolding Lists
Live-listed t k r lists (in_, live, call) =
    let same_call : same (t.store r).call_id k ≡ true =
      rw (if_pos (text_discrete (t.store r).call_id k) call) refl in
    let lt = lt→ltb r t.next in_ in ground (arith, lists k r, live, same_call, lt)

-- The record is a live confirmed one of this Call-ID, and its two tags are these, its caller's tag
-- the From tag if and only if `from_caller`.
abbrev pub Answers : DialogTable → String → String → String → ℕ → Bool → Type 0
Answers t call_id from_tag to_tag r from_caller =
    Live call_id r t
    × (is_confirmed (t.store r).state ≡ true)
    × (from_caller_of from_tag to_tag (t.store r) ≡ from_caller)
    × (from_caller_of from_tag to_tag (t.store r) || from_callee_of from_tag to_tag (t.store r)
        ≡ true)

-- Whatever `lookup` finds, after any steps, is a confirmed record of the request's Call-ID whose two
-- tags are the request's, its From tag the caller's if and only if it says so.
pub lookup-Live :
    (limit : ℕ) (t : DialogTable) (call_id from_tag to_tag : String) (r : ℕ) (from_caller : Bool)
    → Steps limit new_dialog_table t
    → lookup call_id from_tag to_tag t ≡ some (r, from_caller)
    → Answers t call_id from_tag to_tag r from_caller
unfolding lookup
lookup-Live limit t call_id from_tag to_tag r from_caller steps found =
    elim (Bool-cases (same from_tag "" || same to_tag "")) [
      | inl blank ↦ absurd (ground (arith, blank, found))
      | inr named ↦
          elim (Option-cases
            (first_of (λ o. is_dialog_of from_tag to_tag (t.store o)) (group call_id t))) [
              | inl nothing ↦ absurd (ground (arith, named, nothing, found))
              | inr (x, first) ↦
                  let (passes, in_) =
                    first_of-passes (λ o. is_dialog_of from_tag to_tag (t.store o))
                      (group call_id t) x first in
                  let mine : ℕ × Bool = (x, from_caller_of from_tag to_tag (t.store x)) in
                  let theirs : ℕ × Bool = (r, from_caller) in
                  let looked : lookup call_id from_tag to_tag t ≡ some mine =
                    ground (arith, named, first) in
                  let hit = some-injective mine theirs (sym looked ∙ found) in
                  let e : x ≡ r = ap (λ p. p.0) hit in
                  let side : from_caller_of from_tag to_tag (t.store x) ≡ from_caller =
                    ap (λ p. p.1) hit in
                  subst (λ k. Answers t call_id from_tag to_tag k from_caller) e
                    (
                      listed-Live t call_id x (Steps-Lists limit t steps) in_,
                      ground (arith, passes),
                      side,
                      ground (arith, passes),
                    )
            ]
    ]

-- Where a live confirmed record has the tags of a request, in either direction, `lookup` finds a
-- record for it, after any steps: a request of a call that is up is never taken for a stray one. The
-- tags are not empty.
pub lookup-finds :
    (limit : ℕ) (t : DialogTable) (call_id from_tag to_tag : String) (r : ℕ)
    → Steps limit new_dialog_table t
    → same from_tag "" || same to_tag "" ≡ false
    → Live call_id r t
    → is_dialog_of from_tag to_tag (t.store r) ≡ true
    → lookup call_id from_tag to_tag t ≢ none
unfolding lookup
lookup-finds limit t call_id from_tag to_tag r steps named live passes missed =
    let p : ℕ → Bool = λ o. is_dialog_of from_tag to_tag (t.store o) in
    elim (Option-cases (first_of p (group call_id t))) [
      | inr (x, first) ↦ absurd (ground (arith, named, first, missed))
      | inl nothing ↦
          let in_ = Live-listed t call_id r (Steps-Lists limit t steps) live in
          absurd (false-true (sym (first_of-none p (group call_id t) r nothing in_) ∙ passes))
    ]
