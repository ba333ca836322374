-- ===== src/Edge/Cooldown/Breaker.antt =====
-- The circuit breaker: when it opens, what it admits while it is open, what closes it
-- (internal/edge/cooldown.go).
use freesbc.Base.{
  ℕ, zero, suc, ◌+◌, ◌≤◌, ◌<◌, min, String, ◌≡◌, refl, sym, inl, inr, Bool, true, false, Option,
  none, some, List, [], ◌∷◌, arith, text_discrete, leb, Bool-cases, Option-cases, false-true,
}
use freesbc.Base.Assoc.{find-put_self}
use freesbc.Edge.Cooldown.{
  RegBreaker, CooldownTable, register_breaker_threshold, register_breaker_backoff, breaker,
  with_breaker, allow_breaker, register_allow, register_answered, Unanswered, opens_now, warned,
  unanswered_breaker, breaker_or_new, register_unanswered,
}

backoff_range :
    (i : ℕ)
    → i ≤ 2
    → (w : ℕ) × (register_breaker_backoff i ≡ some w) × (30000000000 ≤ w) × (w ≤ 300000000000)
unfolding register_breaker_backoff
backoff_range zero h = (_, refl, omega arith, omega arith)
backoff_range (suc zero) h = (_, refl, omega arith, omega arith)
backoff_range (suc (suc zero)) h = (_, refl, omega arith, omega arith)
backoff_range (suc (suc (suc i))) h = absurd (omega arith)

-- One probe at a time: after a dial that is admitted as the probe of an open breaker, no other dial
-- is admitted before the probe's budget is spent, unless the breaker hears of the attempt.
pub probe_alone :
    (name : String) (budget budget' now t : ℕ) (h : CooldownTable)
    → (register_allow name budget now h).2 ≡ true
    → t < now + budget
    → let again = register_allow name budget' t (register_allow name budget now h).0 in
      (again.1 ≡ false) × (again.2 ≡ false)
unfolding register_allow allow_breaker
probe_alone name budget budget' now t h probe before = elim (Option-cases (breaker name h)) [
  | inl new ↦ absurd (ground (arith, new))
  | inr (b, known) ↦
      let b' = (allow_breaker budget now b).0 in
      (
        ground (arith, known, find-put_self text_discrete name b' h.reg),
        ground (arith, known, find-put_self text_discrete name b' h.reg),
      )
]

min_two : (n : ℕ) → min n 2 ≤ 2
min_two n = omega arith

pub unanswered_breaker_total :
    (probe : Bool) (now : ℕ) (b : RegBreaker)
    → (b' : RegBreaker) × (r : Unanswered) × (unanswered_breaker probe now b ≡ some (b', r))
      × (r.opened ≡ opens_now probe (record b { fails = b.fails + 1 }))
      × (r.opened ≡ true
          → (30000000000 ≤ r.window)
            × (r.window ≤ 300000000000)
            × (b'.is_open ≡ true)
            × (b'.open_until ≡ now + r.window)
            × (b'.level ≡ b.level + 1))
      × (r.opened ≡ false
          → (b'.is_open ≡ b.is_open) × (b'.level ≡ b.level) × (b'.fails ≡ b.fails + 1))
unfolding unanswered_breaker warned
unanswered_breaker_total probe now b =
    let (w, e, low, high) = backoff_range (min b.level 2) (min_two b.level) in
    elim (Bool-cases (opens_now probe (record b { fails = b.fails + 1 }))) [
      | inl opens ↦
          rw (opens, e)
            (_, _, refl, refl, λ _. (low, high, refl, refl, refl), λ f. absurd (false-true (sym f)))
      | inr stays ↦
          let (c, r) = warned false 0 now (record b { fails = b.fails + 1 }) in
          rw stays (
            c,
            r,
            refl,
            ground arith,
            λ f. absurd (false-true (ground arith)),
            λ _. (ground arith, ground arith, ground arith),
          )
    ]

-- Any answer closes the breaker: after it every dial is allowed, at any instant, and none is a probe.
pub answered-closes :
    (name : String) (budget t : ℕ) (h : CooldownTable)
    → let again = register_allow name budget t (register_answered name h) in
      (again.1 ≡ true) × (again.2 ≡ false)
unfolding register_allow register_answered allow_breaker
answered-closes name budget t h = elim (Option-cases (breaker name h)) [
  | inl new ↦ (ground (arith, new), ground (arith, new))
  | inr (b, known) ↦
      let b' : RegBreaker = record b {
        fails = 0;
        level = 0;
        is_open = false;
        open_until = 0;
        probe_by = 0;
      } in
      (
        ground (arith, known, find-put_self text_discrete name b' h.reg),
        ground (arith, known, find-put_self text_discrete name b' h.reg),
      )
]

-- The unanswered attempts of one node, one after the other, and which of them opened the breaker.
pub run_unanswered : String → List (Bool × ℕ) → CooldownTable → Option (List Bool)
run_unanswered name [] h = some []
run_unanswered name ((probe, now) ∷ l) h =
    let rest = λ (h' : CooldownTable). run_unanswered name l h' in
    elim (register_unanswered name probe now h) [
      | none ↦ none
      | some (h', r) ↦ elim (rest h') [ none ↦ none | some os ↦ some (r.opened ∷ os) ]
    ]

-- The node's breaker is closed and has counted `f` unanswered attempts.
abbrev pub Closed : String → ℕ → CooldownTable → Type 0
Closed name f h =
    ((breaker_or_new (breaker name h)).is_open ≡ false)
    × ((breaker_or_new (breaker name h)).fails ≡ f)

Closed-step :
    (name : String) (probe : Bool) (now f : ℕ) (h : CooldownTable)
    → Closed name f h
    → (h' : CooldownTable) × (r : Unanswered) × (register_unanswered name probe now h
        ≡ some (h', r))
      × (r.opened ≡ leb register_breaker_threshold (f + 1))
      × (f + 1 < register_breaker_threshold → Closed name (f + 1) h')
unfolding register_unanswered
Closed-step name probe now f h c =
    let (b, r, e, same, opened, closed) =
      unanswered_breaker_total probe now (breaker_or_new (breaker name h)) in
    let stays : r.opened ≡ leb register_breaker_threshold (f + 1) = ground (arith, same) in
    rw (e, register_unanswered)
      (
        with_breaker name b h,
        r,
        refl,
        stays,
        λ low.
            let quiet : r.opened ≡ false = ground (arith, stays) in
            (
              ground (arith, closed quiet, find-put_self text_discrete name b h.reg),
              ground (arith, closed quiet, find-put_self text_discrete name b h.reg),
            ),
      )

-- The breaker opens at the third unanswered attempt in a row, not before: of three attempts at a
-- node whose breaker is closed with nothing counted, an unknown one's included, whatever their
-- instants, only the third opens it.
pub opens-third :
    (name : String) (p₁ p₂ p₃ : Bool) (t₁ t₂ t₃ : ℕ) (h : CooldownTable)
    → Closed name 0 h
    → run_unanswered name ((p₁, t₁) ∷ (p₂, t₂) ∷ (p₃, t₃) ∷ []) h ≡ some (false ∷ false ∷ true ∷ [])
unfolding run_unanswered
opens-third name p₁ p₂ p₃ t₁ t₂ t₃ h c =
    let (h₁, r₁, e₁, o₁, c₁) = Closed-step name p₁ t₁ 0 h c in
    let (h₂, r₂, e₂, o₂, c₂) = Closed-step name p₂ t₂ 1 h₁ (c₁ (omega arith)) in
    let (h₃, r₃, e₃, o₃, c₃) = Closed-step name p₃ t₃ 2 h₂ (c₂ (omega arith)) in
    ground (arith, e₁, e₂, e₃, o₁, o₂, o₃)
