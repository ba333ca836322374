-- ===== src/Edge/Cooldown/Held.antt =====
-- How long an opened breaker holds (internal/edge/cooldown.go).
use freesbc.Base.{
  ℕ, ◌+◌, ◌≤◌, ◌<◌, String, ◌≡◌, refl, sym, ap, ◌∙◌, ◌≢◌, ◌⊎◌, inl, inr, Bool, true, false, some,
  arith, text_discrete, Option-cases,
}
use freesbc.Base.Assoc.{find, put, find-put_self, find-put_ne}
use freesbc.Edge.Cooldown.{
  RegBreaker, CooldownTable, breaker, with_breaker, allow_breaker, register_allow,
  register_answered, Unanswered, opens_now, warned, unanswered_breaker, breaker_or_new,
  register_unanswered, register_release, penalize, recover,
}
use mathlib.Core.Option.{some-injective}
use mathlib.Core.Path.{subst}
use freesbc.Edge.Cooldown.Breaker.{unanswered_breaker_total}

-- The breaker of a node is open until an instant.
abbrev OpenUntil : String → ℕ → CooldownTable → Type 0
OpenUntil name u h =
    (b : RegBreaker) × (breaker name h ≡ some b) × (b.is_open ≡ true) × (b.open_until ≡ u)

-- What may be called between, at any instants and for any nodes: everything but an answer from the
-- node itself, and the report of a probe of it that nothing answered.
pub data Later (name : String) (h : CooldownTable) : CooldownTable → Type 0 where
  at_once : Later name h h
  allows :
      {u : CooldownTable} (n : String) (budget now : ℕ)
      → Later name h u
      → Later name h (register_allow n budget now u).0
  releases : {u : CooldownTable} (n : String) → Later name h u → Later name h (register_release n u)
  answers :
      {u : CooldownTable} (n : String)
      → name ≢ n
      → Later name h u
      → Later name h (register_answered n u)
  stays_silent :
      {u v : CooldownTable} (n : String) (probe : Bool) (now : ℕ) (r : Unanswered)
      → (name ≢ n) ⊎ (probe ≡ false)
      → register_unanswered n probe now u ≡ some (v, r)
      → Later name h u
      → Later name h v
  penalizes :
      {u : CooldownTable} (n : String) (cooldown now : ℕ)
      → Later name h u
      → Later name h (penalize n cooldown now u)
  recovers : {u : CooldownTable} (n : String) → Later name h u → Later name h (recover n u)

-- The breaker of another node is written, or one of this node that is open as long.
with_breaker-OpenUntil :
    (name n : String) (t : ℕ) (b : RegBreaker) (u : CooldownTable)
    → OpenUntil name t u
    → (name ≡ n → (b.is_open ≡ true) × (b.open_until ≡ t))
    → OpenUntil name t (with_breaker n b u)
with_breaker-OpenUntil name n t b u (c, known, opn, until) same = elim (text_discrete name n) [
  | yes e ↦ (
    b,
    ap (λ k. find text_discrete name (put text_discrete k b u.reg)) (sym e)
        ∙ find-put_self text_discrete name b u.reg,
    (same e).0,
    (same e).1,
  )
  | no ne ↦ (c, find-put_ne text_discrete name n b u.reg ne ∙ known, opn, until)
]

-- The breaker of the node is the open one.
the_open :
    (name n : String) (t : ℕ) (b : RegBreaker) (u : CooldownTable)
    → OpenUntil name t u
    → breaker n u ≡ some b
    → name ≡ n
    → (b.is_open ≡ true) × (b.open_until ≡ t)
the_open name n t b u (c, known, opn, until) found e =
    let c_b : c ≡ b = some-injective c b (sym known ∙ ap (λ k. breaker k u) e ∙ found) in
    (ap (λ x. x.is_open) (sym c_b) ∙ opn, ap (λ x. x.open_until) (sym c_b) ∙ until)

allow-keeps :
    (budget now : ℕ) (b : RegBreaker)
    → ((allow_breaker budget now b).0.is_open ≡ b.is_open)
      × ((allow_breaker budget now b).0.open_until ≡ b.open_until)
unfolding allow_breaker
allow-keeps budget now b = (ground arith, ground arith)

warned-keeps :
    (now : ℕ) (b : RegBreaker)
    → ((warned false 0 now b).0.is_open ≡ b.is_open)
      × ((warned false 0 now b).0.open_until ≡ b.open_until)
unfolding warned
warned-keeps now b = (ground arith, ground arith)

-- An attempt that is no probe leaves an open breaker open as long.
silent-keeps :
    (now : ℕ) (b c : RegBreaker) (r : Unanswered)
    → b.is_open ≡ true
    → unanswered_breaker false now b ≡ some (c, r)
    → (c.is_open ≡ true) × (c.open_until ≡ b.open_until)
unfolding unanswered_breaker warned
silent-keeps now b c r opn e =
    let shut : opens_now false (record b { fails = b.fails + 1 }) ≡ false = ground (arith, opn) in
    let is : warned false 0 now (record b { fails = b.fails + 1 }) ≡ (c, r) =
      some-injective _ _ (rw shut at e) in
    let first : c ≡ (warned false 0 now (record b { fails = b.fails + 1 })).0 =
      ap (λ (p : RegBreaker × Unanswered). p.0) (sym is) in
    let (state, until) = warned-keeps now (record b { fails = b.fails + 1 }) in
    (ap (λ x. x.is_open) first ∙ state ∙ opn, ap (λ x. x.open_until) first ∙ until)

release-keeps :
    (name n : String) (t : ℕ) (u : CooldownTable)
    → OpenUntil name t u
    → OpenUntil name t (register_release n u)
unfolding register_release
release-keeps name n t u opn = elim (Option-cases (breaker n u)) [
  | inl new ↦ rw (new, register_release) opn
  | inr (b, found) ↦
      rw (found, register_release)
        (with_breaker-OpenUntil name n t (record b { probe_by = 0 }) u opn
          (the_open name n t b u opn found))
]

allows-keeps :
    (name n : String) (t budget now : ℕ) (u : CooldownTable)
    → OpenUntil name t u
    → OpenUntil name t (register_allow n budget now u).0
unfolding register_allow
allows-keeps name n t budget now u opn = elim (Option-cases (breaker n u)) [
  | inl new ↦ rw (new, register_allow) opn
  | inr (b, found) ↦
      let (state, until) = allow-keeps budget now b in
      rw (found, register_allow)
        (with_breaker-OpenUntil name n t (allow_breaker budget now b).0 u opn
          (λ e. let (was, at_t) = the_open name n t b u opn found e in (state ∙ was, until ∙ at_t)))
]

answers-keeps :
    (name n : String) (t : ℕ) (u : CooldownTable)
    → name ≢ n
    → OpenUntil name t u
    → OpenUntil name t (register_answered n u)
unfolding register_answered
answers-keeps name n t u ne opn = elim (Option-cases (breaker n u)) [
  | inl new ↦ rw (new, register_answered) opn
  | inr (b, found) ↦
      rw (found, register_answered) (with_breaker-OpenUntil name n t _ u opn (λ e. absurd (ne e)))
]

silence-keeps :
    (name n : String) (t : ℕ) (probe : Bool) (now : ℕ) (r : Unanswered) (u v : CooldownTable)
    → (name ≢ n) ⊎ (probe ≡ false)
    → register_unanswered n probe now u ≡ some (v, r)
    → OpenUntil name t u
    → OpenUntil name t v
unfolding register_unanswered
silence-keeps name n t probe now r u v which e opn =
    elim (Option-cases (unanswered_breaker probe now (breaker_or_new (breaker n u)))) [
      | inl panic ↦ absurd (ground (arith, rw (panic, register_unanswered) at e))
      | inr ((c, q), counted) ↦
          let is : (with_breaker n c u, q) ≡ (v, r) =
            some-injective _ _ (rw (counted, register_unanswered) at e) in
          let kept = with_breaker-OpenUntil name n t c u opn (stays c q counted which) in
          subst (OpenUntil name t) (ap (λ (p : CooldownTable × Unanswered). p.0) is) kept
    ]
  where
    stays :
        (c : RegBreaker) (q : Unanswered)
        → unanswered_breaker probe now (breaker_or_new (breaker n u)) ≡ some (c, q)
        → (name ≢ n) ⊎ (probe ≡ false)
        → name ≡ n
        → (c.is_open ≡ true) × (c.open_until ≡ t)
    stays c q counted (inl ne) e = absurd (ne e)
    stays c q counted (inr plain) e =
        let (b, known, was, until) = opn in
        let found : breaker_or_new (breaker n u) ≡ b =
          ap breaker_or_new (ap (λ k. breaker k u) (sym e) ∙ known) in
        let (state, same) = silent-keeps now b c q was (
          ap (λ x. unanswered_breaker false now x) (sym found)
          ∙ ap (λ p. unanswered_breaker p now (breaker_or_new (breaker n u))) (sym plain)
          ∙ counted) in
        (state, same ∙ until)

Later-OpenUntil :
    (name : String) (t : ℕ) {h u : CooldownTable}
    → Later name h u
    → OpenUntil name t h
    → OpenUntil name t u
unfolding penalize recover
Later-OpenUntil name t at_once opn = opn
Later-OpenUntil name t (allows {u} n budget now run) opn =
    allows-keeps name n t budget now u (Later-OpenUntil name t run opn)
Later-OpenUntil name t (releases {u} n run) opn =
    release-keeps name n t u (Later-OpenUntil name t run opn)
Later-OpenUntil name t (answers {u} n ne run) opn =
    answers-keeps name n t u ne (Later-OpenUntil name t run opn)
Later-OpenUntil name t (stays_silent {u} {v} n probe now r which e run) opn =
    silence-keeps name n t probe now r u v which e (Later-OpenUntil name t run opn)
Later-OpenUntil name t (penalizes n cooldown now run) opn = Later-OpenUntil name t run opn
Later-OpenUntil name t (recovers n run) opn = Later-OpenUntil name t run opn

OpenUntil-refuses :
    (name : String) (budget t until : ℕ) (h : CooldownTable)
    → OpenUntil name until h
    → t < until
    → (register_allow name budget t h).1 ≡ false
unfolding register_allow allow_breaker
OpenUntil-refuses name budget t until h (b, known, opn, at_until) before =
    ground (arith, known, opn, at_until, before)

-- The breaker never panics, and an opening holds: whatever the table, an unanswered attempt is
-- recorded; and if it opens the breaker of the node, then for a window of thirty seconds to five
-- minutes that it reports, and until that has passed every request to dial a REGISTER to the node is
-- refused, whatever calls come between, for it or for others, other than an answer from the node
-- and the report that a probe of it was not answered.
pub unanswered-holds :
    (name : String) (probe : Bool) (now budget t : ℕ) (h : CooldownTable)
    → (h' : CooldownTable) × (r : Unanswered) × (register_unanswered name probe now h
        ≡ some (h', r))
      × (r.opened ≡ true
          → (30000000000 ≤ r.window)
            × (r.window ≤ 300000000000)
            × ((u : CooldownTable)
                → Later name h' u
                → t < now + r.window
                → (register_allow name budget t u).1 ≡ false))
unfolding register_unanswered
unanswered-holds name probe now budget t h =
    let (b, r, e, same, opened, closed) =
      unanswered_breaker_total probe now (breaker_or_new (breaker name h)) in
    rw (e, register_unanswered)
      (
        with_breaker name b h,
        r,
        refl,
        λ o. (
          (opened o).0,
          (opened o).1,
          λ u run before.
              OpenUntil-refuses name budget t (now + r.window) u
                (Later-OpenUntil name (now + r.window) run
                  (b, find-put_self text_discrete name b h.reg, (opened o).2, (opened o).3))
                before,
        ),
      )
