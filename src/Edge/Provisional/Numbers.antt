-- ===== src/Edge/Provisional/Numbers.antt =====
-- The numbers of the recorded responses (internal/edge/prov.go).
use freesbc.Base.{
  ℕ, ◌+◌, ◌-◌, ◌^◌, ◌≤◌, ◌<◌, ◌≡◌, refl, ap, ◌∙◌, inl, inr, true, false, List, [], ◌∷◌, ◌++◌, map,
  arith, leb, ◌==◌, if◌then◌else◌, Bool-cases, keep,
}
use freesbc.Edge.Provisional.{Response, ProvEntry, without_first, final_seq, unrelayed, ahead_of}

-- The entries' numbers rise, from above `lo` to `hi` at most.
unfoldable pub Rising : ℕ → ℕ → List ProvEntry → Type 0
Rising lo hi [] = lo ≤ hi
Rising lo hi (e ∷ es) = (lo < e.seq) × Rising e.seq hi es

Rising-le : (lo hi : ℕ) (es : List ProvEntry) → Rising lo hi es → lo ≤ hi
unfolding Rising
Rising-le lo hi [] r = r
Rising-le lo hi (e ∷ es) (low, r) = omega (arith, low, Rising-le e.seq hi es r)

Rising-lower : (lo l hi : ℕ) (es : List ProvEntry) → l ≤ lo → Rising lo hi es → Rising l hi es
unfolding Rising
Rising-lower lo l hi [] below r = omega (arith, below, r)
Rising-lower lo l hi (e ∷ es) below (low, r) = (omega (arith, below, low), r)

pub Rising-without_first :
    (lo hi : ℕ) (es : List ProvEntry) → Rising lo hi es → Rising lo hi (without_first es)
unfolding Rising
Rising-without_first lo hi [] r = r
Rising-without_first lo hi (e ∷ es) (low, r) = Rising-lower e.seq lo hi es (omega (arith, low)) r

pub Rising-append :
    (lo hi : ℕ) (es : List ProvEntry) (res : Response)
    → Rising lo hi es
    → Rising lo (hi + 1) (es ++ (record { seq = hi + 1; res = res } ∷ []))
unfolding Rising
Rising-append lo hi [] res r = (omega (arith, r), omega arith)
Rising-append lo hi (e ∷ es) res (low, r) = (low, Rising-append e.seq hi es res r)

-- The responses up to the final one, which is not among them.
unfoldable pub until : ℕ → List Response → List Response
until final [] = []
until final (r ∷ rs) = let rest = until final rs in if r.ptr == final then [] else r ∷ rest

unfoldable pub responses : List ProvEntry → List Response
responses es = map (λ e. e.res) es

-- The bound that `before` uses.
abbrev pub bound_of : ℕ → ℕ
bound_of seq = if seq == 0 then 2 ^ 64 - 1 else seq

final_seq-Rising :
    (lo hi final : ℕ) (es : List ProvEntry)
    → hi < 2 ^ 64 - 1
    → Rising lo hi es
    → lo < bound_of (final_seq final es)
unfolding Rising
final_seq-Rising lo hi final [] small r = omega (arith, small, r)
final_seq-Rising lo hi final (e ∷ es) small (low, r) =
    ground (arith, low, final_seq-Rising e.seq hi final es small r)

ahead_of-cons :
    (n : ℕ) (done : List ℕ) (e : ProvEntry) (es : List ProvEntry)
    → ahead_of n done (e ∷ es) ≡ (
        if leb n e.seq
        then []
        else (if unrelayed done e.res then e.res ∷ ahead_of n done es else ahead_of n done es))
ahead_of-cons n done e es = refl

pub ahead_of-until :
    (lo hi final : ℕ) (done : List ℕ) (es : List ProvEntry)
    → hi < 2 ^ 64 - 1
    → Rising lo hi es
    → ahead_of (bound_of (final_seq final es)) done es
      ≡ keep (unrelayed done) (until final (responses es))
unfolding Rising until responses
ahead_of-until lo hi final done [] small r = refl
ahead_of-until lo hi final done (e ∷ es) small (low, r) =
    let later = final_seq-Rising e.seq hi final es small r in
    let ih = ahead_of-until e.seq hi final done es small r in
    let n = bound_of (final_seq final (e ∷ es)) in
    elim (Bool-cases (e.res.ptr == final)) [
      | inl t ↦
          let here : n ≡ e.seq = rw t (ground (arith, low)) in
          let stop : leb e.seq e.seq ≡ true = ground arith in
          let nothing : ahead_of e.seq done (e ∷ es) ≡ [] =
            ahead_of-cons e.seq done e es ∙ rw stop refl in
          ap (λ k. ahead_of k done (e ∷ es)) here ∙ nothing ∙ rw t refl
      | inr t ↦
          let there : n ≡ bound_of (final_seq final es) = rw t refl in
          let on : leb (bound_of (final_seq final es)) e.seq ≡ false = ground (arith, later) in
          let taken : ahead_of (bound_of (final_seq final es)) done (e ∷ es) ≡ (
              if unrelayed done e.res
              then e.res ∷ keep (unrelayed done) (until final (responses es))
              else keep (unrelayed done) (until final (responses es))) =
            ahead_of-cons (bound_of (final_seq final es)) done e es ∙ rw (on, ih) refl in
          ap (λ k. ahead_of k done (e ∷ es)) there ∙ taken ∙ rw t refl
    ]
