-- ===== src/Edge/WsFramer/Chunks.antt =====
-- The WebSocket framer's loop, byte by byte (internal/edge/stream.go).
use freesbc.Base.{
  ℕ, zero, suc, ◌+◌, ◌≤◌, ◌≡◌, refl, sym, ap, ◌∙◌, inl, inr, true, Option, some, List, [], ◌∷◌,
  ◌++◌, arith, if◌then◌else◌, Bool-cases, false-true, length,
}
use freesbc.Edge.WsFramer.Rounds.{IsSound, OneByte, round-OneByte}
use freesbc.Edge.WsFramer.Sound.{round-IsSound, one_rest}
use freesbc.Edge.WsFramer.{
  WsFramer, StreamClose, close_none, close_idle, close_slow, close_oversize, close_malformed,
  close_handshake, close_rate, goes_on, Round, round, Fed, feed_loop,
}

-- The framer byte by byte, without a loop inside a round: what a feed is to amount to.
unfoldable pub by_byte : ℕ → WsFramer → ℕ → List ℕ → Fed
by_byte limit f charges [] = record { framer = f; charges = charges; bad = close_none }
by_byte limit f charges (b ∷ p) =
    let r = round limit f b [] in
    let rest = by_byte limit r.framer (charges + r.charges) p in
    if goes_on r.bad
    then rest
    else record { framer = r.framer; charges = charges + r.charges; bad = r.bad }

pub on-close_none : (c : StreamClose) → goes_on c ≡ true → c ≡ close_none
on-close_none close_none e = refl
on-close_none close_idle e = absurd (false-true e)
on-close_none close_slow e = absurd (false-true e)
on-close_none close_oversize e = absurd (false-true e)
on-close_none close_malformed e = absurd (false-true e)
on-close_none close_handshake e = absurd (false-true e)
on-close_none close_rate e = absurd (false-true e)

-- What is left of a feed after a round.
abbrev after : ℕ → ℕ → ℕ → Round → Option Fed
after limit fuel charges r =
    if goes_on r.bad
    then feed_loop limit fuel r.framer (charges + r.charges) r.rest
    else some (record { framer = r.framer; charges = charges + r.charges; bad = r.bad })

abbrev byte_after : ℕ → ℕ → Round → List ℕ → Fed
byte_after limit charges r p =
    if goes_on r.bad
    then by_byte limit r.framer (charges + r.charges) p
    else record { framer = r.framer; charges = charges + r.charges; bad = r.bad }

feed_loop-nil :
    (limit fuel : ℕ) (f : WsFramer) (charges : ℕ)
    → feed_loop limit fuel f charges [] ≡ some (by_byte limit f charges [])
unfolding feed_loop by_byte
feed_loop-nil limit zero f charges = refl
feed_loop-nil limit (suc fuel) f charges = refl

feed_loop-suc :
    (limit fuel : ℕ) (f : WsFramer) (charges b : ℕ) (p : List ℕ)
    → feed_loop limit (suc fuel) f charges (b ∷ p) ≡ after limit fuel charges (round limit f b p)
unfolding feed_loop
feed_loop-suc limit fuel f charges b p = refl

by_byte-cons :
    (limit : ℕ) (f : WsFramer) (charges b : ℕ) (p : List ℕ)
    → by_byte limit f charges (b ∷ p) ≡ byte_after limit charges (round limit f b []) p
unfolding by_byte
by_byte-cons limit f charges b p = refl

after-byte :
    (limit fuel charges : ℕ) (r : Round) (p : List ℕ)
    → (r.bad ≡ close_none
        → feed_loop limit fuel r.framer (charges + r.charges) p
          ≡ some (by_byte limit r.framer (charges + r.charges) p))
    → after limit fuel charges (record r { rest = p }) ≡ some (byte_after limit charges r p)
after-byte limit fuel charges r p go = elim (Bool-cases (goes_on r.bad)) [
  | inl t ↦ rw t (go (on-close_none r.bad t))
  | inr t ↦ rw t refl
]

byte_after-free :
    (limit charges : ℕ) (r : Round) (p : List ℕ)
    → r.bad ≡ close_none
    → r.charges ≡ 0
    → byte_after limit charges r p ≡ by_byte limit r.framer charges p
byte_after-free limit charges r p on free =
    let same : charges + r.charges ≡ charges = omega (arith, free) in rw (on, same) refl

-- A whole feed, with a round at most for each byte, never runs out of rounds, and is the feed byte
-- by byte.
pub feed_loop-by_byte :
    (limit fuel : ℕ) (f : WsFramer) (charges : ℕ) (p : List ℕ)
    → IsSound limit f
    → length p ≤ fuel
    → feed_loop limit fuel f charges p ≡ some (by_byte limit f charges p)
unfolding OneByte
feed_loop-by_byte limit fuel f charges [] sound enough = feed_loop-nil limit fuel f charges
feed_loop-by_byte limit zero f charges (b ∷ p) sound enough = absurd (omega (arith, enough))
feed_loop-by_byte limit (suc fuel) f charges (b ∷ []) sound enough =
    let r = round limit f b [] in
    feed_loop-suc limit fuel f charges b []
    ∙ ap (λ l. after limit fuel charges (record r { rest = l })) (one_rest limit f b sound)
    ∙ after-byte limit fuel charges r [] (λ on.
      feed_loop-by_byte limit fuel r.framer (charges + r.charges) []
        (round-IsSound limit f b [] sound on) (omega arith))
    ∙ ap some (sym (by_byte-cons limit f charges b []))
feed_loop-by_byte limit (suc fuel) f charges (b ∷ c ∷ q) sound enough =
    let r = round limit f b [] in
    let next = feed_loop-suc limit fuel f charges b (c ∷ q) in
    let back = ap some (sym (by_byte-cons limit f charges b (c ∷ q))) in
    elim (round-OneByte limit f b c q sound) [
      | inl e ↦
          next
          ∙ ap (after limit fuel charges) e
          ∙ after-byte limit fuel charges r (c ∷ q) (λ on.
            feed_loop-by_byte limit fuel r.framer (charges + r.charges) (c ∷ q)
              (round-IsSound limit f b [] sound on) (omega (arith, enough)))
          ∙ back
      | inr (on, free, e) ↦
          next
          ∙ ap (after limit fuel charges) e
          ∙ sym (feed_loop-suc limit fuel r.framer charges c q)
          ∙ feed_loop-by_byte limit (suc fuel) r.framer charges (c ∷ q)
              (round-IsSound limit f b [] sound on) (omega (arith, enough))
          ∙ ap some (sym (byte_after-free limit charges r (c ∷ q) on free))
          ∙ back
    ]

pub by_byte-append :
    (limit : ℕ) (f : WsFramer) (charges : ℕ) (p q : List ℕ)
    → (by_byte limit f charges p).bad ≡ close_none
    → by_byte limit f charges (p ++ q)
      ≡ by_byte limit (by_byte limit f charges p).framer (by_byte limit f charges p).charges q
unfolding by_byte
by_byte-append limit f charges [] q on = refl
by_byte-append limit f charges (b ∷ p) q on =
    let r = round limit f b [] in
    elim (Bool-cases (goes_on r.bad)) [
      | inl t ↦ rw t (by_byte-append limit r.framer (charges + r.charges) p q (rw t at on))
      | inr t ↦ absurd (false-true (sym t ∙ ap goes_on (rw t at on)))
    ]

pub by_byte-IsSound :
    (limit : ℕ) (f : WsFramer) (charges : ℕ) (p : List ℕ)
    → IsSound limit f
    → (by_byte limit f charges p).bad ≡ close_none
    → IsSound limit (by_byte limit f charges p).framer
unfolding by_byte
by_byte-IsSound limit f charges [] sound on = sound
by_byte-IsSound limit f charges (b ∷ p) sound on =
    let r = round limit f b [] in
    elim (Bool-cases (goes_on r.bad)) [
      | inl t ↦ rw t (
          by_byte-IsSound limit r.framer (charges + r.charges) p
            (round-IsSound limit f b [] sound (on-close_none r.bad t)) (rw t at on))
      | inr t ↦ absurd (false-true (sym t ∙ ap goes_on (rw t at on)))
    ]
