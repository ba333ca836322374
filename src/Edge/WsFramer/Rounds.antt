-- ===== src/Edge/WsFramer/Rounds.antt =====
-- How a round of the WebSocket framer splits after its first byte (internal/edge/stream.go).
use freesbc.Base.{
  ℕ, suc, ◌+◌, ◌-◌, ◌≤◌, ◌<◌, min, ◌≡◌, refl, sym, ap, ◌∙◌, ◌⊎◌, inl, inr, true, false, List, [],
  ◌∷◌, ◌++◌, arith, ℕ_discrete, ltb, ◌==◌, if◌then◌else◌, length, take, drop, length-append,
}
use mathlib.Core.Path.{subst}
use mathlib.Core.List.{append_assoc}
use freesbc.Edge.WsFramer.{
  WsState, ws_http, ws_head, ws_payload, WsFramer, close_none, stream_upgrade_max, Round,
  http_round, head_done, head_filled, head_round, payload_round, round_in, round,
}

-- What holds of a framer between two rounds: an upgrade request within its limit, an incomplete
-- header of at most 14 bytes, or a payload with bytes left, within the limit, and an empty header.
abbrev pub InState : ℕ → WsState → WsFramer → Type 0
InState limit ws_http f = f.read ≤ stream_upgrade_max
InState limit ws_head f = (length f.hdr < f.need) × (f.need ≤ 14)
InState limit ws_payload f = (0 < f.left) × (f.left ≤ limit) × (f.hdr ≡ []) × (f.need ≡ 2)

unfoldable pub IsSound : ℕ → WsFramer → Type 0
IsSound limit f = InState limit f.state f

-- The first byte alone decides the round, r on all the bytes and r1 on that byte: either the whole
-- round used one byte, or the round on all the bytes goes on where the round on that byte stopped.
abbrev Splits : ℕ → Round → Round → ℕ → List ℕ → Type 0
Splits limit r r1 c q =
    (r ≡ record r1 { rest = c ∷ q })
    ⊎ ((r1.bad ≡ close_none) × (r1.charges ≡ 0) × (r ≡ round limit r1.framer c q))

unfoldable pub OneByte : ℕ → WsFramer → ℕ → ℕ → List ℕ → Type 0
OneByte limit f b c q = Splits limit (round limit f b (c ∷ q)) (round limit f b []) c q

at_state :
    (s : WsState) (limit : ℕ) (f : WsFramer) (b : ℕ) (p : List ℕ)
    → f.state ≡ s
    → round limit f b p ≡ round_in s limit f b p
at_state s limit f b p e = ap (λ t. round_in t limit f b p) e

OneByte-by :
    (limit : ℕ) (f : WsFramer) (b c : ℕ) (q : List ℕ) (r r1 : Round)
    → round limit f b (c ∷ q) ≡ r
    → round limit f b [] ≡ r1
    → Splits limit r r1 c q
    → OneByte limit f b c q
unfolding OneByte
OneByte-by limit f b c q r r1 e e1 split =
    subst (λ x. Splits limit x (round limit f b []) c q) (sym e)
      (subst (λ x. Splits limit r x c q) (sym e1) split)

http-OneByte :
    (limit : ℕ) (f : WsFramer) (b c : ℕ) (q : List ℕ) → f.state ≡ ws_http → OneByte limit f b c q
unfolding http_round round_in
http-OneByte limit f b c q s =
    OneByte-by limit f b c q (http_round f b (c ∷ q)) (http_round f b [])
      (at_state ws_http limit f b (c ∷ q) s) (at_state ws_http limit f b [] s) (inl (ground arith))

-- `n` bytes of a payload are read.
abbrev pub eaten : WsFramer → ℕ → WsFramer
eaten f n = record f { left = f.left - n; state = if f.left - n == 0 then ws_head else f.state }

abbrev pub ate : WsFramer → ℕ → List ℕ → Round
ate f n p = record { framer = eaten f n; rest = drop n p; charges = 0; bad = close_none }

pub payload_round-ate :
    (f : WsFramer) (p : List ℕ) (n : ℕ) → min f.left (length p) ≡ n → payload_round f p ≡ ate f n p
unfolding payload_round
payload_round-ate f p n e = ap (λ k. ate f k p) e

eaten-suc : (f : WsFramer) (n : ℕ) → 1 < f.left → eaten f (suc n) ≡ eaten (eaten f 1) n
eaten-suc f n more =
    let same : f.left - (suc n) ≡ f.left - 1 - n = omega arith in
    let t : (f.left - 1 == 0) ≡ false = ground arith in rw (t, same) refl

payload-OneByte :
    (limit : ℕ) (f : WsFramer) (b c : ℕ) (q : List ℕ)
    → f.state ≡ ws_payload
    → 0 < f.left
    → OneByte limit f b c q
unfolding round_in
payload-OneByte limit f b c q s some_left =
    let r1 = ate f 1 (b ∷ []) in
    let e1 = at_state ws_payload limit f b [] s ∙ payload_round-ate f (b ∷ []) 1 (omega arith) in
    let e = at_state ws_payload limit f b (c ∷ q) s in
    elim (ℕ_discrete f.left 1) [
      | yes one ↦
          OneByte-by limit f b c q (ate f 1 (b ∷ c ∷ q)) r1
            (e ∙ payload_round-ate f (b ∷ c ∷ q) 1 (omega (arith, one))) e1 (inl refl)
      | no more ↦
          let n = min (f.left - 1) (length q + 1) in
          let t : (f.left - 1 == 0) ≡ false = ground arith in
          OneByte-by limit f b c q (ate f (suc n) (b ∷ c ∷ q)) r1
            (e ∙ payload_round-ate f (b ∷ c ∷ q) (suc n) (omega arith)) e1
            (inr (
              refl,
              refl,
              sym (
                  at_state ws_payload limit (eaten f 1) c q (rw t s)
                  ∙ payload_round-ate (eaten f 1) (c ∷ q) n (omega arith)
                  ∙ ap
                      (λ g. record {
                        framer = g;
                        rest = drop n (c ∷ q);
                        charges = 0;
                        bad = close_none;
                      })
                      (sym (eaten-suc f n (omega arith)))),
            ))
    ]

-- `n` bytes of a header are read.
abbrev pub noted : WsFramer → ℕ → List ℕ → WsFramer
noted f n p = record f {
  began = if length f.hdr == 0 then true else f.began;
  hdr = f.hdr ++ take n p;
}

abbrev pub after_head : ℕ → WsFramer → List ℕ → Round
after_head limit f p =
    if ltb (length f.hdr) f.need
    then record { framer = f; rest = p; charges = 0; bad = close_none }
    else head_filled limit f p

pub head_round-after :
    (limit : ℕ) (f : WsFramer) (p : List ℕ) (n : ℕ)
    → min (f.need - length f.hdr) (length p) ≡ n
    → head_round limit f p ≡ after_head limit (noted f n p) (drop n p)
unfolding head_round
head_round-after limit f p n e = ap (λ k. after_head limit (noted f k p) (drop k p)) e

pub head_filled-rest :
    (limit : ℕ) (f : WsFramer) (p : List ℕ)
    → head_filled limit f p ≡ record (head_filled limit f []) { rest = p }
unfolding head_filled head_done
head_filled-rest limit f p = ground arith

noted-suc :
    (f : WsFramer) (n b : ℕ) (p : List ℕ) → noted f (suc n) (b ∷ p) ≡ noted (noted f 1 (b ∷ [])) n p
noted-suc f n b p =
    let t : (length (f.hdr ++ (b ∷ [])) == 0) ≡ false =
      ground (arith, length-append f.hdr (b ∷ [])) in
    rw (t, append_assoc f.hdr (b ∷ []) (take n p)) refl

head-OneByte :
    (limit : ℕ) (f : WsFramer) (b c : ℕ) (q : List ℕ)
    → f.state ≡ ws_head
    → length f.hdr < f.need
    → OneByte limit f b c q
unfolding round_in
head-OneByte limit f b c q s short =
    let f1 = noted f 1 (b ∷ []) in
    let e = at_state ws_head limit f b (c ∷ q) s in
    let e1 =
      at_state ws_head limit f b [] s
      ∙ head_round-after limit f (b ∷ []) 1 (omega (arith, short)) in
    let len = length-append f.hdr (b ∷ []) in
    elim (ℕ_discrete (length f.hdr + 1) f.need) [
      | yes full ↦
          let t : ltb (length f1.hdr) f.need ≡ false = ground (arith, len, full) in
          OneByte-by limit f b c q (after_head limit f1 (c ∷ q)) (after_head limit f1 [])
            (e ∙ head_round-after limit f (b ∷ c ∷ q) 1 (omega (arith, full))) e1
            (inl (rw t (head_filled-rest limit f1 (c ∷ q))))
      | no more ↦
          let n = min (f.need - length f1.hdr) (length q + 1) in
          let t : ltb (length f1.hdr) f.need ≡ true = ground (arith, len, short) in
          let stop : after_head limit f1 []
              ≡ record { framer = f1; rest = []; charges = 0; bad = close_none } =
            rw t refl in
          OneByte-by limit f b c q
            (after_head limit (noted f (suc n) (b ∷ c ∷ q)) (drop (suc n) (b ∷ c ∷ q)))
            (record { framer = f1; rest = []; charges = 0; bad = close_none })
            (e ∙ head_round-after limit f (b ∷ c ∷ q) (suc n) (omega (arith, len))) (e1 ∙ stop)
            (inr (
              refl,
              refl,
              sym (
                  at_state ws_head limit f1 c q s
                  ∙ head_round-after limit f1 (c ∷ q) n (omega arith)
                  ∙ ap (λ g. after_head limit g (drop n (c ∷ q))) (sym (noted-suc f n b (c ∷ q)))),
            ))
    ]

pub round-OneByte :
    (limit : ℕ) (f : WsFramer) (b c : ℕ) (q : List ℕ) → IsSound limit f → OneByte limit f b c q
unfolding IsSound
round-OneByte limit f b c q sound = by_state f.state refl sound
  where
    by_state : (s : WsState) → f.state ≡ s → InState limit s f → OneByte limit f b c q
    by_state ws_http e h = http-OneByte limit f b c q e
    by_state ws_head e h = head-OneByte limit f b c q e h.0
    by_state ws_payload e h = payload-OneByte limit f b c q e h.0
