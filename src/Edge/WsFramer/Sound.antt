-- ===== src/Edge/WsFramer/Sound.antt =====
-- The rounds of the WebSocket framer keep its counters in their bounds (internal/edge/stream.go).
use freesbc.Base.{
  ℕ, ◌+◌, ◌-◌, ◌^◌, ◌≤◌, min, ◌≡◌, refl, sym, ap, ◌∙◌, inl, inr, true, ◌||◌, List, [], ◌∷◌, arith,
  ltb, leb, ◌==◌, if◌then◌else◌, Bool-cases, false-true, length, drop,
}
use mathlib.Core.Path.{subst}
use freesbc.Edge.WsFramer.Rounds.{
  InState, IsSound, noted, after_head, head_round-after, payload_round-ate, head_filled-rest,
}
use freesbc.Edge.WsFramer.{
  WsState, ws_http, ws_head, ws_payload, WsFramer, close_none, close_oversize, close_malformed,
  goes_on, stream_upgrade_max, match_next, needed, payload_length, http_round, head_done,
  head_filled, head_round, payload_round, round_in, round,
}

pub unfit : close_oversize ≡ close_none → ⊥
unfit e = false-true (ap goes_on e)

pub ill : close_malformed ≡ close_none → ⊥
ill e = false-true (ap goes_on e)

needed-le : (h : List ℕ) → needed h ≤ 14
needed-le h = ground arith

http-IsSound :
    (limit : ℕ) (f : WsFramer) (b : ℕ) (p : List ℕ)
    → f.state ≡ ws_http
    → (http_round f b p).bad ≡ close_none
    → IsSound limit (http_round f b p).framer
unfolding IsSound http_round
http-IsSound limit f b p s on = elim (Bool-cases (match_next b f.matched == 4)) [
  | inl t ↦ rw t (omega arith, omega arith)
  | inr t ↦ elim (Bool-cases (ltb stream_upgrade_max (f.read + 1))) [
    | inl long ↦ absurd (ill (rw (t, long) at on))
    | inr short ↦ rw t (
        subst
          (λ x. InState limit x (record f {
            began = if f.read == 0 then true else f.began;
            read = f.read + 1;
            matched = match_next b f.matched;
          }))
          (sym s) (ground (arith, short)))
  ]
]

head_done-IsSound :
    (limit : ℕ) (f : WsFramer) (p : List ℕ)
    → (head_done limit f p).bad ≡ close_none
    → IsSound limit (head_done limit f p).framer
unfolding IsSound head_done
head_done-IsSound limit f p on =
    let n = payload_length f.hdr in
    elim (Bool-cases (leb (2 ^ 63) n || ltb limit n)) [
      | inl t ↦ absurd (unfit (rw t at on))
      | inr t ↦ elim (Bool-cases (n == 0)) [
        | inl z ↦ rw (t, z) (omega arith, omega arith)
        | inr z ↦ rw (t, z) (ground (arith, z), ground (arith, t), refl, refl)
      ]
    ]

head_filled-IsSound :
    (limit : ℕ) (f : WsFramer) (p : List ℕ)
    → f.state ≡ ws_head
    → f.need ≤ 14
    → (head_filled limit f p).bad ≡ close_none
    → IsSound limit (head_filled limit f p).framer
unfolding IsSound head_filled
head_filled-IsSound limit f p s small on =
    let g = record f { need = if f.need == 2 then needed f.hdr else f.need } in
    let small : g.need ≤ 14 = ground (arith, needed-le f.hdr) in
    elim (Bool-cases (ltb (length f.hdr) g.need)) [
      | inl t ↦ rw t (subst (λ x. InState limit x g) (sym s) (ground (arith, t), small))
      | inr t ↦ rw t (head_done-IsSound limit g p (rw t at on))
    ]

head-IsSound :
    (limit : ℕ) (f : WsFramer) (p : List ℕ)
    → f.state ≡ ws_head
    → f.need ≤ 14
    → (head_round limit f p).bad ≡ close_none
    → IsSound limit (head_round limit f p).framer
unfolding IsSound head_round
head-IsSound limit f p s small on =
    let n = min (f.need - length f.hdr) (length p) in
    let g = noted f n p in
    elim (Bool-cases (ltb (length g.hdr) g.need)) [
      | inl t ↦ rw t (subst (λ x. InState limit x g) (sym s) (ground (arith, t), small))
      | inr t ↦ rw t (head_filled-IsSound limit g (drop n p) s small (rw t at on))
    ]

payload-IsSound :
    (limit : ℕ) (f : WsFramer) (p : List ℕ)
    → f.state ≡ ws_payload
    → f.left ≤ limit
    → f.hdr ≡ []
    → f.need ≡ 2
    → IsSound limit (payload_round f p).framer
unfolding IsSound payload_round
payload-IsSound limit f p s small h n =
    let k = min f.left (length p) in
    elim (Bool-cases (f.left - k == 0)) [
      | inl t ↦ rw t (rw (h, n) (omega arith, omega arith))
      | inr t ↦ rw (t, s) (ground (arith, t), omega (arith, small), h, n)
    ]

http_rest : (f : WsFramer) (b : ℕ) (p : List ℕ) → (http_round f b p).rest ≡ p
unfolding http_round
http_rest f b p = ground arith

after_head-rest : (limit : ℕ) (f : WsFramer) (p : List ℕ) → (after_head limit f p).rest ≡ p
after_head-rest limit f p = ground (arith, head_filled-rest limit f p)

pub round-IsSound :
    (limit : ℕ) (f : WsFramer) (b : ℕ) (p : List ℕ)
    → IsSound limit f
    → (round limit f b p).bad ≡ close_none
    → IsSound limit (round limit f b p).framer
unfolding IsSound round_in
round-IsSound limit f b p sound on = by_state f.state refl sound on
  where
    by_state :
        (s : WsState)
        → f.state ≡ s
        → InState limit s f
        → (round_in s limit f b p).bad ≡ close_none
        → IsSound limit (round_in s limit f b p).framer
    by_state ws_http e h on = http-IsSound limit f b p e on
    by_state ws_head e h on = head-IsSound limit f (b ∷ p) e h.1 on
    by_state ws_payload e h on = payload-IsSound limit f (b ∷ p) e h.1 h.2 h.3

-- A round on one byte uses it.
pub one_rest : (limit : ℕ) (f : WsFramer) (b : ℕ) → IsSound limit f → (round limit f b []).rest ≡ []
unfolding IsSound round_in
one_rest limit f b sound = by_state f.state refl sound
  where
    by_state : (s : WsState) → f.state ≡ s → InState limit s f → (round_in s limit f b []).rest ≡ []
    by_state ws_http e h = http_rest f b []
    by_state ws_head e h =
        ap (λ r. r.rest) (head_round-after limit f (b ∷ []) 1 (omega (arith, h.0)))
        ∙ after_head-rest limit (noted f 1 (b ∷ [])) []
    by_state ws_payload e h = ap (λ r. r.rest) (payload_round-ate f (b ∷ []) 1 (omega (arith, h.0)))
