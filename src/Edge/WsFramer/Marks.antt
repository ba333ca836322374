-- ===== src/Edge/WsFramer/Marks.antt =====
-- The marks `began` and `data` of the WebSocket framer decide nothing of what it does
-- (internal/edge/stream.go).
use freesbc.Base.{
  ℕ, ◌+◌, ◌-◌, ◌^◌, min, ◌≡◌, refl, ap, inl, inr, Bool, true, ◌||◌, List, [], ◌∷◌, ◌++◌, arith, ltb,
  leb, ◌==◌, if◌then◌else◌, Bool-cases, length, take, drop,
}
use freesbc.Edge.WsFramer.Chunks.{by_byte}
use freesbc.Edge.WsFramer.{
  WsState, ws_http, ws_head, ws_payload, WsFramer, goes_on, match_next, needed, payload_length,
  Round, http_round, head_done, head_filled, head_round, payload_round, round_in, round, fresh,
}

-- A framer with other marks of what began in this feed.
abbrev marked : WsFramer → Bool → Bool → WsFramer
marked f x y = record f { began = x; data_began = y }

-- The marks decide nothing.
SameRound : Round → Round → Type 0
SameRound r s = (r.bad ≡ s.bad) × (r.charges ≡ s.charges) × (fresh r.framer ≡ fresh s.framer)

head_done-marked :
    (limit : ℕ) (f : WsFramer) (x y : Bool) (p : List ℕ)
    → SameRound (head_done limit (marked f x y) p) (head_done limit f p)
unfolding SameRound head_done
head_done-marked limit f x y p =
    elim (Bool-cases (leb (2 ^ 63) (payload_length f.hdr) || ltb limit (payload_length f.hdr))) [
      | inl t ↦ rw t (refl, refl, refl)
      | inr t ↦ rw t (refl, refl, refl)
    ]

head_filled-marked :
    (limit : ℕ) (f : WsFramer) (x y : Bool) (p : List ℕ)
    → SameRound (head_filled limit (marked f x y) p) (head_filled limit f p)
unfolding SameRound head_filled
head_filled-marked limit f x y p =
    let g = record f { need = if f.need == 2 then needed f.hdr else f.need } in
    elim (Bool-cases (ltb (length f.hdr) g.need)) [
      | inl t ↦ rw t (refl, refl, refl)
      | inr t ↦ rw t (head_done-marked limit g x y p)
    ]

http_round-marked :
    (f : WsFramer) (b : ℕ) (x y : Bool)
    → SameRound (http_round (marked f x y) b []) (http_round f b [])
unfolding SameRound http_round
http_round-marked f b x y = elim (Bool-cases (match_next b f.matched == 4)) [
  | inl t ↦ rw t (refl, refl, refl)
  | inr t ↦ rw t (refl, refl, refl)
]

head_round-marked :
    (limit : ℕ) (f : WsFramer) (b : ℕ) (x y : Bool)
    → SameRound (head_round limit (marked f x y) (b ∷ [])) (head_round limit f (b ∷ []))
unfolding SameRound head_round
head_round-marked limit f b x y =
    let n = min (f.need - length f.hdr) 1 in
    let now : Bool → Bool = λ z. if length f.hdr == 0 then true else z in
    let g = record f { began = now f.began; hdr = f.hdr ++ take n (b ∷ []) } in
    elim (Bool-cases (ltb (length g.hdr) g.need)) [
      | inl t ↦ rw t (refl, refl, refl)
      | inr t ↦ rw t (head_filled-marked limit g (now x) y (drop n (b ∷ [])))
    ]

payload_round-marked :
    (f : WsFramer) (b : ℕ) (x y : Bool)
    → SameRound (payload_round (marked f x y) (b ∷ [])) (payload_round f (b ∷ []))
unfolding SameRound payload_round
payload_round-marked f b x y = (refl, refl, refl)

round-marked :
    (limit : ℕ) (f : WsFramer) (b : ℕ) (x y : Bool)
    → SameRound (round limit (marked f x y) b []) (round limit f b [])
unfolding round_in
round-marked limit f b x y = by_state f.state
  where
    by_state :
        (s : WsState) → SameRound (round_in s limit (marked f x y) b []) (round_in s limit f b [])
    by_state ws_http = http_round-marked f b x y
    by_state ws_head = head_round-marked limit f b x y
    by_state ws_payload = payload_round-marked f b x y

alike : (f g : WsFramer) → fresh f ≡ fresh g → f ≡ marked g f.began f.data_began
alike f g e = ap (λ h. marked h f.began f.data_began) e

-- A feed from a framer with other marks, after other charges.
pub by_byte-marked :
    (limit : ℕ) (f : WsFramer) (x y : Bool) (c d : ℕ) (p : List ℕ)
    → let r = by_byte limit (marked f x y) (c + d) p in
      let s = by_byte limit f d p in
      (r.bad ≡ s.bad) × (r.charges ≡ c + s.charges) × (fresh r.framer ≡ fresh s.framer)
unfolding by_byte SameRound
by_byte-marked limit f x y c d [] = (refl, refl, refl)
by_byte-marked limit f x y c d (b ∷ p) =
    let r = round limit (marked f x y) b [] in
    let s = round limit f b [] in
    let (bad, charged, same) = round-marked limit f b x y in
    let sum : c + d + r.charges ≡ c + (d + s.charges) = omega (arith, charged) in
    elim (Bool-cases (goes_on s.bad)) [
      | inr t ↦ rw (bad, t) (refl, sum, same)
      | inl t ↦
          rw (bad, t, sum, alike r.framer s.framer same)
            (by_byte-marked limit s.framer r.framer.began r.framer.data_began c (d + s.charges) p)
    ]
