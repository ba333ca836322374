-- ===== src/Edge/SipFramer/Returns.antt =====
-- Every feed of the SIP framer returns, with its buffer within the limit (internal/edge/stream.go).
use freesbc.Base.{
  ℕ, zero, suc, ◌+◌, ◌-◌, ◌*◌, ◌%◌, ◌^◌, ◌≤◌, ◌<◌, min, ◌≡◌, refl, sym, ap, ◌∙◌, inl, inr, Bool,
  true, false, not, ◌&&◌, ◌||◌, Option, none, some, List, [], ◌∷◌, ◌++◌, arith, ltb, leb, ◌==◌,
  if◌then◌else◌, Bool-cases, Option-cases, false-true, length, take, drop, length-append,
  length-take-le,
}
use mathlib.Core.Path.{subst}
use mathlib.Core.Option.{some-injective}
use freesbc.Edge.WsFramer.{close_none, goes_on}
use freesbc.Edge.WsFramer.Chunks.{on-close_none}
use freesbc.Edge.WsFramer.Sound.{unfit, ill}
use freesbc.Edge.SipFramer.{
  SipState, sip_idle, sip_head, sip_body, is_idle, SipFramer, skip_newlines, crlfcrlf, exceeds,
  has_prefix, index_of, split_lines, length_value, scan_length, content_length, Round, idle_from,
  idle_round, head_done, head_found, head_round, body_round, round_in, Fed, feed_loop, keep_alive,
  feed,
}

-- A header block that is not over is within the limit. A body has bytes left, at most as many as a
-- Content-Length can be, and is within the limit where the sum of the two cannot wrap.
abbrev pub InState : ℕ → ℕ → SipState → SipFramer → Type 0
InState limit most sip_idle f = Unit
InState limit most sip_head f = length f.head ≤ limit
InState limit most sip_body f =
    (0 < f.left) × (f.left ≤ most) × (limit + most < 2 ^ 63 → f.left ≤ limit)

unfoldable pub IsFramed : ℕ → ℕ → SipFramer → Type 0
IsFramed limit most f = InState limit most f.state f

-- A sum that does not wrap is compared as it is.
exceeds-not : (limit end n : ℕ) → end + n < 2 ^ 63 → exceeds limit end n ≡ false → end + n ≤ limit
unfolding exceeds
exceeds-not limit end n small fits =
    let same : (end + n) % 2 ^ 64 ≡ end + n = omega (arith, small) in
    ground (arith, rw same at fits, small)

-- What starts with the separator is as long as it, and a place where it is found is not the end.
length-has_prefix : (sep l : List ℕ) → has_prefix sep l ≡ true → length sep ≤ length l
length-has_prefix [] l e = omega arith
length-has_prefix (b ∷ bs) [] e = absurd (false-true e)
length-has_prefix (b ∷ bs) (c ∷ l) e =
    let rest : has_prefix bs l ≡ true = ground (arith, e) in
    omega (arith, length-has_prefix bs l rest)

length-index_of : (sep l : List ℕ) (i : ℕ) → index_of sep l ≡ some i → i + length sep ≤ length l
length-index_of sep [] i e = elim (Bool-cases (has_prefix sep [])) [
  | inl t ↦ ground (arith, rw t at e, length-has_prefix sep [] t)
  | inr t ↦ absurd (ground (arith, rw t at e))
]
length-index_of sep (b ∷ l) i e = elim (Bool-cases (has_prefix sep (b ∷ l))) [
  | inl t ↦
      let z : 0 ≡ i = some-injective 0 i (rw t at e) in
      omega (arith, z, length-has_prefix sep (b ∷ l) t)
  | inr t ↦ elim (Option-cases (index_of sep l)) [
    | inl none_is ↦ absurd (ground (arith, t, none_is, e))
    | inr (j, at_j) ↦
        let z : suc j ≡ i = some-injective (suc j) i (rw (t, at_j) at e) in
        omega (arith, z, length-index_of sep l j at_j)
  ]
]

-- What each round makes smaller.
abbrev weight : SipFramer → List ℕ → ℕ
weight f p = 2 * length p + (if is_idle f.state then 1 else 0)

length-skip-le : (p : List ℕ) → length (skip_newlines p) ≤ length p
length-skip-le [] = omega arith
length-skip-le (b ∷ p) = ground (arith, length-skip-le p)

length-drop : (n : ℕ) (l : List ℕ) → length (drop n l) ≡ length l - n
length-drop zero l = omega arith
length-drop (suc n) [] = omega arith
length-drop (suc n) (x ∷ l) = omega (arith, length-drop n l)

module _ (trim_space to_lower : List ℕ → List ℕ) (atoi : List ℕ → Option ℕ) (most : ℕ)
    (parsed : (s : List ℕ) (n : ℕ) → atoi s ≡ some n → n ≤ most) where
  scan_length-le :
      (seen : Option ℕ) (lines : List (List ℕ)) (n : ℕ)
      → ((m : ℕ) → seen ≡ some m → m ≤ most)
      → scan_length trim_space to_lower atoi seen lines ≡ some n
      → n ≤ most
  unfolding scan_length
  scan_length-le none [] n known e = let z : 0 ≡ n = some-injective 0 n e in omega (arith, z)
  scan_length-le (some m) [] n known e = known n e
  scan_length-le seen (line ∷ lines) n known e =
      elim (Option-cases (length_value trim_space to_lower atoi line)) [
        | inl other ↦ scan_length-le seen lines n known (rw (other, scan_length) at e)
        | inr (value, mine) ↦ elim (Option-cases (atoi (trim_space value))) [
          | inl bad ↦ absurd (ground (arith, rw (mine, bad, scan_length) at e))
          | inr (v, num) ↦
              let small = parsed (trim_space value) v num in
              let now_known : (m : ℕ) → some v ≡ some m → m ≤ most =
                λ m h. let z : v ≡ m = some-injective v m h in omega (arith, z, small) in
              elim (Option-cases seen) [
                | inl first ↦
                    scan_length-le (some v) lines n now_known
                      (rw (mine, num, first, scan_length) at e)
                | inr (k, again) ↦ elim (Bool-cases (v == k)) [
                  | inl agree ↦
                      scan_length-le (some v) lines n now_known
                        (rw (mine, num, again, agree, scan_length) at e)
                  | inr differ ↦
                      absurd (ground (arith, rw (mine, num, again, differ, scan_length) at e))
                ]
              ]
        ]
      ]

  -- A round that goes on leaves a framer within its bounds, and less to do.
  abbrev Falls : ℕ → SipFramer → List ℕ → Round trim_space to_lower atoi → Type 0
  Falls limit f p r = IsFramed limit most r.framer × (weight r.framer r.rest < weight f p)

  idle_from-Falls :
      (limit : ℕ) (f : SipFramer) (b : ℕ) (p rest : List ℕ)
      → f.state ≡ sip_idle
      → length rest ≤ length p + 1
      → Falls limit f (b ∷ p) (idle_from trim_space to_lower atoi f rest)
  unfolding idle_from IsFramed
  idle_from-Falls limit f b p [] s le =
      (subst (λ x. InState limit most x f) (sym s) tt, omega arith)
  idle_from-Falls limit f b p (c ∷ q) s le =
      let one : is_idle f.state ≡ true = ap is_idle s in (omega arith, ground (arith, one, le))

  -- A header block that is not over, within the limit.
  head_found-none-Falls :
      (limit n : ℕ) (f : SipFramer) (head p : List ℕ)
      → f.state ≡ sip_head
      → 0 < length p
      → (head_found trim_space to_lower atoi limit f head n p none).bad ≡ close_none
      → Falls limit f p (head_found trim_space to_lower atoi limit f head n p none)
  unfolding head_found IsFramed
  head_found-none-Falls limit n f head p s some_left on =
      let busy : is_idle f.state ≡ false = ap is_idle s in
      elim (Bool-cases (ltb n (length p) || leb limit (length head))) [
        | inl big ↦ absurd (unfit (rw big at on))
        | inr fits ↦ (
          subst (λ x. InState limit most x (record f { head = head })) (sym s)
              (ground (arith, fits)),
          ground (arith, busy, some_left),
        )
      ]

  content_length-le :
      (head : List ℕ) (n : ℕ) → content_length trim_space to_lower atoi head ≡ some n → n ≤ most
  unfolding content_length
  content_length-le head n e =
      scan_length-le none (split_lines [] head) n (λ m h. absurd (ground (arith, h))) e

  head_done-Falls :
      (limit end : ℕ) (f : SipFramer) (head p : List ℕ)
      → f.state ≡ sip_head
      → length f.head < end
      → end ≤ limit
      → 0 < length p
      → (head_done trim_space to_lower atoi limit f head end p).bad ≡ close_none
      → Falls limit f p (head_done trim_space to_lower atoi limit f head end p)
  unfolding head_done IsFramed
  head_done-Falls limit end f head p s more within some_left on =
      let busy : is_idle f.state ≡ false = ap is_idle s in
      let less : length (drop (end - length f.head) p) + 1 ≤ length p =
        omega (arith, length-drop (end - length f.head) p, more, some_left) in
      elim (Option-cases (content_length trim_space to_lower atoi (take end head))) [
        | inl bad ↦ absurd (ill (rw (bad, head_done) at on))
        | inr (n, len) ↦ elim (Bool-cases (exceeds limit end n)) [
          | inl big ↦ absurd (unfit (rw (len, big, head_done) at on))
          | inr fits ↦
              let at_most = content_length-le (take end head) n len in
              let pos : (n == 0) ≡ false → 0 < n = λ nz. ground (arith, nz) in
              let in_limit : limit + most < 2 ^ 63 → n ≤ limit = λ room.
                omega
                  (arith, exceeds-not limit end n (omega (arith, room, within, at_most)) fits) in
              elim (Bool-cases (n == 0)) [
                | inl z ↦ rw (len, fits, z, head_done) (tt, ground (arith, busy, less))
                | inr nz ↦
                    rw (len, fits, nz, head_done)
                      ((pos nz, at_most, in_limit), ground (arith, busy, less))
              ]
        ]
      ]

  body-Falls :
      (limit : ℕ) (f : SipFramer) (b : ℕ) (p : List ℕ)
      → f.state ≡ sip_body
      → 0 < f.left
      → f.left ≤ most
      → (limit + most < 2 ^ 63 → f.left ≤ limit)
      → Falls limit f (b ∷ p) (body_round trim_space to_lower atoi f (b ∷ p))
  unfolding body_round IsFramed
  body-Falls limit f b p s some_left small in_limit =
      let n = min f.left (length (b ∷ p)) in
      let busy : is_idle f.state ≡ false = ap is_idle s in
      let less : length (drop n (b ∷ p)) + 1 ≤ length p + 1 =
        omega (arith, length-drop n (b ∷ p), some_left) in
      elim (Bool-cases (f.left - n == 0)) [
        | inl z ↦ rw z (tt, ground (arith, busy, less))
        | inr nz ↦ rw nz (
          subst (λ x. InState limit most x (record f { left = f.left - n })) (sym s)
              (ground (arith, nz), omega (arith, small), λ room. omega (arith, in_limit room)),
          ground (arith, busy, less),
        )
      ]

  -- A match in the window of the last three bytes ends past the bytes that were there before.
  window-more : (old idx : ℕ) → old < old - 3 + idx + 4
  window-more old idx = omega arith

  head_found-some-Falls :
      (limit : ℕ) (f : SipFramer) (head : List ℕ) (n : ℕ) (p : List ℕ) (idx : ℕ)
      → f.state ≡ sip_head
      → length f.head - 3 + idx + 4 ≤ limit
      → 0 < length p
      → (head_found trim_space to_lower atoi limit f head n p (some idx)).bad ≡ close_none
      → Falls limit f p (head_found trim_space to_lower atoi limit f head n p (some idx))
  unfolding head_found
  head_found-some-Falls limit f head n p idx s within some_left on =
      head_done-Falls limit (length f.head - 3 + idx + 4) f head p s
        (window-more (length f.head) idx) within some_left on

  -- The header block that is looked through is within the limit, and so is what is found.
  head-within :
      (limit idx : ℕ) (f : SipFramer) (p : List ℕ)
      → length f.head ≤ limit
      → index_of crlfcrlf
          (drop (length f.head - 3) (f.head ++ take (min (length p) (limit - length f.head)) p))
        ≡ some idx
      → length f.head - 3 + idx + 4 ≤ limit
  head-within limit idx f p short found =
      let n = min (length p) (limit - length f.head) in
      let head = f.head ++ take n p in
      let in_rest = length-index_of crlfcrlf (drop (length f.head - 3) head) idx found in
      omega (
        arith,
        in_rest,
        short,
        length-drop (length f.head - 3) head,
        length-append f.head (take n p),
        length-take-le n p,
      )

  head-Falls :
      (limit : ℕ) (f : SipFramer) (p : List ℕ)
      → f.state ≡ sip_head
      → length f.head ≤ limit
      → 0 < length p
      → (head_round trim_space to_lower atoi limit f p).bad ≡ close_none
      → Falls limit f p (head_round trim_space to_lower atoi limit f p)
  unfolding head_round
  head-Falls limit f p s short some_left on =
      let n = min (length p) (limit - length f.head) in
      let head = f.head ++ take n p in
      by_index (index_of crlfcrlf (drop (length f.head - 3) head)) refl on
    where
      by_index :
          (o : Option ℕ)
          → index_of crlfcrlf
              (drop (length f.head - 3) (f.head ++ take (min (length p) (limit - length f.head)) p))
            ≡ o
          → (head_found trim_space to_lower atoi limit f
              (f.head ++ take (min (length p) (limit - length f.head)) p)
              (min (length p) (limit - length f.head))
              p
              o).bad
            ≡ close_none
          → Falls limit f p (
              head_found trim_space to_lower atoi limit f
                (f.head ++ take (min (length p) (limit - length f.head)) p)
                (min (length p) (limit - length f.head))
                p
                o)
      by_index none found on =
          head_found-none-Falls limit (min (length p) (limit - length f.head)) f
            (f.head ++ take (min (length p) (limit - length f.head)) p) p s some_left on
      by_index (some idx) found on =
          head_found-some-Falls limit f (f.head ++ take (min (length p) (limit - length f.head)) p)
            (min (length p) (limit - length f.head)) p idx s (head-within limit idx f p short found)
            some_left on

  round_in-Falls :
      (limit : ℕ) (f : SipFramer) (b : ℕ) (p : List ℕ)
      → IsFramed limit most f
      → (round_in trim_space to_lower atoi f.state limit f (b ∷ p)).bad ≡ close_none
      → Falls limit f (b ∷ p) (round_in trim_space to_lower atoi f.state limit f (b ∷ p))
  unfolding IsFramed round_in idle_round
  round_in-Falls limit f b p framed on = by_state f.state refl framed on
    where
      by_state :
          (s : SipState)
          → f.state ≡ s
          → InState limit most s f
          → (round_in trim_space to_lower atoi s limit f (b ∷ p)).bad ≡ close_none
          → Falls limit f (b ∷ p) (round_in trim_space to_lower atoi s limit f (b ∷ p))
      by_state sip_idle e h on =
          idle_from-Falls limit f b p (skip_newlines (b ∷ p)) e
            (omega (arith, length-skip-le (b ∷ p)))
      by_state sip_head e h on = head-Falls limit f (b ∷ p) e h (omega arith) on
      by_state sip_body e h on = body-Falls limit f b p e h.0 h.1 h.2

  -- The loop returns, where its fuel is the weight of what there is to do.
  feed_loop-returns :
      (limit fuel : ℕ) (f : SipFramer) (charges : ℕ) (p : List ℕ)
      → IsFramed limit most f
      → weight f p ≤ fuel
      → (r : Fed trim_space to_lower atoi) × (feed_loop trim_space to_lower atoi limit fuel f
            charges p
          ≡ some r)
        × (r.bad ≡ close_none → IsFramed limit most r.framer)
  unfolding feed_loop
  feed_loop-returns limit zero f charges [] framed enough =
      (record { framer = f; charges = charges; bad = close_none }, refl, λ e. framed)
  feed_loop-returns limit (suc fuel) f charges [] framed enough =
      (record { framer = f; charges = charges; bad = close_none }, refl, λ e. framed)
  feed_loop-returns limit zero f charges (b ∷ p) framed enough = absurd (omega (arith, enough))
  feed_loop-returns limit (suc fuel) f charges (b ∷ p) framed enough =
      let r = round_in trim_space to_lower atoi f.state limit f (b ∷ p) in
      elim (Bool-cases (goes_on r.bad)) [
        | inr stop ↦ (
          record { framer = r.framer; charges = charges + r.charges; bad = r.bad },
          rw stop refl,
          λ e. absurd (false-true (sym stop ∙ ap goes_on e)),
        )
        | inl on ↦
            let (framed_next, less) = round_in-Falls limit f b p framed (on-close_none r.bad on) in
            let (out, fed, after) =
              feed_loop-returns limit fuel r.framer (charges + r.charges) r.rest framed_next
                (omega (arith, less, enough)) in
            (out, rw on fed, after)
      ]

  keep_alive-same :
      (content : Bool) (r : Fed trim_space to_lower atoi)
      → ((keep_alive trim_space to_lower atoi content r).framer ≡ r.framer)
        × ((keep_alive trim_space to_lower atoi content r).bad ≡ r.bad)
  keep_alive-same content r = elim (Bool-cases (goes_on r.bad && not content)) [
    | inl t ↦ rw t (refl, refl)
    | inr t ↦ rw t (refl, refl)
  ]

  unmarked :
      (limit : ℕ) (f : SipFramer)
      → IsFramed limit most f
      → IsFramed limit most (record f { began = false })
  unfolding IsFramed
  unmarked limit f framed = by_state f.state framed
    where
      by_state :
          (s : SipState)
          → InState limit most s f
          → InState limit most s (record f { began = false })
      by_state sip_idle h = h
      by_state sip_head h = h
      by_state sip_body h = h

  -- Every feed of a framer within its bounds returns, whatever the bytes: two rounds for each byte
  -- and one more are enough. If it does not close the connection, the framer is within its bounds
  -- again: the part of a header block that it holds is at most the limit; a body has bytes left, at
  -- most as many as the largest Content-Length that is parsed, `most`; and it is at most the limit
  -- where the limit and `most` together are below 2^63, since the sum that is compared with the
  -- limit wraps there.
  pub feed_returns :
      (limit : ℕ) (f : SipFramer) (p : List ℕ)
      → IsFramed limit most f
      → (r : Fed trim_space to_lower atoi) × (feed trim_space to_lower atoi limit f p ≡ some r)
        × (r.bad ≡ close_none → IsFramed limit most r.framer)
  unfolding feed
  feed_returns limit f p framed =
      let f0 = record f { began = false } in
      let (r, fed, after) =
        feed_loop-returns limit (2 * length p + 1) f0 0 p (unmarked limit f framed)
          (ground arith) in
      let content = not (is_idle f.state) || r.framer.began in
      let (same, still) = keep_alive-same content r in
      (
        keep_alive trim_space to_lower atoi content r,
        rw (fed, feed) refl,
        λ e. subst (IsFramed limit most) (sym same) (after (sym still ∙ e)),
      )
