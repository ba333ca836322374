-- ===== src/Edge/WsFramer/Feeds.antt =====
-- Whole feeds of the WebSocket framer (internal/edge/stream.go).
use freesbc.Base.{ℕ, ◌+◌, ◌≡◌, sym, ap, ◌∙◌, some, List, ◌++◌, arith, length}
use mathlib.Core.Path.{subst}
use mathlib.Core.Option.{some-injective}
use freesbc.Edge.WsFramer.{
  WsState, ws_http, ws_head, ws_payload, WsFramer, close_none, Fed, fresh, feed,
}
use freesbc.Edge.WsFramer.Rounds.{InState, IsSound}
use freesbc.Edge.WsFramer.Chunks.{by_byte, feed_loop-by_byte, by_byte-append, by_byte-IsSound}
use freesbc.Edge.WsFramer.Marks.{by_byte-marked}

fresh-IsSound : (limit : ℕ) (f : WsFramer) → IsSound limit f → IsSound limit (fresh f)
unfolding IsSound
fresh-IsSound limit f sound = by_state f.state sound
  where
    by_state : (s : WsState) → InState limit s f → InState limit s (fresh f)
    by_state ws_http h = h
    by_state ws_head h = h
    by_state ws_payload h = h

-- A feed of a framer within its bounds returns, whatever the bytes: a round for each byte is
-- enough for the loop. What it returns is what the framer comes to when it takes the same bytes one
-- at a time, each in one round, up to the first that closes the connection.
pub feed_refines :
    (limit : ℕ) (f : WsFramer) (p : List ℕ)
    → IsSound limit f
    → feed limit f p ≡ some (by_byte limit (fresh f) 0 p)
unfolding feed
feed_refines limit f p sound =
    feed_loop-by_byte limit (length p) (fresh f) 0 p (fresh-IsSound limit f sound) (omega arith)

-- A feed that goes on leaves the framer within its bounds: an upgrade request of at most 8192 bytes,
-- a header shorter than the 14 bytes of its array, or a payload with bytes left, at most the limit.
pub feed-IsSound :
    (limit : ℕ) (f : WsFramer) (p : List ℕ) (r : Fed)
    → IsSound limit f
    → feed limit f p ≡ some r
    → r.bad ≡ close_none
    → IsSound limit r.framer
feed-IsSound limit f p r sound fed on =
    let e : by_byte limit (fresh f) 0 p ≡ r =
      some-injective (by_byte limit (fresh f) 0 p) r (sym (feed_refines limit f p sound) ∙ fed) in
    subst (λ x. IsSound limit x.framer) e
      (by_byte-IsSound limit (fresh f) 0 p (fresh-IsSound limit f sound) (ap (λ x. x.bad) e ∙ on))

-- How the stream is cut into reads does not matter: if a feed of p to a framer within its bounds
-- goes on, then a feed of p ++ q charges what the feed of p and the feed of q after it charge
-- together, closes the connection for the same reason as the feed of q, or not at all with it, and
-- leaves the same framer but for the marks of what began in the feed.
pub feed-append :
    (limit : ℕ) (f : WsFramer) (p q : List ℕ) (r s : Fed)
    → IsSound limit f
    → feed limit f p ≡ some r
    → r.bad ≡ close_none
    → feed limit r.framer q ≡ some s
    → (t : Fed) × (feed limit f (p ++ q) ≡ some t)
      × (t.charges ≡ r.charges + s.charges)
      × (t.bad ≡ s.bad)
      × (fresh t.framer ≡ fresh s.framer)
feed-append limit f p q r s sound fed on then_fed =
    let f0 = fresh f in
    let r0 = by_byte limit f0 0 p in
    let e : r0 ≡ r = some-injective r0 r (sym (feed_refines limit f p sound) ∙ fed) in
    let e2 : by_byte limit (fresh r.framer) 0 q ≡ s =
      some-injective (by_byte limit (fresh r.framer) 0 q) s
        (sym (feed_refines limit r.framer q (feed-IsSound limit f p r sound fed on)) ∙ then_fed) in
    let g = fresh r.framer in
    let whole : by_byte limit f0 0 (p ++ q)
        ≡ by_byte limit (record g { began = r.framer.began; data_began = r.framer.data_began })
            (r.charges + 0) q =
      by_byte-append limit f0 0 p q (ap (λ x. x.bad) e ∙ on)
      ∙ ap (λ x. by_byte limit x.framer x.charges q) e
      ∙ ap (λ n. by_byte limit r.framer n q) (omega arith) in
    let (bad, charged, same) =
      by_byte-marked limit g r.framer.began r.framer.data_began r.charges 0 q in
    (
      by_byte limit f0 0 (p ++ q),
      feed_refines limit f (p ++ q) sound,
      ap (λ x. x.charges) whole ∙ charged ∙ ap (λ x. r.charges + x.charges) e2,
      ap (λ x. x.bad) whole ∙ bad ∙ ap (λ x. x.bad) e2,
      ap (λ x. fresh x.framer) whole ∙ same ∙ ap (λ x. fresh x.framer) e2,
    )
