-- ===== src/Edge/WsFramer.antt =====
-- The framer of a client's WebSocket stream: `wsFramer` of internal/edge/stream.go. A byte is a
-- natural number, reduced where the code takes bits of it. `hdr` holds the header bytes read so far:
-- the first `hn` of the code's array, so its length is `hn`.
pub mod Rounds
pub mod Sound
pub mod Chunks
pub mod Marks
pub mod Feeds
use freesbc.Base.{
  ℕ, zero, suc, ◌+◌, ◌-◌, ◌*◌, ◌/◌, ◌%◌, ◌^◌, ◌≤◌, ◌<◌, min, max, String, ◌≡◌, refl, sym, ap, ◌∙◌,
  ◌≢◌, ◌↔◌, ◌⊎◌, inl, inr, ite, if_pos, if_neg, Bool, true, false, not, ◌&&◌, ◌||◌, Option, none,
  some, List, [], ◌∷◌, ◌++◌, map, arith, ℕ_discrete, text_discrete, ltb, leb, ◌==◌, if◌then◌else◌,
  ltb→lt, lt→ltb, ltb_false→le, leb→le, leb_false→lt, le→leb, Bool-cases, Option-cases, false-true,
  length, drop_back, take, drop, keep, All, length-append, length-drop_back, length-drop_back-le,
  length-keep-le, length-take-le,
}
use freesbc.Base.Assoc.{
  find, remove, put, NoDup, find-remove, find-put, find-remove_self, find-remove_ne, find-put_self,
  find-put_ne, length-remove-le, length-remove_known, length-put_known, length-put_new,
  NoDup-remove, NoDup-put, passing, find-keep-none, find-keep, NoDup-keep, find-drop_back,
  find-drop_back-none, NoDup-drop_back, NoDup-touch, find-front_self, find-front_ne,
}
use freesbc.Base.Lru.{
  evict, length-evict, IsLru, IsLru-touch, IsLru-push, find-push_ne, find-touch_ne,
}

-- `streamUpgradeMax`.
abbrev pub stream_upgrade_max : ℕ
stream_upgrade_max = 8192

-- Why a connection is closed by policy (`streamClose`).
pub data StreamClose : Type 0 where
  close_none : StreamClose
  close_idle : StreamClose
  close_slow : StreamClose
  close_oversize : StreamClose
  close_malformed : StreamClose
  close_handshake : StreamClose
  close_rate : StreamClose

-- The framer goes on.
abbrev pub goes_on : StreamClose → Bool
goes_on close_none = true
goes_on close_idle = false
goes_on close_slow = false
goes_on close_oversize = false
goes_on close_malformed = false
goes_on close_handshake = false
goes_on close_rate = false

-- `wsHTTP`, `wsHead` and `wsPayload`.
pub data WsState : Type 0 where
  ws_http : WsState
  ws_head : WsState
  ws_payload : WsState

pub record WsFramer : Type 0 where
  pub state : WsState
  pub matched : ℕ
  pub read : ℕ
  pub hdr : List ℕ
  pub need : ℕ
  pub left : ℕ
  pub began : Bool
  pub data_began : Bool

-- `partial`.
unfoldable pub partial : WsFramer → Bool
partial f = elim f.state [
  | ws_http ↦ ltb 0 f.read
  | ws_head ↦ ltb 0 (length f.hdr)
  | ws_payload ↦ true
]

-- `started`.
unfoldable pub started : WsFramer → Bool × Bool
started f = (f.began && partial f, f.data_began)

-- The upgrade request's progress through CRLFCRLF, after one more byte.
abbrev pub match_next : ℕ → ℕ → ℕ
match_next b m =
    if b == 13 && (m == 0 || m == 2)
    then m + 1
    else (if b == 10 && (m == 1 || m == 3) then m + 1 else (if b == 13 then 1 else 0))

-- The n-th byte of a header, and 0 past its end (the code reads none there).
abbrev pub byte_at : ℕ → List ℕ → ℕ
byte_at n [] = 0
byte_at zero (b ∷ l) = b % 2 ^ 8
byte_at (suc n) (b ∷ l) = byte_at n l

-- The bytes as one number, in 64 bits.
abbrev pub shift_in : ℕ → List ℕ → ℕ
shift_in n [] = n
shift_in n (b ∷ l) = shift_in ((n * 2 ^ 8 + b % 2 ^ 8) % 2 ^ 64) l

-- How long a header is, by its second byte: the extended length, then the mask key.
abbrev pub needed : List ℕ → ℕ
needed h =
    let l7 = byte_at 1 h % 2 ^ 7 in
    2
    + (if l7 == 126 then 2 else (if l7 == 127 then 8 else 0))
    + (if leb (2 ^ 7) (byte_at 1 h) then 4 else 0)

-- The payload's length, in a complete header. A number from 2 ^ 63 on is negative as an int64.
unfoldable pub payload_length : List ℕ → ℕ
payload_length h =
    let l7 = byte_at 1 h % 2 ^ 7 in
    if l7 == 126
    then byte_at 2 h * 2 ^ 8 + byte_at 3 h
    else (if l7 == 127 then shift_in 0 (take 8 (drop 2 h)) else l7)

-- The frame is one that the read filter charges: text or binary.
abbrev pub is_data_frame : List ℕ → Bool
is_data_frame h = byte_at 0 h % 2 ^ 4 == 1 || byte_at 0 h % 2 ^ 4 == 2

-- What one round of the loop leaves: the framer, the bytes it did not consume, its charges, and
-- the reason to close.
pub record Round : Type 0 where
  pub framer : WsFramer
  pub rest : List ℕ
  pub charges : ℕ
  pub bad : StreamClose

-- The round of the state wsHTTP.
unfoldable pub http_round : WsFramer → ℕ → List ℕ → Round
http_round f b p =
    let f = record f { began = if f.read == 0 then true else f.began } in
    let f = record f { read = f.read + 1; matched = match_next b f.matched } in
    if f.matched == 4
    then record {
      framer = record f { state = ws_head; read = 0; hdr = []; need = 2 };
      rest = p;
      charges = 0;
      bad = close_none;
    }
    else record {
      framer = f;
      rest = p;
      charges = 0;
      bad = if ltb stream_upgrade_max f.read then close_malformed else close_none;
    }

-- A frame's header is complete.
unfoldable pub head_done : ℕ → WsFramer → List ℕ → Round
head_done limit f p =
    let n = payload_length f.hdr in
    if leb (2 ^ 63) n || ltb limit n
    then record { framer = f; rest = p; charges = 0; bad = close_oversize }
    else record {
      framer = record f {
        data_began = if is_data_frame f.hdr then true else f.data_began;
        hdr = [];
        need = 2;
        left = n;
        state = if n == 0 then ws_head else ws_payload;
      };
      rest = p;
      charges = if is_data_frame f.hdr then 0 else 1;
      bad = close_none;
    }

-- A header with as many bytes as were needed: its second byte says how many more are.
unfoldable pub head_filled : ℕ → WsFramer → List ℕ → Round
head_filled limit f p =
    let f = record f { need = if f.need == 2 then needed f.hdr else f.need } in
    if ltb (length f.hdr) f.need
    then record { framer = f; rest = p; charges = 0; bad = close_none }
    else head_done limit f p

-- The round of the state wsHead.
unfoldable pub head_round : ℕ → WsFramer → List ℕ → Round
head_round limit f p =
    let f = record f { began = if length f.hdr == 0 then true else f.began } in
    let n = min (f.need - length f.hdr) (length p) in
    let f = record f { hdr = f.hdr ++ take n p } in
    if ltb (length f.hdr) f.need
    then record { framer = f; rest = drop n p; charges = 0; bad = close_none }
    else head_filled limit f (drop n p)

-- The round of the state wsPayload.
unfoldable pub payload_round : WsFramer → List ℕ → Round
payload_round f p =
    let n = min f.left (length p) in
    record {
      framer = record f { left = f.left - n; state = if f.left - n == 0 then ws_head else f.state };
      rest = drop n p;
      charges = 0;
      bad = close_none;
    }

-- The round of each state, on the bytes b ∷ p.
unfoldable pub round_in : WsState → ℕ → WsFramer → ℕ → List ℕ → Round
round_in ws_http limit f b p = http_round f b p
round_in ws_head limit f b p = head_round limit f (b ∷ p)
round_in ws_payload limit f b p = payload_round f (b ∷ p)

-- One round of the loop of `feed`.
abbrev pub round : ℕ → WsFramer → ℕ → List ℕ → Round
round limit f b p = round_in f.state limit f b p

-- What `feed` returns: the framer after it, the charges, and the reason to close.
pub record Fed : Type 0 where
  pub framer : WsFramer
  pub charges : ℕ
  pub bad : StreamClose

-- The loop of `feed`, and `none` when the fuel runs out.
unfoldable pub feed_loop : ℕ → ℕ → WsFramer → ℕ → List ℕ → Option Fed
feed_loop limit fuel f charges [] =
    some (record { framer = f; charges = charges; bad = close_none })
feed_loop limit zero f charges (b ∷ p) = none
feed_loop limit (suc fuel) f charges (b ∷ p) =
    let r = round limit f b p in
    let rest = feed_loop limit fuel r.framer (charges + r.charges) r.rest in
    if goes_on r.bad
    then rest
    else some (record { framer = r.framer; charges = charges + r.charges; bad = r.bad })

-- `began` and `data` are about one feed.
abbrev pub fresh : WsFramer → WsFramer
fresh f = record f { began = false; data_began = false }

-- `feed`, with a round for each byte.
unfoldable pub feed : ℕ → WsFramer → List ℕ → Option Fed
unfolding feed_loop
feed limit f p = feed_loop limit (length p) (fresh f) 0 p
