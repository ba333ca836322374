-- ===== src/Edge/SipFramer.antt =====
-- The framer of SIP over a byte stream: `sipFramer` and `contentLength` of internal/edge/stream.go.
-- `bytes.TrimSpace`, `bytes.ToLower` and `strconv.Atoi` are parameters; `atoi` gives the number, or
-- `none` for an error or a negative number, which the code treats alike.
pub mod Returns
use freesbc.Base.{
  ℕ, zero, suc, ◌+◌, ◌-◌, ◌*◌, ◌/◌, ◌%◌, ◌^◌, ◌≤◌, ◌<◌, min, max, String, ◌≡◌, refl, sym, ap, ◌∙◌,
  ◌≢◌, ◌↔◌, ◌⊎◌, inl, inr, ite, if_pos, if_neg, Bool, true, false, not, ◌&&◌, ◌||◌, Option, none,
  some, List, [], ◌∷◌, ◌++◌, map, arith, ℕ_discrete, text_discrete, ltb, leb, ◌==◌, if◌then◌else◌,
  ltb→lt, lt→ltb, ltb_false→le, leb→le, leb_false→lt, le→leb, Bool-cases, Option-cases, false-true,
  length, drop_back, take, drop, keep, All, length-append, length-drop_back, length-drop_back-le,
  length-keep-le, length-take-le,
}
use freesbc.Base.Assoc.{
  find, remove, put, NoDup, find-remove, find-put, find-remove_self, find-remove_ne, find-put_self,
  find-put_ne, length-remove-le, length-remove_known, length-put_known, length-put_new,
  NoDup-remove, NoDup-put, passing, find-keep-none, find-keep, NoDup-keep, find-drop_back,
  find-drop_back-none, NoDup-drop_back, NoDup-touch, find-front_self, find-front_ne,
}
use freesbc.Base.Lru.{
  evict, length-evict, IsLru, IsLru-touch, IsLru-push, find-push_ne, find-touch_ne,
}
use freesbc.Base.Text.{codes, text_eq}
use freesbc.Edge.WsFramer.{StreamClose, close_none, close_oversize, close_malformed, goes_on}

-- `sipIdle`, `sipHead` and `sipBody`.
pub data SipState : Type 0 where
  sip_idle : SipState
  sip_head : SipState
  sip_body : SipState

abbrev pub is_idle : SipState → Bool
is_idle sip_idle = true
is_idle sip_head = false
is_idle sip_body = false

pub record SipFramer : Type 0 where
  pub state : SipState
  pub head : List ℕ
  pub left : ℕ
  pub began : Bool

-- `partial` and `started`.
abbrev pub partial : SipFramer → Bool
partial f = not (is_idle f.state)

abbrev pub started : SipFramer → Bool × Bool
started f = (f.began && partial f, f.began)

-- The bytes after leading CRs and LFs.
abbrev pub skip_newlines : List ℕ → List ℕ
skip_newlines [] = []
skip_newlines (b ∷ p) = let rest = skip_newlines p in if b == 13 || b == 10 then rest else b ∷ p

-- `end+n > f.max`: the sum of two int is negative once it wraps, and no limit is exceeded then.
unfoldable pub exceeds : ℕ → ℕ → ℕ → Bool
exceeds limit end n = let sum = (end + n) % 2 ^ 64 in ltb sum (2 ^ 63) && ltb limit sum

-- The list starts with these bytes.
abbrev pub has_prefix : List ℕ → List ℕ → Bool
has_prefix [] l = true
has_prefix (b ∷ bs) [] = false
has_prefix (b ∷ bs) (c ∷ l) = b == c && has_prefix bs l

-- `bytes.Index`.
abbrev pub index_of : List ℕ → List ℕ → Option ℕ
index_of sep [] = if has_prefix sep [] then some 0 else none
index_of sep (b ∷ l) =
    let later = index_of sep l in
    if has_prefix sep (b ∷ l) then some 0 else elim later [ none ↦ none | some i ↦ some (suc i) ]

abbrev pub crlfcrlf : List ℕ
crlfcrlf = 13 ∷ 10 ∷ 13 ∷ 10 ∷ []

-- The lines between CRLFs (`bytes.SplitSeq`); `line` is the line so far.
abbrev pub split_lines : List ℕ → List ℕ → List (List ℕ)
split_lines line [] = line ∷ []
split_lines line (b ∷ []) = (line ++ (b ∷ [])) ∷ []
split_lines line (b ∷ c ∷ p) =
    let within = split_lines (line ++ (b ∷ [])) (c ∷ p) in
    let next = split_lines [] p in if b == 13 && c == 10 then line ∷ next else within

-- The line is empty, or continues the one before it.
abbrev pub is_folded : List ℕ → Bool
is_folded [] = true
is_folded (b ∷ line) = b == 32 || b == 9

-- The name and the value around the first colon.
abbrev pub cut_colon : List ℕ → Option (List ℕ × List ℕ)
cut_colon [] = none
cut_colon (b ∷ line) =
    let rest = cut_colon line in
    if b == 58 then some ([], line) else elim rest [ none ↦ none | some c ↦ some (b ∷ c.0, c.1) ]

module _ (trim_space to_lower : List ℕ → List ℕ) (atoi : List ℕ → Option ℕ) where
  abbrev pub is_length_name : List ℕ → Bool
  is_length_name name =
      let n = to_lower (trim_space name) in
      text_eq n (codes "content-length") || text_eq n (codes "l")

  -- The value of a Content-Length line, if it is one.
  abbrev pub length_value : List ℕ → Option (List ℕ)
  length_value line = if is_folded line then none else elim (cut_colon line) [
    | none ↦ none
    | some c ↦ if is_length_name c.0 then some c.1 else none
  ]

  -- The loop of `contentLength`: `seen` is the length read so far.
  unfoldable pub scan_length : Option ℕ → List (List ℕ) → Option ℕ
  scan_length none [] = some 0
  scan_length (some n) [] = some n
  scan_length seen (line ∷ lines) = elim (length_value line) [
    | none ↦ scan_length seen lines
    | some value ↦ elim (atoi (trim_space value)) [
      | none ↦ none
      | some v ↦ elim seen [
        | none ↦ scan_length (some v) lines
        | some n ↦ if v == n then scan_length (some v) lines else none
      ]
    ]
  ]

  -- `contentLength`.
  unfoldable pub content_length : List ℕ → Option ℕ
  content_length head = scan_length none (split_lines [] head)

  -- What one round of the loop leaves.
  pub record Round : Type 0 where
    pub framer : SipFramer
    pub rest : List ℕ
    pub charges : ℕ
    pub bad : StreamClose

  -- The round of the state sipIdle, by what is left after the newlines.
  unfoldable pub idle_from : SipFramer → List ℕ → Round
  idle_from f [] = record { framer = f; rest = []; charges = 0; bad = close_none }
  idle_from f (b ∷ q) = record {
    framer = record f { state = sip_head; head = []; began = true };
    rest = b ∷ q;
    charges = 1;
    bad = close_none;
  }

  unfoldable pub idle_round : SipFramer → List ℕ → Round
  idle_round f p = idle_from f (skip_newlines p)

  -- A header block of `end` bytes is complete.
  unfoldable pub head_done : ℕ → SipFramer → List ℕ → ℕ → List ℕ → Round
  head_done limit f head end p = elim (content_length (take end head)) [
    | none ↦ record {
      framer = record f { head = head };
      rest = p;
      charges = 0;
      bad = close_malformed;
    }
    | some n ↦
        if exceeds limit end n
        then record {
          framer = record f { head = head };
          rest = p;
          charges = 0;
          bad = close_oversize;
        }
        else record {
          framer = record f { head = []; left = n; state = if n == 0 then sip_idle else sip_body };
          rest = drop (end - length f.head) p;
          charges = 0;
          bad = close_none;
        }
  ]

  -- The header block so far, and where an empty line ends in it.
  unfoldable pub head_found : ℕ → SipFramer → List ℕ → ℕ → List ℕ → Option ℕ → Round
  head_found limit f head n p none = record {
    framer = record f { head = head };
    rest = [];
    charges = 0;
    bad = if ltb n (length p) || leb limit (length head) then close_oversize else close_none;
  }
  head_found limit f head n p (some idx) = head_done limit f head (length f.head - 3 + idx + 4) p

  -- The round of the state sipHead.
  unfoldable pub head_round : ℕ → SipFramer → List ℕ → Round
  head_round limit f p =
      let n = min (length p) (limit - length f.head) in
      let head = f.head ++ take n p in
      head_found limit f head n p (index_of crlfcrlf (drop (length f.head - 3) head))

  -- The round of the state sipBody.
  unfoldable pub body_round : SipFramer → List ℕ → Round
  body_round f p =
      let n = min f.left (length p) in
      record {
        framer = record f {
          left = f.left - n;
          state = if f.left - n == 0 then sip_idle else f.state;
        };
        rest = drop n p;
        charges = 0;
        bad = close_none;
      }

  unfoldable pub round_in : SipState → ℕ → SipFramer → List ℕ → Round
  round_in sip_idle limit f p = idle_round f p
  round_in sip_head limit f p = head_round limit f p
  round_in sip_body limit f p = body_round f p

  -- What `feed` returns.
  pub record Fed : Type 0 where
    pub framer : SipFramer
    pub charges : ℕ
    pub bad : StreamClose

  -- The loop of `feed`, and `none` when the fuel runs out.
  unfoldable pub feed_loop : ℕ → ℕ → SipFramer → ℕ → List ℕ → Option Fed
  feed_loop limit fuel f charges [] =
      some (record { framer = f; charges = charges; bad = close_none })
  feed_loop limit zero f charges (b ∷ p) = none
  feed_loop limit (suc fuel) f charges (b ∷ p) =
      let r = round_in f.state limit f (b ∷ p) in
      let rest = feed_loop limit fuel r.framer (charges + r.charges) r.rest in
      if goes_on r.bad
      then rest
      else some (record { framer = r.framer; charges = charges + r.charges; bad = r.bad })

  -- A feed of newlines between messages costs a token, if it goes on.
  abbrev pub keep_alive : Bool → Fed → Fed
  keep_alive content r =
      if goes_on r.bad && not content then record r { charges = r.charges + 1 } else r

  -- `feed`, with two rounds for each byte, and one more.
  unfoldable pub feed : ℕ → SipFramer → List ℕ → Option Fed
  feed limit f p =
      let f0 = record f { began = false } in
      elim (feed_loop limit (2 * length p + 1) f0 0 p) [
        | none ↦ none
        | some r ↦ some (keep_alive (not (is_idle f.state) || r.framer.began) r)
      ]
