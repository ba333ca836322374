-- ===== src/Edge/Provisional.antt =====
-- The responses of the INVITE client transactions, in the order in which they were read:
-- internal/edge/prov.go. A sipgo message is what the code asks of it: a response's status code, its
-- CSeq method, and the transaction key that `ClientTxKeyMake` makes of it, each `none` where sipgo
-- has none. A response's `ptr` is the identity of the object.
pub mod Numbers
pub mod Order
use freesbc.Base.{
  ℕ, zero, suc, ◌+◌, ◌-◌, ◌*◌, ◌/◌, ◌%◌, ◌^◌, ◌≤◌, ◌<◌, min, max, String, ◌≡◌, refl, sym, ap, ◌∙◌,
  ◌≢◌, ◌↔◌, ◌⊎◌, inl, inr, ite, if_pos, if_neg, Bool, true, false, not, ◌&&◌, ◌||◌, Option, none,
  some, List, [], ◌∷◌, ◌++◌, map, arith, ℕ_discrete, text_discrete, ltb, leb, ◌==◌, if◌then◌else◌,
  ltb→lt, lt→ltb, ltb_false→le, leb→le, leb_false→lt, le→leb, Bool-cases, Option-cases, false-true,
  length, drop_back, take, drop, keep, All, length-append, length-drop_back, length-drop_back-le,
  length-keep-le, length-take-le,
}
use freesbc.Base.Assoc.{
  find, remove, put, NoDup, find-remove, find-put, find-remove_self, find-remove_ne, find-put_self,
  find-put_ne, length-remove-le, length-remove_known, length-put_known, length-put_new,
  NoDup-remove, NoDup-put, passing, find-keep-none, find-keep, NoDup-keep, find-drop_back,
  find-drop_back-none, NoDup-drop_back, NoDup-touch, find-front_self, find-front_ne,
}
use freesbc.Base.Lru.{
  evict, length-evict, IsLru, IsLru-touch, IsLru-push, find-push_ne, find-touch_ne,
}

-- `provCap`.
abbrev pub prov_cap : ℕ
prov_cap = 32

pub record Response : Type 0 where
  pub ptr : ℕ
  pub status_code : ℕ
  pub cseq_method : Option String
  pub tx_key : Option String

-- A message that the transport layer hands on.
pub data Message : Type 0 where
  request_read : Message
  response_read : Response → Message

-- `provEntry`.
pub record ProvEntry : Type 0 where
  pub seq : ℕ
  pub res : Response

-- `provRec`.
pub record ProvRec : Type 0 where
  pub seq : ℕ
  pub resp : List ProvEntry

-- `recs`, by the transaction key.
abbrev pub ProvTable : Type 0
ProvTable = List (String × ProvRec)

abbrev pub new_prov_rec : ProvRec
new_prov_rec = record { seq = 0; resp = [] }

-- `register`, of a request with this transaction key.
unfoldable pub register : Option String → ProvTable → ProvTable
register none t = t
register (some key) t = put text_discrete key new_prov_rec t

-- The function that `register` returns.
unfoldable pub release : Option String → ProvTable → ProvTable
release none t = t
release (some key) t = remove text_discrete key t

abbrev pub without_first : List ProvEntry → List ProvEntry
without_first [] = []
without_first (e ∷ es) = es

-- The record with one more response; `seq` is a uint64.
abbrev pub note : Response → ProvRec → ProvRec
note res rec =
    let seq = (rec.seq + 1) % 2 ^ 64 in
    let kept = if leb prov_cap (length rec.resp) then without_first rec.resp else rec.resp in
    record { seq = seq; resp = kept ++ (record { seq = seq; res = res } ∷ []) }

abbrev pub is_invite : Option String → Bool
is_invite none = false
is_invite (some m) = ite (text_discrete m "INVITE") true false

-- `observe`.
unfoldable pub observe : Message → ProvTable → ProvTable
observe request_read t = t
observe (response_read res) t =
    if res.status_code == 100 || not (is_invite res.cseq_method) then t else elim res.tx_key [
      | none ↦ t
      | some key ↦ elim (find text_discrete key t) [
        | none ↦ t
        | some rec ↦ put text_discrete key (note res rec) t
      ]
    ]

-- The number of the final response in a record, and 0 where it is not in it.
abbrev pub final_seq : ℕ → List ProvEntry → ℕ
final_seq final [] = 0
final_seq final (e ∷ es) =
    let rest = final_seq final es in if e.res.ptr == final then e.seq else rest

abbrev pub is_done : ℕ → List ℕ → Bool
is_done p [] = false
is_done p (d ∷ ds) = p == d || is_done p ds

-- A provisional that is not relayed yet.
abbrev pub unrelayed : List ℕ → Response → Bool
unrelayed done res = not (leb 200 res.status_code) && not (is_done res.ptr done)

-- The loop of `before`, up to the number of the final response.
abbrev pub ahead_of : ℕ → List ℕ → List ProvEntry → List Response
ahead_of fseq done [] = []
ahead_of fseq done (e ∷ es) =
    let rest = ahead_of fseq done es in
    if leb fseq e.seq then [] else (if unrelayed done e.res then e.res ∷ rest else rest)

-- `before`, of a request with this transaction key.
unfoldable pub before : Option String → ℕ → List ℕ → ProvTable → List Response
before none final done t = []
before (some key) final done t = elim (find text_discrete key t) [
  | none ↦ []
  | some rec ↦
      let seq = final_seq final rec.resp in
      ahead_of (if seq == 0 then 2 ^ 64 - 1 else seq) done rec.resp
]
