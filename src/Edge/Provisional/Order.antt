-- ===== src/Edge/Provisional/Order.antt =====
-- What `before` returns, of the messages that were read (internal/edge/prov.go).
use freesbc.Base.{
  ℕ, zero, suc, ◌+◌, ◌-◌, ◌%◌, ◌^◌, ◌≤◌, ◌<◌, String, ◌≡◌, refl, sym, ap, ◌∙◌, inl, inr, ite, Bool,
  true, false, not, ◌&&◌, ◌||◌, none, some, List, [], ◌∷◌, ◌++◌, arith, text_discrete, leb, ◌==◌,
  if◌then◌else◌, Bool-cases, Option-cases, length, drop, keep, length-append,
}
use freesbc.Base.Assoc.{find, find-put_self, find-put_ne}
use mathlib.Core.Path.{subst}
use mathlib.Core.List.{append-nil, append_assoc}
use freesbc.Edge.Provisional.Numbers.{
  Rising, Rising-without_first, Rising-append, until, responses, ahead_of-until,
}
use freesbc.Edge.Provisional.{
  prov_cap, Response, Message, request_read, response_read, ProvEntry, ProvRec, ProvTable,
  new_prov_rec, register, without_first, note, is_invite, observe, unrelayed, before,
}

-- The last `n` of a list.
unfoldable pub last_of : ℕ → List Response → List Response
last_of n l = drop (length l - n) l

drop-append :
    (n : ℕ) (l : List Response) (x : Response)
    → n ≤ length l
    → drop n (l ++ (x ∷ [])) ≡ drop n l ++ (x ∷ [])
drop-append zero l x small = refl
drop-append (suc n) [] x small = absurd (omega (arith, small))
drop-append (suc n) (y ∷ l) x small = drop-append n l x (omega (arith, small))

without : List Response → List Response
without [] = []
without (r ∷ rs) = rs

without-drop : (n : ℕ) (l : List Response) → without (drop n l) ≡ drop (suc n) l
unfolding without
without-drop zero [] = refl
without-drop zero (x ∷ l) = refl
without-drop (suc n) [] = refl
without-drop (suc n) (x ∷ l) = without-drop n l

length-drop : (n : ℕ) (l : List Response) → length (drop n l) ≡ length l - n
length-drop zero l = omega arith
length-drop (suc n) [] = omega arith
length-drop (suc n) (x ∷ l) = omega (arith, length-drop n l)

-- The window of the last `n`, when one more comes.
last_of-append :
    (n : ℕ) (l : List Response) (x : Response)
    → 0 < n
    → last_of n (l ++ (x ∷ []))
      ≡ (if leb n (length (last_of n l)) then without (last_of n l) else last_of n l) ++ (x ∷ [])
unfolding last_of
last_of-append n l x pos =
    let len = length-append l (x ∷ []) in
    let d = length-drop (length l - n) l in
    elim (Bool-cases (leb n (length l))) [
      | inl t ↦
          let h : leb n (length (drop (length l - n) l)) ≡ true = ground (arith, d, t) in
          let e : length (l ++ (x ∷ [])) - n ≡ suc (length l - n) = ground (arith, len, t) in
          rw (h, e)
            (drop-append (suc (length l - n)) l x (ground (arith, t, pos))
              ∙ ap (λ m. m ++ (x ∷ [])) (sym (without-drop (length l - n) l)))
      | inr t ↦
          let h : leb n (length (drop (length l - n) l)) ≡ false = ground (arith, d, t) in
          let e : length (l ++ (x ∷ [])) - n ≡ length l - n = ground (arith, len, t) in
          rw (h, e) (drop-append (length l - n) l x (omega arith))
    ]

-- What a record of these responses holds: the last 32 of them, numbered in their order.
Holds : List Response → ProvRec → Type 0
Holds rs rec =
    (rec.seq ≡ length rs) × Rising 0 rec.seq rec.resp × (responses rec.resp ≡ last_of prov_cap rs)

responses-append :
    (es : List ProvEntry) (e : ProvEntry)
    → responses (es ++ (e ∷ [])) ≡ responses es ++ (e.res ∷ [])
unfolding responses
responses-append [] e = refl
responses-append (x ∷ es) e = ap (λ l. x.res ∷ l) (responses-append es e)

responses-without : (es : List ProvEntry) → responses (without_first es) ≡ without (responses es)
unfolding responses without
responses-without [] = refl
responses-without (e ∷ es) = refl

length-responses : (es : List ProvEntry) → length (responses es) ≡ length es
unfolding responses
length-responses [] = refl
length-responses (e ∷ es) = ap suc (length-responses es)

note-Holds :
    (rs : List Response) (rec : ProvRec) (x : Response)
    → length rs + 1 < 2 ^ 64
    → Holds rs rec
    → Holds (rs ++ (x ∷ [])) (note x rec)
unfolding Holds
note-Holds rs rec x small (at_seq, rising, window) =
    let n : (rec.seq + 1) % 2 ^ 64 ≡ rec.seq + 1 = omega (arith, at_seq, small) in
    let len : length rec.resp ≡ length (last_of prov_cap rs) =
      sym (length-responses rec.resp) ∙ ap (λ l. length l) window in
    let e : ProvEntry = record { seq = rec.seq + 1; res = x } in
    (
      n ∙ omega (arith, at_seq, length-append rs (x ∷ [])),
      elim (Bool-cases (leb prov_cap (length rec.resp))) [
        | inl t ↦
            rw (n, t)
              (Rising-append 0 rec.seq (without_first rec.resp) x
                (Rising-without_first 0 rec.seq rec.resp rising))
        | inr t ↦ rw (n, t) (Rising-append 0 rec.seq rec.resp x rising)
      ],
      elim (Bool-cases (leb prov_cap (length rec.resp))) [
        | inl t ↦
            rw (n, t)
              (responses-append (without_first rec.resp) e
                ∙ ap (λ l. l ++ (x ∷ [])) (responses-without rec.resp ∙ ap without window)
                ∙ sym (last_of-append prov_cap rs x (omega arith) ∙ rw (← len, t) refl))
        | inr t ↦
            rw (n, t)
              (responses-append rec.resp e
                ∙ ap (λ l. l ++ (x ∷ [])) window
                ∙ sym (last_of-append prov_cap rs x (omega arith) ∙ rw (← len, t) refl))
      ],
    )

-- The message is an INVITE response of this transaction other than a 100.
abbrev pub hears : String → Response → Bool
hears key res =
    not (res.status_code == 100 || not (is_invite res.cseq_method))
    && elim res.tx_key [ none ↦ false | some k ↦ ite (text_discrete k key) true false ]

-- The responses of a transaction, in the order in which they were read.
unfoldable pub heard : String → List Message → List Response
heard key [] = []
heard key (request_read ∷ ms) = heard key ms
heard key (response_read res ∷ ms) =
    let rest = heard key ms in if hears key res then res ∷ rest else rest

-- The messages that the transport layer hands on, one after the other.
unfoldable pub observe_all : List Message → ProvTable → ProvTable
observe_all [] t = t
observe_all (m ∷ ms) t = observe_all ms (observe m t)

observe-find :
    (key : String) (res : Response) (t : ProvTable) (rec : ProvRec)
    → find text_discrete key t ≡ some rec
    → find text_discrete key (observe (response_read res) t)
      ≡ some (if hears key res then note res rec else rec)
unfolding observe
observe-find key res t rec known =
    elim (Bool-cases (res.status_code == 100 || not (is_invite res.cseq_method))) [
      | inl skip ↦ rw (skip, observe) known
      | inr kept ↦ elim (Option-cases res.tx_key) [
        | inl nokey ↦ rw (kept, nokey, observe) known
        | inr (k, keyed) ↦ elim (text_discrete k key) [
          | yes e ↦
              let keyed : res.tx_key ≡ some key = keyed ∙ ap some e in
              let at_key = find-put_self text_discrete key (note res rec) t in
              ground (arith, kept, keyed, known, at_key)
          | no ne ↦ elim (Option-cases (find text_discrete k t)) [
            | inl new ↦ ground (arith, kept, keyed, known, ne, new)
            | inr (v, old) ↦
                let off_key = find-put_ne text_discrete key k (note res v) t (λ e. ne (sym e)) in
                ground (arith, kept, keyed, known, ne, old, off_key)
          ]
        ]
      ]
    ]

observe-request :
    (key : String) (t : ProvTable)
    → find text_discrete key (observe request_read t) ≡ find text_discrete key t
unfolding observe
observe-request key t = refl

Holds-new : Holds [] new_prov_rec
unfolding Holds Rising responses last_of
Holds-new = (refl, omega arith, refl)

length-heard-le : (key : String) (ms : List Message) → length (heard key ms) ≤ length ms
unfolding heard
length-heard-le key [] = omega arith
length-heard-le key (request_read ∷ ms) = omega (arith, length-heard-le key ms)
length-heard-le key (response_read res ∷ ms) = ground (arith, length-heard-le key ms)

observe_all-find :
    (key : String) (rs : List Response) (ms : List Message) (t : ProvTable) (rec : ProvRec)
    → length rs + length ms < 2 ^ 64
    → find text_discrete key t ≡ some rec
    → Holds rs rec
    → (last : ProvRec) × (find text_discrete key (observe_all ms t) ≡ some last)
      × Holds (rs ++ heard key ms) last
unfolding observe_all heard
observe_all-find key rs [] t rec small known holds =
    (rec, known, subst (λ l. Holds l rec) (sym (append-nil rs)) holds)
observe_all-find key rs (request_read ∷ ms) t rec small known holds =
    observe_all-find key rs ms (observe request_read t) rec (omega (arith, small))
      (observe-request key t ∙ known) holds
observe_all-find key rs (response_read res ∷ ms) t rec small known holds =
    let t1 = observe (response_read res) t in
    let found = observe-find key res t rec known in
    elim (Bool-cases (hears key res)) [
      | inl t ↦
          let more = length-append rs (res ∷ []) in
          let (last, at_key, all) =
            observe_all-find key (rs ++ (res ∷ [])) ms t1 (note res rec)
              (omega (arith, more, small)) (rw t at found)
              (note-Holds rs rec res (omega (arith, small)) holds) in
          (
            last,
            at_key,
            rw t (subst (λ l. Holds l last) (append_assoc rs (res ∷ []) (heard key ms)) all),
          )
      | inr t ↦
          rw t (observe_all-find key rs ms t1 rec (omega (arith, small)) (rw t at found) holds)
    ]

-- What `before` returns for a transaction that was registered, after fewer than 2 ^ 64 - 1
-- messages, of this transaction or others: of the last 32 INVITE responses of the transaction but for
-- a 100, those that were read ahead of the final one (all of them, if it is not among these), that
-- are provisional, and that are not relayed yet, in the order in which they were read.
pub before-heard :
    (key : String) (final : ℕ) (done : List ℕ) (ms : List Message) (t : ProvTable)
    → length ms < 2 ^ 64 - 1
    → before (some key) final done (observe_all ms (register (some key) t))
      ≡ keep (unrelayed done) (until final (last_of prov_cap (heard key ms)))
unfolding before register Holds
before-heard key final done ms t small =
    let (rec, known, (at_seq, rising, window)) =
      observe_all-find key [] ms (register (some key) t) new_prov_rec (omega (arith, small))
        (find-put_self text_discrete key new_prov_rec t) Holds-new in
    rw (known, before)
      (ahead_of-until 0 rec.seq final done rec.resp
          (omega (arith, at_seq, length-heard-le key ms, small)) rising
        ∙ ap (λ l. keep (unrelayed done) (until final l)) window)
