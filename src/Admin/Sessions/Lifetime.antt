-- ===== src/Admin/Sessions/Lifetime.antt =====
-- How long a login lasts (internal/admin/session.go).
use freesbc.Base.{
  ℕ, zero, suc, ◌+◌, ◌≤◌, String, ◌≡◌, refl, sym, ◌≢◌, inl, inr, if_pos, if_neg, Bool, false, none,
  some, List, [], ◌∷◌, arith, ℕ_discrete, leb, Bool-cases, Option-cases, length, keep,
}
use freesbc.Base.Assoc.{find, remove, put}
use mathlib.Core.Path.{subst}
use freesbc.Admin.Sessions.{
  is_empty, Session, Store, session_max_age, session_max, expired, prune, oldest, evict_loop,
  create, valid, drop_session,
}

-- Every session of the key was created at `c`.
abbrev Since : ℕ → ℕ → Store → Type 0
Since k c [] = Unit
Since k c (e ∷ st) = (e.0 ≡ k → e.1.created ≡ c) × Since k c st

Since-keep : (k c : ℕ) (p : ℕ × Session → Bool) (st : Store) → Since k c st → Since k c (keep p st)
Since-keep k c p [] h = tt
Since-keep k c p (e ∷ st) h = elim (Bool-cases (p e)) [
  | inl kept ↦ rw kept (h.0, Since-keep k c p st h.1)
  | inr gone ↦ rw gone (Since-keep k c p st h.1)
]

Since-remove : (k c j : ℕ) (st : Store) → Since k c st → Since k c (remove ℕ_discrete j st)
unfolding remove
Since-remove k c j [] h = tt
Since-remove k c j (e ∷ st) h = elim (ℕ_discrete j e.0) [
  | yes same ↦ rw (if_pos _ same) (Since-remove k c j st h.1)
  | no ne ↦ rw (if_neg _ ne) (h.0, Since-remove k c j st h.1)
]

Since-put :
    (k c j : ℕ) (v : Session) (st : Store)
    → (j ≡ k → v.created ≡ c)
    → Since k c st
    → Since k c (put ℕ_discrete j v st)
unfolding put
Since-put k c j v [] new h = (new, tt)
Since-put k c j v (e ∷ st) new h = elim (ℕ_discrete j e.0) [
  | yes same ↦ rw (if_pos _ same) (new, h.1)
  | no ne ↦ rw (if_neg _ ne) (h.0, Since-put k c j v st new h.1)
]

Since-find :
    (k c : ℕ) (st : Store) (v : Session)
    → Since k c st
    → find ℕ_discrete k st ≡ some v
    → v.created ≡ c
unfolding find
Since-find k c [] v h known = absurd (ground (arith, known))
Since-find k c (e ∷ st) v h known = elim (ℕ_discrete k e.0) [
  | yes same ↦
      let is_e : e.1 ≡ v = ground (arith, same, known) in
      subst (λ s. s.created ≡ c) is_e (h.0 (sym same))
  | no ne ↦ Since-find k c st v h.1 (ground (arith, ne, known))
]

Since-fresh : (k c : ℕ) (st : Store) → find ℕ_discrete k st ≡ none → Since k c st
unfolding find
Since-fresh k c [] new = tt
Since-fresh k c (e ∷ st) new = elim (ℕ_discrete k e.0) [
  | yes same ↦ absurd (ground (arith, same, new))
  | no ne ↦ ((λ same. absurd (ne (sym same))), Since-fresh k c st (ground (arith, ne, new)))
]

Since-evict_loop : (k c n : ℕ) (st : Store) → Since k c st → Since k c (evict_loop n st)
unfolding evict_loop
Since-evict_loop k c zero st h = h
Since-evict_loop k c (suc n) [] h = tt
Since-evict_loop k c (suc n) (e ∷ st) h = elim (Bool-cases (leb session_max (length (e ∷ st)))) [
  | inl full ↦ rw full (
      Since-evict_loop k c n (remove ℕ_discrete (oldest e st).0 (e ∷ st))
        (Since-remove k c (oldest e st).0 (e ∷ st) h))
  | inr room ↦ rw room h
]

-- Equal stores have equal sessions.
carry : (k c : ℕ) (st st' : Store) → st' ≡ st → Since k c st → Since k c st'
carry k c st st' same = subst (Since k c) (sym same)

module _ (session_key : String → ℕ) where
  -- A call on the session store.
  pub data Call : Type 0 where
    log_in use_session log_out : String → ℕ → Call

  abbrev pub after : Call → Store → Store
  after (log_in id now) st = create session_key id now st
  after (use_session id now) st = (valid session_key id now st).0
  after (log_out id now) st = (drop_session session_key id now st).0

  -- The call is not a login under the same key.
  abbrev pub IsOther : ℕ → Call → Type 0
  IsOther k (log_in id now) = session_key id ≢ k
  IsOther k (use_session id now) = Unit
  IsOther k (log_out id now) = Unit

  abbrev pub AllOther : ℕ → List Call → Type 0
  AllOther k [] = Unit
  AllOther k (c ∷ cs) = IsOther k c × AllOther k cs

  unfoldable pub run : List Call → Store → Store
  run [] st = st
  run (c ∷ cs) st = run cs (after c st)

  Since-after :
      (k c : ℕ) (call : Call) (st : Store)
      → IsOther k call
      → Since k c st
      → Since k c (after call st)
  unfolding create prune valid drop_session
  Since-after k c (log_in id now) st other h =
      Since-put k c (session_key id) (record { created = now; last = now })
        (evict_loop (length (prune now st)) (prune now st)) (λ same. absurd (other same))
        (Since-evict_loop k c (length (prune now st)) (prune now st) (Since-keep k c _ st h))
  Since-after k c (use_session id now) st other h =
      let j = session_key id in
      elim (Bool-cases (is_empty id)) [
        | inl empty ↦ carry k c st (valid session_key id now st).0 (ground (arith, empty)) h
        | inr named ↦ elim (Option-cases (find ℕ_discrete j st)) [
          | inl new ↦ carry k c st (valid session_key id now st).0 (ground (arith, named, new)) h
          | inr (v, known) ↦ elim (Bool-cases (expired v now)) [
            | inl over ↦
                carry k c (remove ℕ_discrete j st) (valid session_key id now st).0
                  (ground (arith, named, known, over)) (Since-remove k c j st h)
            | inr live ↦
                carry k c (put ℕ_discrete j (record v { last = now }) st)
                  (valid session_key id now st).0 (ground (arith, named, known, live))
                  (Since-put k c j (record v { last = now }) st
                    (λ same.
                      Since-find k c st v h (subst (λ j. find ℕ_discrete j st ≡ some v) same known))
                    h)
          ]
        ]
      ]
  Since-after k c (log_out id now) st other h =
      let j = session_key id in
      elim (Bool-cases (is_empty id)) [
        | inl empty ↦ carry k c st (drop_session session_key id now st).0 (ground (arith, empty)) h
        | inr named ↦ elim (Option-cases (find ℕ_discrete j st)) [
          | inl new ↦
              carry k c st (drop_session session_key id now st).0 (ground (arith, named, new)) h
          | inr (v, known) ↦
              carry k c (remove ℕ_discrete j st) (drop_session session_key id now st).0
                (ground (arith, named, known)) (Since-remove k c j st h)
        ]
      ]

  Since-run :
      (k c : ℕ) (calls : List Call) (st : Store)
      → AllOther k calls
      → Since k c st
      → Since k c (run calls st)
  unfolding run
  Since-run k c [] st others h = h
  Since-run k c (call ∷ calls) st others h =
      Since-run k c calls (after call st) others.1 (Since-after k c call st others.0 h)

  too_old-invalid :
      (id : String) (c t : ℕ) (st : Store)
      → c + session_max_age ≤ t
      → Since (session_key id) c st
      → (valid session_key id t st).1 ≡ false
  unfolding valid
  too_old-invalid id c t st aged h = elim (Option-cases (find ℕ_discrete (session_key id) st)) [
    | inl gone ↦ ground (arith, gone)
    | inr (v, known) ↦
        let born = Since-find (session_key id) c st v h known in ground (arith, known, born, aged)
  ]

  -- A session ends `sessionMaxAge` after its login, however it is used in between: after a login
  -- under a new key, and any calls since then in which nobody logs in under that key again, the
  -- identifier is not valid at that age or later.
  pub valid-max_age :
      (id : String) (c t : ℕ) (calls : List Call) (st : Store)
      → find ℕ_discrete (session_key id) st ≡ none
      → AllOther (session_key id) calls
      → c + session_max_age ≤ t
      → (valid session_key id t (run calls (create session_key id c st))).1 ≡ false
  unfolding create prune
  valid-max_age id c t calls st new others aged =
      let k = session_key id in
      let started : Since k c (create session_key id c st) =
        Since-put k c k (record { created = c; last = c })
          (evict_loop (length (prune c st)) (prune c st)) (λ same. refl)
          (Since-evict_loop k c (length (prune c st)) (prune c st)
            (Since-keep k c _ st (Since-fresh k c st new))) in
      too_old-invalid id c t (run calls (create session_key id c st)) aged
        (Since-run k c calls (create session_key id c st) others started)
