-- ===== src/Admin/Sessions/Bounds.antt =====
-- The number of live sessions (internal/admin/session.go).
use freesbc.Base.{
  ℕ, zero, suc, ◌+◌, ◌≤◌, String, ◌≡◌, ◌≢◌, inl, inr, none, [], ◌∷◌, arith, ℕ_discrete, ltb, leb,
  leb_false→lt, Bool-cases, Option-cases, length,
}
use freesbc.Base.Assoc.{find, remove, put, length-remove_known, length-put_known, length-put_new}
use freesbc.Admin.Sessions.{Session, Store, session_max, prune, oldest, evict_loop, create}

oldest_known : (e : ℕ × Session) (st : Store) → find ℕ_discrete (oldest e st).0 (e ∷ st) ≢ none
unfolding oldest find
oldest_known e [] none_left = ground (arith, none_left)
oldest_known e (f ∷ st) none_left = elim (Bool-cases (ltb f.1.created e.1.created)) [
  | inl older ↦
      let h = oldest_known f st in
      let in_rest : find ℕ_discrete (oldest f st).0 (f ∷ st) ≡ none =
        ground (arith, rw older at none_left) in
      h in_rest
  | inr younger ↦
      let h = oldest_known e st in
      let in_rest : find ℕ_discrete (oldest e st).0 (e ∷ st) ≡ none =
        ground (arith, rw younger at none_left) in
      h in_rest
]

oldest_goes :
    (e : ℕ × Session) (st : Store)
    → length (remove ℕ_discrete (oldest e st).0 (e ∷ st)) + 1 ≤ length (e ∷ st)
oldest_goes e st = elim (Option-cases (find ℕ_discrete (oldest e st).0 (e ∷ st))) [
  | inl gone ↦ absurd (oldest_known e st gone)
  | inr (v, known) ↦ length-remove_known ℕ_discrete (oldest e st).0 (e ∷ st) v known
]

evict_loop-room : (n : ℕ) (st : Store) → length st ≤ n → length (evict_loop n st) + 1 ≤ session_max
unfolding evict_loop
evict_loop-room zero [] h = omega arith
evict_loop-room zero (e ∷ st) h = absurd (omega arith)
evict_loop-room (suc n) [] h = omega arith
evict_loop-room (suc n) (e ∷ st) h = elim (Bool-cases (leb session_max (length (e ∷ st)))) [
  | inl full ↦
      let goes = oldest_goes e st in
      rw full (evict_loop-room n (remove ℕ_discrete (oldest e st).0 (e ∷ st)) (omega arith))
  | inr room ↦ rw room (omega (arith, leb_false→lt _ _ room))
]

length-put-le : (k : ℕ) (v : Session) (st : Store) → length (put ℕ_discrete k v st) ≤ length st + 1
length-put-le k v st = elim (Option-cases (find ℕ_discrete k st)) [
  | inl new ↦ omega (arith, length-put_new ℕ_discrete k v st new)
  | inr (w, known) ↦ omega (arith, length-put_known ℕ_discrete k v st w known)
]

module _ (session_key : String → ℕ) where
  -- After a login there are at most `sessionMax` sessions, however many there were before.
  pub create-session_max :
      (id : String) (now : ℕ) (st : Store) → length (create session_key id now st) ≤ session_max
  unfolding create
  create-session_max id now st =
      let live = prune now st in
      let room = evict_loop-room (length live) live (omega arith) in
      let grown =
        length-put-le (session_key id) (record { created = now; last = now })
          (evict_loop (length live) live) in
      omega arith
