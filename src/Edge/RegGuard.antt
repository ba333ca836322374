-- ===== src/Edge/RegGuard.antt =====
-- The REGISTER credential guard: the table of internal/edge/regguard.go, and the source key of
-- internal/edge/admission.go. The map with its LRU list is one association list, most recent first.
-- The hash of a string (64-bit FNV-1a of the standard library) is a parameter.
pub mod Forgery
pub mod Once
use freesbc.Base.{
  ℕ, zero, suc, ◌+◌, ◌-◌, ◌*◌, ◌/◌, ◌%◌, ◌^◌, ◌≤◌, ◌<◌, min, max, String, ◌≡◌, refl, sym, ap, ◌∙◌,
  ◌≢◌, ◌↔◌, ◌⊎◌, inl, inr, ite, if_pos, if_neg, Bool, true, false, not, ◌&&◌, ◌||◌, Option, none,
  some, List, [], ◌∷◌, ◌++◌, map, arith, ℕ_discrete, text_discrete, ltb, leb, ◌==◌, if◌then◌else◌,
  ltb→lt, lt→ltb, ltb_false→le, leb→le, leb_false→lt, le→leb, Bool-cases, Option-cases, false-true,
  length, drop_back, take, drop, keep, All, length-append, length-drop_back, length-drop_back-le,
  length-keep-le, length-take-le,
}
use freesbc.Base.Assoc.{
  find, remove, put, NoDup, find-remove, find-put, find-remove_self, find-remove_ne, find-put_self,
  find-put_ne, length-remove-le, length-remove_known, length-put_known, length-put_new,
  NoDup-remove, NoDup-put, passing, find-keep-none, find-keep, NoDup-keep, find-drop_back,
  find-drop_back-none, NoDup-drop_back, NoDup-touch, find-front_self, find-front_ne,
}
use freesbc.Base.Lru.{
  evict, length-evict, IsLru, IsLru-touch, IsLru-push, find-push_ne, find-touch_ne,
}
use freesbc.Base.Every.{set_at}
use freesbc.Net.{Addr, Addr-discrete, unmap, mask_64, without_zone}

abbrev pub reg_guard_sources : ℕ
reg_guard_sources = 16384

abbrev pub reg_nonce_ttl : ℕ
reg_nonce_ttl = 15 * 60 * 1000000000

abbrev pub reg_replay_window : ℕ
reg_replay_window = 40 * 1000000000

abbrev pub reg_nonces_per_source : ℕ
reg_nonces_per_source = 4

abbrev pub reg_branches_per_source : ℕ
reg_branches_per_source = 8

abbrev pub reg_struck_per_source : ℕ
reg_struck_per_source = 16

pub record RegStamp : Type 0 where
  pub h : ℕ
  pub at_time : ℕ

pub record RegRecord : Type 0 where
  pub nonces : List RegStamp
  pub ni : ℕ
  pub branches : List RegStamp
  pub bi : ℕ
  pub struck : List ℕ
  pub si : ℕ

pub record RegGuard : Type 0 where
  pub entries : List (Addr × RegRecord)
  pub max_entries : ℕ

abbrev pub copies : {A : Type 0} → ℕ → A → List A
copies zero x = []
copies (suc n) x = x ∷ copies n x

abbrev pub zero_stamp : RegStamp
zero_stamp = record { h = 0; at_time = 0 }

abbrev pub zero_record : RegRecord
zero_record = record {
  nonces = copies reg_nonces_per_source zero_stamp;
  ni = 0;
  branches = copies reg_branches_per_source zero_stamp;
  bi = 0;
  struck = copies reg_struck_per_source 0;
  si = 0;
}

-- `newRegGuard`.
abbrev pub new_reg_guard : RegGuard
new_reg_guard = record { entries = []; max_entries = reg_guard_sources }

-- `enumKey`.
unfoldable pub enum_key : Addr → Addr
unfolding unmap mask_64 without_zone
enum_key ip = mask_64 (without_zone (unmap ip))

-- `^` of 64-bit integers.
unfoldable pub xor_bits : ℕ → ℕ → ℕ → ℕ
xor_bits zero a b = 0
xor_bits (suc n) a b = (a + b) % 2 + 2 * xor_bits n (a / 2) (b / 2)

-- `recent`.
unfoldable pub recent : List RegStamp → ℕ → ℕ → ℕ → Bool
recent [] h now ttl = false
recent (s ∷ ring) h now ttl =
    let rest = recent ring h now ttl in
    if s.h == h && not (s.at_time == 0) && ltb (now - s.at_time) ttl then true else rest

abbrev pub has_value : ℕ → List ℕ → Bool
has_value x [] = false
has_value x (y ∷ l) = y == x || has_value x l

abbrev pub is_blank : String → Bool
is_blank s = ite (text_discrete s "") true false

module _ (reg_hash : String → ℕ) where
  -- The loop of `challenged` over the nonces.
  unfoldable pub add_nonces : ℕ → List String → RegRecord → RegRecord
  unfolding set_at
  add_nonces now [] r = r
  add_nonces now (n ∷ ns) r = add_nonces now ns (record r {
    nonces = set_at r.ni (record { h = reg_hash n; at_time = now }) r.nonces;
    ni = (r.ni + 1) % reg_nonces_per_source;
  })

  unfoldable pub add_branch : ℕ → String → RegRecord → RegRecord
  unfolding set_at
  add_branch now branch r = if is_blank branch then r else record r {
    branches = set_at r.bi (record { h = reg_hash branch; at_time = now }) r.branches;
    bi = (r.bi + 1) % reg_branches_per_source;
  }

  -- `challenged`.
  unfoldable pub challenged : ℕ → Addr → String → List String → RegGuard → RegGuard
  unfolding add_nonces add_branch
  challenged now src branch [] g = g
  challenged now src branch (n ∷ ns) g =
      let key = enum_key src in
      let noted : RegRecord → RegRecord = λ r. add_branch now branch (add_nonces now (n ∷ ns) r) in
      elim (find Addr-discrete key g.entries) [
        | some r ↦ record g { entries = (key, noted r) ∷ remove Addr-discrete key g.entries }
        | none ↦ record g { entries = (key, noted zero_record) ∷ evict g.max_entries g.entries }
      ]

  -- The identity of an attempt in `countable`.
  abbrev pub attempt_id : String → ℕ → ℕ
  attempt_id branch attempt = xor_bits 64 (reg_hash branch) (attempt * 0x9e3779b97f4a7c15 % 2 ^ 64)

  -- `countable`.
  unfoldable pub countable : ℕ → Addr → String → String → ℕ → Bool → RegGuard → RegGuard × Bool
  unfolding recent set_at
  countable now src branch nonce attempt replay g =
      let key = enum_key src in
      if is_blank nonce then (g, false) else elim (find Addr-discrete key g.entries) [
        | none ↦ (g, false)
        | some r ↦
            if not (recent r.nonces (reg_hash nonce) now reg_nonce_ttl)
            then (g, false)
            else if replay
                && (is_blank branch
                    || not (recent r.branches (reg_hash branch) now reg_replay_window))
            then (g, false)
            else if has_value (attempt_id branch attempt) r.struck
            then (g, false)
            else (
              record g {
                entries =
                    put Addr-discrete key
                      (record r {
                        struck = set_at r.si (attempt_id branch attempt) r.struck;
                        si = (r.si + 1) % reg_struck_per_source;
                      })
                      g.entries;
              },
              true,
            )
      ]

-- `size`.
abbrev pub size : RegGuard → ℕ
size g = length g.entries
