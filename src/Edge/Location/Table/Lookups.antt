-- ===== src/Edge/Location/Table/Lookups.antt =====
-- What the lookups of the registration table give (internal/edge/location.go).
use freesbc.Base.{
  ℕ, ◌<◌, String, ◌≡◌, refl, sym, ap, ◌∙◌, ◌⊎◌, inl, inr, Bool, true, false, ◌||◌, Option, none,
  some, List, [], ◌∷◌, arith, text_discrete, leb, if◌then◌else◌, Bool-cases, length,
}
use freesbc.Base.Assoc.{find, find-put_self}
use freesbc.Net.{AddrPort}
use freesbc.Edge.Location.{
  prune_aor_locked, flush_removed, Binding, Location, TooManyBindings, of_aor, at_source,
  unindex_source_locked, index_source_locked,
}
use freesbc.Edge.Location.Table.{
  put_binding, same, same_call, insert, refresh, put_swept, PutResult, any_live, has_source,
  scan_source, source_binding, lookup_token,
}

abbrev pub is_some : Option Binding → Bool
is_some none = false
is_some (some b) = true

module _ (equal_fold : String → String → Bool) where
  -- The loop that looks for the user's own binding finds something where the plain one does.
  scan_source-any_live :
      (now : ℕ) (heap : ℕ → Binding) (transport user : String) (first : Option Binding)
      (refs : List ℕ)
      → is_some (scan_source equal_fold now heap transport user first refs)
        ≡ (is_some first || any_live equal_fold now heap transport refs)
  unfolding scan_source any_live
  scan_source-any_live now heap transport user none [] = refl
  scan_source-any_live now heap transport user (some a) [] = refl
  scan_source-any_live now heap transport user none (r ∷ refs) =
      let skipped = scan_source-any_live now heap transport user none refs in
      let taken = scan_source-any_live now heap transport user (some (heap r)) refs in
      ground (arith, skipped, taken)
  scan_source-any_live now heap transport user (some a) (r ∷ refs) =
      let kept = scan_source-any_live now heap transport user (some a) refs in ground (arith, kept)

  -- `SourceBinding` finds a binding exactly when `HasSource` admits the source, whatever user is
  -- asked for.
  pub source_binding-has_source :
      (now : ℕ) (transport : String) (src : AddrPort) (user : String) (l : Location)
      → is_some (source_binding equal_fold now transport src user l)
        ≡ has_source equal_fold now transport src l
  unfolding source_binding has_source
  source_binding-has_source now transport src user l =
      scan_source-any_live now l.heap transport user none (at_source src l)

insert-lookup_token :
    (now : ℕ) (b : Binding) (l : Location)
    → now < b.expires_at
    → lookup_token now b.token (insert b l) ≡ some b
unfolding lookup_token insert index_source_locked
insert-lookup_token now b l live =
    ground (arith, live, find-put_self text_discrete b.token l.next_ref l.by_token)

-- Accepted registrations.
module _ (fresh : String) (b : Binding) (l : Location) (now : ℕ) where
  -- The binding that `Put` stores for a new registration: its own token, or a fresh one.
  abbrev pub named : Binding
  named = if same b.token "" then record b { token = fresh } else b

  -- The token of a refreshed binding looks up its new data.
  refresh-lookup_token :
      (q : ℕ)
      → find text_discrete (l.heap q).token l.by_token ≡ some q
      → now < b.expires_at
      → lookup_token now (l.heap q).token (refresh q b l)
        ≡ some (record b { token = (l.heap q).token })
  unfolding lookup_token refresh index_source_locked unindex_source_locked
  refresh-lookup_token q names live = ground (arith, names)

  -- The token of a new binding looks it up.
  put_swept-lookup_token :
      (r : ℕ)
      → same_call l.heap b.call_id (of_aor b.aor l) ≡ none
      → (put_swept fresh b l).1 ≡ PutResult.stored r
      → now < b.expires_at
      → lookup_token now named.token (put_swept fresh b l).0 ≡ some named
  unfolding lookup_token put_swept insert index_source_locked
  put_swept-lookup_token r new stored live =
      elim (Bool-cases (leb l.max_per_aor (length (of_aor b.aor l)))) [
        | inl full ↦ absurd (not_stored {e = TooManyBindings.per_aor} (ground (arith, new, full)))
        | inr open_aor ↦ elim (Bool-cases (leb l.max_total (length l.by_token))) [
          | inl full ↦
              absurd
                (not_stored {e = TooManyBindings.total_full} (ground (arith, new, open_aor, full)))
          | inr open_table ↦
              let taken : (put_swept fresh b l).0 ≡ insert named l =
                ground (arith, new, open_aor, open_table) in
              ap (lookup_token now named.token) taken
              ∙ insert-lookup_token now named l (named_live (Bool-cases (same b.token "")))
        ]
      ]
    where
      named_live : (same b.token "" ≡ true) ⊎ (same b.token "" ≡ false) → now < named.expires_at
      named_live (inl e) = rw e live
      named_live (inr e) = rw e live

      not_stored : {e : TooManyBindings} → (put_swept fresh b l).1 ≡ PutResult.refused e → ⊥
      not_stored h = ground (arith, sym stored ∙ h)

module _ (fresh : String) (b : Binding) (l : Location) (t now : ℕ) where
  -- The table that `Put` looks into, after its sweep of the AoR.
  abbrev pub swept : Location
  swept = (prune_aor_locked t b.aor l).0

  -- A new registration that `Put` accepts is found by its token until it expires: the token it
  -- brings, or the fresh one. New means that, after the sweep of its address-of-record's expired
  -- bindings, none of that address-of-record has its Call-ID.
  pub put_binding-lookup_token :
      (r : ℕ)
      → same_call swept.heap b.call_id (of_aor b.aor swept) ≡ none
      → (put_binding t fresh b l).0.1 ≡ PutResult.stored r
      → now < b.expires_at
      → lookup_token now (named fresh b l now).token (put_binding t fresh b l).0.0
        ≡ some (named fresh b l now)
  unfolding put_binding flush_removed lookup_token
  put_binding-lookup_token r new stored live =
      put_swept-lookup_token fresh b swept now r new stored live

  -- A refresh keeps the token: where `Put` finds the binding q of the same address-of-record and
  -- Call-ID after its sweep, and the token of q names q, that token looks up the new data after the
  -- call, with the token it had, until the new expiry.
  pub put_binding-refresh :
      (i q : ℕ)
      → same_call swept.heap b.call_id (of_aor b.aor swept) ≡ some (i, q)
      → find text_discrete (swept.heap q).token swept.by_token ≡ some q
      → now < b.expires_at
      → lookup_token now (swept.heap q).token (put_binding t fresh b l).0.0
        ≡ some (record b { token = (swept.heap q).token })
  unfolding put_binding flush_removed lookup_token put_swept
  put_binding-refresh i q known names live =
      let taken : (put_swept fresh b swept).0 ≡ refresh q b swept = rw (known, put_swept) refl in
      ap (lookup_token now (swept.heap q).token) taken
      ∙ refresh-lookup_token fresh b swept now q names live
