-- ===== src/Edge/Location/Table/Bounds.antt =====
-- The bounds of the registration table (internal/edge/location.go).
use freesbc.Base.{
  ℕ, zero, suc, ◌+◌, ◌≤◌, ◌<◌, String, ◌≡◌, refl, ◌∙◌, inl, inr, Bool, List, [], ◌∷◌, ◌++◌, map,
  arith, text_discrete, leb, if◌then◌else◌, leb_false→lt, Bool-cases, Option-cases, length,
  length-append,
}
use freesbc.Base.Assoc.{
  find, put, find-remove, find-put_self, find-put_ne, length-remove-le, length-put_known,
  length-put_new,
}
use freesbc.Net.{AddrPort}
use freesbc.Edge.Location.{
  Binding, lapsed, Location, or_empty, of_aor, at_source, nth, position, erase_at, set_or_delete,
  index_source_locked, unindex_source_locked, delete_locked, prune_positions, prune_aor_locked,
  prune_keys, prune_locked, flush_removed,
}
use freesbc.Edge.Location.Table.{
  same, same_call, insert, refresh, put_swept, put_binding, remove_binding, remove_refs,
  remove_by_source, victims, prune, count,
}

-- A table that has no more than another one, under the same bounds.
record Within (l' l : Location) : Type 0 where
  same_total : l'.max_total ≡ l.max_total
  same_per_aor : l'.max_per_aor ≡ l.max_per_aor
  fewer : count l' ≤ count l
  shorter : (a : String) → length (of_aor a l') ≤ length (of_aor a l)

Within-refl : (l : Location) → Within l l
Within-refl l = record {
  same_total = refl;
  same_per_aor = refl;
  fewer = omega arith;
  shorter = λ a. omega arith;
}

Within-trans : {l l' l'' : Location} → Within l'' l' → Within l' l → Within l'' l
Within-trans v w = record {
  same_total = v.same_total ∙ w.same_total;
  same_per_aor = v.same_per_aor ∙ w.same_per_aor;
  fewer = omega (arith, v.fewer, w.fewer);
  shorter = λ a. omega (arith, v.shorter a, w.shorter a);
}

length-erase_at-le : (i : ℕ) (l : List ℕ) → length (erase_at i l) ≤ length l
unfolding erase_at
length-erase_at-le i [] = omega arith
length-erase_at-le zero (x ∷ l) = omega arith
length-erase_at-le (suc i) (x ∷ l) = let h = length-erase_at-le i l in omega arith

length-set_or_delete :
    (a k : String) (refs : List ℕ) (m : List (String × List ℕ))
    → length refs ≤ length (or_empty (find text_discrete k m))
    → length (or_empty (find text_discrete a (set_or_delete text_discrete k refs m)))
      ≤ length (or_empty (find text_discrete a m))
unfolding set_or_delete
length-set_or_delete a k [] m h = ground (arith, find-remove text_discrete a k m)
length-set_or_delete a k (r ∷ refs) m h = elim (text_discrete a k) [
  | yes e ↦ rw (e, find-put_self text_discrete k (r ∷ refs) m) h
  | no ne ↦ rw (find-put_ne text_discrete a k (r ∷ refs) m ne) (omega arith)
]

delete_locked-Within : (aor : String) (i : ℕ) (l : Location) → Within (delete_locked aor i l) l
unfolding delete_locked unindex_source_locked
delete_locked-Within aor i l = elim (Option-cases (nth i (of_aor aor l))) [
  | inl gone ↦ rw (gone, delete_locked) (Within-refl l)
  | inr (r, here) ↦
      rw (here, delete_locked)
        (record {
          same_total = refl;
          same_per_aor = refl;
          fewer = length-remove-le text_discrete (l.heap r).token l.by_token;
          shorter = λ a.
              length-set_or_delete a aor (erase_at i (of_aor aor l)) l.by_aor
                (length-erase_at-le i (of_aor aor l));
        })
]

prune_positions-Within :
    (now i : ℕ) (aor : String) (l : Location) → Within (prune_positions now i aor l).0 l
unfolding prune_positions
prune_positions-Within now zero aor l = Within-refl l
prune_positions-Within now (suc i) aor l =
    elim (Bool-cases (lapsed now l.heap (nth i (of_aor aor l)))) [
      | inl gone ↦ rw gone (
          Within-trans (prune_positions-Within now i aor (delete_locked aor i l))
            (delete_locked-Within aor i l))
      | inr stays ↦ rw stays (prune_positions-Within now i aor l)
    ]

prune_aor_locked-Within :
    (now : ℕ) (aor : String) (l : Location) → Within (prune_aor_locked now aor l).0 l
unfolding prune_aor_locked
prune_aor_locked-Within now aor l = prune_positions-Within now (length (of_aor aor l)) aor l

prune_keys-Within :
    (now : ℕ) (keys : List String) (l : Location) → Within (prune_keys now keys l).0 l
unfolding prune_keys
prune_keys-Within now [] l = Within-refl l
prune_keys-Within now (aor ∷ keys) l =
    Within-trans (prune_keys-Within now keys (prune_aor_locked now aor l).0)
      (prune_aor_locked-Within now aor l)

remove_refs-Within : (refs : List ℕ) (l : Location) → Within (remove_refs refs l) l
unfolding remove_refs
remove_refs-Within [] l = Within-refl l
remove_refs-Within (r ∷ refs) l = elim (Option-cases (position r (of_aor (l.heap r).aor l))) [
  | inl gone ↦ rw (gone, remove_refs) (remove_refs-Within refs l)
  | inr (i, here) ↦
      rw (here, remove_refs)
        (Within-trans (remove_refs-Within refs (delete_locked (l.heap r).aor i l))
          (delete_locked-Within (l.heap r).aor i l))
]

flush_removed-Within : (l : Location) → Within (flush_removed l).0 l
unfolding flush_removed
flush_removed-Within l = record {
  same_total = refl;
  same_per_aor = refl;
  fewer = omega arith;
  shorter = λ a. omega arith;
}

refresh-Within : (r : ℕ) (b : Binding) (l : Location) → Within (refresh r b l) l
unfolding refresh index_source_locked unindex_source_locked
refresh-Within r b l = record {
  same_total = refl;
  same_per_aor = refl;
  fewer = omega arith;
  shorter = λ a. omega arith;
}

-- The bounds of the table: as many bindings as `max_total`, and as many of one address-of-record as
-- `max_per_aor`.
pub record WithinBounds (l : Location) : Type 0 where
  pub total : count l ≤ l.max_total
  pub per_aor : (a : String) → length (of_aor a l) ≤ l.max_per_aor

Within-WithinBounds : {l' l : Location} → Within l' l → WithinBounds l → WithinBounds l'
Within-WithinBounds w h = record {
  total = rw w.same_total (omega (arith, w.fewer, h.total));
  per_aor = λ a. rw w.same_per_aor (omega (arith, w.shorter a, h.per_aor a));
}

length-put-le :
    {V : Type 0} (k : String) (v : V) (m : List (String × V))
    → length (put text_discrete k v m) ≤ length m + 1
length-put-le k v m = elim (Option-cases (find text_discrete k m)) [
  | inl new ↦ omega (arith, length-put_new text_discrete k v m new)
  | inr (w, known) ↦ omega (arith, length-put_known text_discrete k v m w known)
]

insert-WithinBounds :
    (b : Binding) (l : Location)
    → length (of_aor b.aor l) < l.max_per_aor
    → count l < l.max_total
    → WithinBounds l
    → WithinBounds (insert b l)
unfolding insert index_source_locked
insert-WithinBounds b l room_aor room h = record {
  total = let grown = length-put-le b.token l.next_ref l.by_token in omega (arith, room);
  per_aor = λ a. elim (text_discrete a b.aor) [
    | yes e ↦
        rw (e, find-put_self text_discrete b.aor (of_aor b.aor l ++ (l.next_ref ∷ [])) l.by_aor)
          (omega (arith, length-append (of_aor b.aor l) (l.next_ref ∷ []), room_aor))
    | no ne ↦
        rw (find-put_ne text_discrete a b.aor (of_aor b.aor l ++ (l.next_ref ∷ [])) l.by_aor ne)
          (h.per_aor a)
  ];
}

put_swept-WithinBounds :
    (fresh : String) (b : Binding) (l : Location)
    → WithinBounds l
    → WithinBounds (put_swept fresh b l).0
unfolding put_swept
put_swept-WithinBounds fresh b l h =
    elim (Option-cases (same_call l.heap b.call_id (of_aor b.aor l))) [
      | inr (e, known) ↦ rw (known, put_swept) (Within-WithinBounds (refresh-Within e.1 b l) h)
      | inl new ↦ elim (Bool-cases (leb l.max_per_aor (length (of_aor b.aor l)))) [
        | inl full ↦ rw (new, full, put_swept) h
        | inr open_aor ↦ elim (Bool-cases (leb l.max_total (length l.by_token))) [
          | inl full ↦ rw (new, open_aor, full, put_swept) h
          | inr open_table ↦
              rw (new, open_aor, open_table, put_swept)
                (inserted (leb_false→lt _ _ open_aor) (leb_false→lt _ _ open_table))
        ]
      ]
    ]
  where
    inserted :
        length (of_aor b.aor l) < l.max_per_aor
        → count l < l.max_total
        → WithinBounds (insert (if same b.token "" then record b { token = fresh } else b) l)
    inserted room_aor room = elim (Bool-cases (same b.token "")) [
      | inl unnamed ↦
          rw unnamed (insert-WithinBounds (record b { token = fresh }) l room_aor room h)
      | inr named ↦ rw named (insert-WithinBounds b l room_aor room h)
    ]

-- One call of a method that changes the table.
pub data Step (equal_fold : String → String → Bool) (l : Location) : Location → Type 0 where
  put_step :
      (now : ℕ) (fresh : String) (b : Binding) → Step equal_fold l (put_binding now fresh b l).0.0
  remove_step : (aor call_id : String) → Step equal_fold l (remove_binding aor call_id l).0.0
  close_step :
      (transport : String) (src : AddrPort)
      → Step equal_fold l (remove_by_source equal_fold transport src l).0.0
  prune_step : (now : ℕ) → Step equal_fold l (prune now l).0.0

-- The tables that calls lead to.
pub data Reach (equal_fold : String → String → Bool) (l : Location) : Location → Type 0 where
  here : Reach equal_fold l l
  next :
      {l' l'' : Location} → Reach equal_fold l l' → Step equal_fold l' l'' → Reach equal_fold l l''

module _ {equal_fold : String → String → Bool} where
  Step-WithinBounds : {l l' : Location} → Step equal_fold l l' → WithinBounds l → WithinBounds l'
  unfolding put_binding remove_binding remove_by_source prune prune_locked
  Step-WithinBounds {l} (put_step now fresh b) h =
      Within-WithinBounds
        (flush_removed-Within (put_swept fresh b (prune_aor_locked now b.aor l).0).0)
        (put_swept-WithinBounds fresh b (prune_aor_locked now b.aor l).0
          (Within-WithinBounds (prune_aor_locked-Within now b.aor l) h))
  Step-WithinBounds {l} (remove_step aor call_id) h =
      elim (Option-cases (same_call l.heap call_id (of_aor aor l))) [
        | inl new ↦ rw (new, remove_binding) (Within-WithinBounds (flush_removed-Within l) h)
        | inr (e, known) ↦
            rw (known, remove_binding)
              (Within-WithinBounds
                (Within-trans (flush_removed-Within (delete_locked aor e.0 l))
                  (delete_locked-Within aor e.0 l))
                h)
      ]
  Step-WithinBounds {l} (close_step transport src) h =
      let gone = victims equal_fold l.heap transport (at_source src l) in
      Within-WithinBounds
        (Within-trans (flush_removed-Within (remove_refs gone l)) (remove_refs-Within gone l)) h
  Step-WithinBounds {l} (prune_step now) h =
      let keys = map (λ e. e.0) l.by_aor in
      Within-WithinBounds
        (Within-trans (flush_removed-Within (prune_keys now keys l).0)
          (prune_keys-Within now keys l))
        h

  -- No sequence of registrations, removals, closed connections and prunes takes a table that is within
  -- its bounds past them: at most `max_total` bindings and at most `max_per_aor` of one
  -- address-of-record.
  pub Reach-WithinBounds :
      {l l' : Location} → Reach equal_fold l l' → WithinBounds l → WithinBounds l'
  Reach-WithinBounds here h = h
  Reach-WithinBounds (next before step) h = Step-WithinBounds step (Reach-WithinBounds before h)
