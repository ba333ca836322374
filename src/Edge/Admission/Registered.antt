-- ===== src/Edge/Admission/Registered.antt =====
-- A registration exempts its address from the strikes of admission (internal/edge/admission.go over
-- internal/edge/location.go).
use freesbc.Base.{
  ℕ, ◌+◌, ◌<◌, String, ◌≡◌, sym, ap, ◌∙◌, inl, inr, Bool, true, ◌||◌, Option, List, arith, ltb, leb,
  Bool-cases, Option-cases, length, lt→ltb,
}
use freesbc.Base.Assoc.{find-put_self}
use freesbc.Net.{Addr, Addr-discrete, unmap}
use freesbc.Shield.Limiter.{Float}
use freesbc.Shield.Offenders.{StrikeLimit}
use freesbc.Shield.Gate.{ShieldConfig}
use freesbc.Shield.Gate.Outcome.{unmap_idem}
use freesbc.Edge.Location.{
  prune_aor_locked, flush_removed, Binding, Location, TooManyBindings, of_aor, ip_count,
  index_source_locked, unindex_source_locked,
}
use freesbc.Edge.Location.Table.{
  put_binding, same, same_call, insert, refresh, put_swept, PutResult, has_ip,
}
use freesbc.Edge.Admission.{DropState}
use freesbc.Edge.Admission.Spared.{Offence, offend_all, offend_all-spares}

-- An indexed binding counts for its address.
index-has_ip :
    (r : ℕ) (l : Location) → 0 < ip_count (unmap (l.heap r).source.addr) (index_source_locked r l)
unfolding index_source_locked
index-has_ip r l =
    let ip = unmap (l.heap r).source.addr in
    ground (arith, find-put_self Addr-discrete ip (ip_count ip l + 1) l.by_ip)

-- `Put` indexes what it stores.
insert-has_ip : (b : Binding) (l : Location) → 0 < ip_count (unmap b.source.addr) (insert b l)
unfolding insert index_source_locked
insert-has_ip b l =
    let ip = unmap b.source.addr in
    ground (arith, find-put_self Addr-discrete ip (ip_count ip l + 1) l.by_ip)

refresh-has_ip :
    (r : ℕ) (b : Binding) (l : Location) → 0 < ip_count (unmap b.source.addr) (refresh r b l)
unfolding refresh index_source_locked
refresh-has_ip r b l =
    let ip = unmap b.source.addr in
    let old = unindex_source_locked r l in
    ground (arith, find-put_self Addr-discrete ip (ip_count ip old + 1) old.by_ip)

-- A `Put` that stores a binding leaves its address with a registration.
put_swept-has_ip :
    (fresh : String) (b : Binding) (l : Location) (r : ℕ)
    → (put_swept fresh b l).1 ≡ PutResult.stored r
    → 0 < ip_count (unmap b.source.addr) (put_swept fresh b l).0
unfolding put_swept
put_swept-has_ip fresh b l r stored =
    elim (Option-cases (same_call l.heap b.call_id (of_aor b.aor l))) [
      | inr ((i, q), known) ↦ rw (known, put_swept) (refresh-has_ip q b l)
      | inl new ↦ elim (Bool-cases (leb l.max_per_aor (length (of_aor b.aor l)))) [
        | inl full ↦ absurd (not_stored {e = TooManyBindings.per_aor} (ground (arith, new, full)))
        | inr room ↦ elim (Bool-cases (leb l.max_total (length l.by_token))) [
          | inl full ↦
              absurd (not_stored {e = TooManyBindings.total_full} (ground (arith, new, room, full)))
          | inr room_too ↦ elim (Bool-cases (same b.token "")) [
            | inl blank ↦
                rw (new, room, room_too, blank, put_swept)
                  (insert-has_ip (record b { token = fresh }) l)
            | inr named ↦ rw (new, room, room_too, named, put_swept) (insert-has_ip b l)
          ]
        ]
      ]
    ]
  where
    not_stored : {e : TooManyBindings} → (put_swept fresh b l).1 ≡ PutResult.refused e → ⊥
    not_stored h = ground (arith, sym stored ∙ h)

put_binding-has_ip :
    (now : ℕ) (fresh : String) (b : Binding) (l : Location) (r : ℕ)
    → (put_binding now fresh b l).0.1 ≡ PutResult.stored r
    → has_ip b.source.addr (put_binding now fresh b l).0.0 ≡ true
unfolding put_binding flush_removed has_ip
put_binding-has_ip now fresh b l r stored =
    lt→ltb _ _ (put_swept-has_ip fresh b (prune_aor_locked now b.aor l).0 r stored)

-- A client that has registered is not struck by admission: once `Put` has stored a binding, new or
-- refreshed, whatever the table before, then in the table it leaves the address that the binding
-- came from is exempt, on any port and written as IPv4 or as IPv4-mapped IPv6: whatever requests
-- from it are dropped, and whatever malformed reads it sends, the shield stays as it was.
pub put_binding-offend_all :
    (fl : Float) (parse : List ℕ → Option StrikeLimit) (is_source : Addr → Bool)
    (cfg : ShieldConfig) (now : ℕ) (fresh : String) (b : Binding) (l : Location) (r : ℕ) (ip : Addr)
    (os : List (ℕ × Offence)) (st : DropState fl)
    → (put_binding now fresh b l).0.1 ≡ PutResult.stored r
    → unmap ip ≡ unmap b.source.addr
    → (offend_all fl parse is_source cfg ip (put_binding now fresh b l).0.0 os st).shield
      ≡ st.shield
unfolding has_ip
put_binding-offend_all fl parse is_source cfg now fresh b l r ip os st stored same_ip =
    let l' = (put_binding now fresh b l).0.0 in
    let here = put_binding-has_ip now fresh b l r stored in
    let there : has_ip (unmap ip) l' ≡ true =
      ap (λ a. ltb 0 (ip_count a l')) (unmap_idem ip ∙ same_ip) ∙ here in
    offend_all-spares fl parse is_source cfg ip l' os st (exempt (is_source (unmap ip)) there)
  where
    exempt : (c : Bool) {d : Bool} → d ≡ true → (c || d) ≡ true
    exempt c e = ground (arith, e)
