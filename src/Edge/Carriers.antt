-- ===== src/Edge/Carriers.antt =====
-- The carriers' addresses: `carrierSnapshot` of internal/edge/carrierdns.go. A prefix and whether it
-- contains an address (`netip.Prefix`) are parameters, as is `strings.ToLower`.
use freesbc.Base.{
  String, ◌≡◌, refl, sym, ap, ◌∙◌, ◌⊎◌, inl, inr, ite, if_pos, if_neg, Bool, true, false, not, ◌&&◌,
  ◌||◌, Option, none, some, List, [], ◌∷◌, arith, text_discrete, if◌then◌else◌, Bool-cases,
  Option-cases,
}
use mathlib.Core.Option.{some-injective}
use freesbc.Net.{Addr, Addr-discrete, AddrPort, AddrPort-discrete, unmap, without_zone}

-- `names`, `addrs` and `transports` as one list of the entries, by their sorted names.
pub record CarrierEntry : Type 0 where
  pub name : String
  pub transport : String
  pub addrs : List AddrPort

abbrev pub same : String → String → Bool
same s t = ite (text_discrete s t) true false

abbrev pub same_addr : Addr → Addr → Bool
same_addr a b = ite (Addr-discrete a b) true false

abbrev pub same_socket : AddrPort → AddrPort → Bool
same_socket a b = ite (AddrPort-discrete a b) true false

-- `carrierUnknown`.
abbrev pub carrier_unknown : String
carrier_unknown = "unknown"

abbrev pub plain_addr : Addr → Addr
plain_addr ip = without_zone (unmap ip)

abbrev pub has_socket : AddrPort → List AddrPort → Bool
has_socket src [] = false
has_socket src (a ∷ known) = same_socket a src || has_socket src known

abbrev pub has_addr : Addr → List AddrPort → Bool
has_addr ip [] = false
has_addr ip (a ∷ known) = same_addr a.addr ip || has_addr ip known

-- `isAddress`, over the lower-case transport.
unfoldable pub is_address : AddrPort → String → List CarrierEntry → Bool
is_address src network [] = false
is_address src network (c ∷ cs) =
    (same c.transport network && has_socket src c.addrs) || is_address src network cs

-- The loop of `carrierFor` over the entries: the first with this socket, else `by_ip`, the first
-- with this address.
unfoldable pub scan_carriers : AddrPort → String → Option String → List CarrierEntry → Option String
scan_carriers src network by_ip [] = by_ip
scan_carriers src network by_ip (c ∷ cs) =
    let skipped = scan_carriers src network by_ip cs in
    let noted = scan_carriers src network (some c.name) cs in
    if not (same c.transport network)
    then skipped
    else (if has_socket src c.addrs then some c.name else elim by_ip [
      | some n ↦ skipped
      | none ↦ if has_addr src.addr c.addrs then noted else skipped
    ])

module _ {Prefix : Type 0} (contains : Prefix → Addr → Bool) where
  pub record CarrierSnapshot : Type 0 where
    pub entries : List CarrierEntry
    pub nets : List Prefix
    pub extra : List Prefix

  abbrev pub in_any : Addr → List Prefix → Bool
  in_any ip [] = false
  in_any ip (p ∷ ps) = contains p ip || in_any ip ps

  -- `isSource`.
  unfoldable pub is_source : Addr → CarrierSnapshot → Bool
  is_source ip c = in_any (plain_addr ip) c.nets

  -- `carrierFor`.
  unfoldable pub carrier_for : AddrPort → String → CarrierSnapshot → Option String
  carrier_for src network c =
      let src = record src { addr = plain_addr src.addr } in
      elim (scan_carriers src network none c.entries) [
        | some n ↦ some n
        | none ↦ if in_any src.addr c.extra then some carrier_unknown else none
      ]

-- An entry of this name, on this transport, that has the address.
abbrev pub Serves : String → Addr → String → List CarrierEntry → Type 0
Serves n ip network [] = ⊥
Serves n ip network (c ∷ cs) =
    ((c.name ≡ n) × (same c.transport network ≡ true) × (has_addr ip c.addrs ≡ true))
    ⊎ Serves n ip network cs

has_socket-has_addr :
    (src : AddrPort) (known : List AddrPort)
    → has_socket src known ≡ true
    → has_addr src.addr known ≡ true
has_socket-has_addr src [] e = e
has_socket-has_addr src (a ∷ known) e = elim (AddrPort-discrete a src) [
  | yes p ↦
      let q : same_addr a.addr src.addr ≡ true =
        rw (if_pos (Addr-discrete a.addr src.addr) (ap (λ x. x.addr) p)) refl in
      ground (arith, q)
  | no ne ↦
      let rest = rw (if_neg (AddrPort-discrete a src) ne) at e in
      ground (arith, has_socket-has_addr src known rest)
]

scan_carriers-Serves :
    (src : AddrPort) (network : String) (by_ip : Option String) (cs : List CarrierEntry)
    (n : String)
    → scan_carriers src network by_ip cs ≡ some n
    → (by_ip ≡ some n) ⊎ Serves n src.addr network cs
unfolding scan_carriers
scan_carriers-Serves src network by_ip [] n found = inl found
scan_carriers-Serves src network by_ip (c ∷ cs) n found =
    let on : scan_carriers src network by_ip cs ≡ some n
        → (by_ip ≡ some n) ⊎ Serves n src.addr network (c ∷ cs) =
      λ e. elim (scan_carriers-Serves src network by_ip cs n e) [
        | inl x ↦ inl x
        | inr x ↦ inr (inr x)
      ] in
    elim (Bool-cases (same c.transport network)) [
      | inr off ↦ on (rw off at found)
      | inl on_it ↦ elim (Bool-cases (has_socket src c.addrs)) [
        | inl exact ↦
            let e : c.name ≡ n = some-injective c.name n (rw (on_it, exact) at found) in
            inr (inl (e, on_it, has_socket-has_addr src c.addrs exact))
        | inr other ↦ elim (Option-cases by_ip) [
          | inr (m, had) ↦ on (ground (arith, on_it, other, had, found))
          | inl none_yet ↦ elim (Bool-cases (has_addr src.addr c.addrs)) [
            | inr elsewhere ↦ on (ground (arith, on_it, other, none_yet, elsewhere, found))
            | inl here ↦
                let noted : scan_carriers src network (some c.name) cs ≡ some n =
                  ground (arith, on_it, other, none_yet, here, found) in
                elim (scan_carriers-Serves src network (some c.name) cs n noted) [
                  | inl e ↦ inr (inl (some-injective c.name n e, on_it, here))
                  | inr deeper ↦ inr (inr deeper)
                ]
          ]
        ]
      ]
    ]

module _ {Prefix : Type 0} (contains : Prefix → Addr → Bool) where
  -- Where a source is a carrier's, one of the carriers of that name is configured for the transport
  -- the request came over and has its address, or the carrier is unknown and an extra prefix, which
  -- holds for any transport, contains the address. So a carrier's address over another transport is
  -- no carrier, but for the extra prefixes.
  pub carrier_for-Serves :
      (src : AddrPort) (network : String) (c : CarrierSnapshot contains) (n : String)
      → carrier_for contains src network c ≡ some n
      → Serves n (plain_addr src.addr) network c.entries
        ⊎ ((n ≡ carrier_unknown) × (in_any contains (plain_addr src.addr) c.extra ≡ true))
  unfolding carrier_for
  carrier_for-Serves src network c n found =
      let plain = record src { addr = plain_addr src.addr } in
      elim (Option-cases (scan_carriers plain network none c.entries)) [
        | inr (m, hit) ↦
            let same_name : some m ≡ some n = ground (arith, hit, found) in
            let e : m ≡ n = some-injective m n same_name in
            elim (scan_carriers-Serves plain network none c.entries n (hit ∙ ap some e)) [
              | inl no_ip ↦ absurd (ground (arith, no_ip))
              | inr serves ↦ inl serves
            ]
        | inl nobody ↦ elim (Bool-cases (in_any contains (plain_addr src.addr) c.extra)) [
          | inl in_ ↦
              let unnamed : some carrier_unknown ≡ some n = ground (arith, nobody, in_, found) in
              inr (sym (some-injective carrier_unknown n unnamed), in_)
          | inr out ↦ absurd (ground (arith, nobody, out, found))
        ]
      ]
