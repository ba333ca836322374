-- ===== src/Hep/Packet/Sizes.antt =====
-- The sizes of an encoded packet (internal/hep/hep.go).
use freesbc.Base.{
  ℕ, ◌+◌, ◌-◌, ◌*◌, ◌≤◌, ◌≡◌, refl, sym, ap, ◌∙◌, ◌⊎◌, inl, inr, true, not, ◌&&◌, ◌||◌, none, some,
  List, [], ◌∷◌, ◌++◌, arith, ◌==◌, if◌then◌else◌, Bool-cases, Option-cases, false-true, length,
  length-append, take, drop,
}
use mathlib.Core.List.{append_assoc, append-nil}
use freesbc.Net.{Addr, invalid, v4, v6, unmap}
use freesbc.Hep.Packet.{
  Packet, HepError, is_valid, is_4, uint_16, uint_32, addr_bytes, addr_len, append_chunk_header,
  append_chunk, is_empty, packet_size, append_addrs, append_chunks, time_or, refusal, packet_header,
  append_packet, max_packet_size,
}

length-header : (out : List ℕ) (typ n : ℕ) → length (append_chunk_header out typ n) ≡ length out + 6
unfolding append_chunk_header
length-header out typ n = omega (
  arith,
  length-append (out ++ uint_16 0 ++ uint_16 typ) (uint_16 (6 + n)),
  length-append (out ++ uint_16 0) (uint_16 typ),
  length-append out (uint_16 0),
)

-- A chunk of fixed size.
length-fixed :
    (out : List ℕ) (typ n : ℕ) (bytes : List ℕ)
    → length (append_chunk_header out typ n ++ bytes) ≡ length out + 6 + length bytes
length-fixed out typ n bytes =
    omega (arith, length-append (append_chunk_header out typ n) bytes, length-header out typ n)

length-chunk :
    (out : List ℕ) (typ : ℕ) (bytes : List ℕ)
    → length (append_chunk out typ bytes) ≡ length out + 6 + length bytes
unfolding append_chunk
length-chunk out typ bytes = length-fixed out typ (length bytes) bytes

length-addr_bytes : (a : Addr) → is_valid a ≡ true → length (addr_bytes a) ≡ addr_len a
length-addr_bytes invalid e = absurd (false-true e)
length-addr_bytes (v4 a) e = refl
length-addr_bytes (v6 hi lo zone) e = refl

is_valid-unmap : (a : Addr) → is_valid a ≡ true → is_valid (unmap a) ≡ true
unfolding unmap
is_valid-unmap invalid e = e
is_valid-unmap (v4 a) e = refl
is_valid-unmap (v6 hi lo zone) e = ground arith

length-append_addrs :
    (out : List ℕ) (src dst : Addr)
    → length (addr_bytes src) ≡ addr_len src
    → length (addr_bytes dst) ≡ addr_len src
    → length (append_addrs out src dst) ≡ length out + 2 * (6 + addr_len src)
unfolding append_addrs
length-append_addrs out src dst s d = elim (Bool-cases (is_4 src)) [
  | inl t ↦ ground (
    arith,
    t,
    s,
    d,
    length-chunk (append_chunk out 0x03 (addr_bytes src)) 0x04 (addr_bytes dst),
    length-chunk out 0x03 (addr_bytes src),
  )
  | inr t ↦ ground (
    arith,
    t,
    s,
    d,
    length-chunk (append_chunk out 0x05 (addr_bytes src)) 0x06 (addr_bytes dst),
    length-chunk out 0x05 (addr_bytes src),
  )
]

-- An optional chunk.
length-optional :
    (out : List ℕ) (typ : ℕ) (bytes : List ℕ)
    → length (if is_empty bytes then out else append_chunk out typ bytes)
      ≡ length out + (if is_empty bytes then 0 else 6 + length bytes)
length-optional out typ [] = omega arith
length-optional out typ (b ∷ bytes) = omega (arith, length-chunk out typ (b ∷ bytes))

length-append_chunks :
    (out : List ℕ) (p : Packet) (t : ℕ × ℕ) (capture_id : ℕ) (node : List ℕ)
    → length (addr_bytes (unmap p.src.addr)) ≡ addr_len (unmap p.src.addr)
    → length (addr_bytes (unmap p.dst.addr)) ≡ addr_len (unmap p.src.addr)
    → length (append_chunks out p t capture_id node) + 6 ≡ length out + packet_size p node
unfolding append_chunks packet_size
length-append_chunks out p t capture_id node s d =
    let src = unmap p.src.addr in
    let o1 = append_chunk_header out 0x01 1 ++ ((if is_4 src then 2 else 10) ∷ []) in
    let o2 = append_chunk_header o1 0x02 1 ++ (p.proto ∷ []) in
    let o3 = append_addrs o2 src (unmap p.dst.addr) in
    let o4 = append_chunk_header o3 0x07 2 ++ uint_16 p.src.port in
    let o5 = append_chunk_header o4 0x08 2 ++ uint_16 p.dst.port in
    let o6 = append_chunk_header o5 0x09 4 ++ uint_32 t.0 in
    let o7 = append_chunk_header o6 0x0a 4 ++ uint_32 t.1 in
    let o8 = append_chunk_header o7 0x0b 1 ++ (p.payload_type ∷ []) in
    let o9 = append_chunk_header o8 0x0c 4 ++ uint_32 capture_id in
    let oa = append_chunk o9 0x0f p.payload in
    let ob = if is_empty p.correlation_id then oa else append_chunk oa 0x11 p.correlation_id in
    let e1 = length-fixed out 0x01 1 ((if is_4 src then 2 else 10) ∷ []) in
    let e2 = length-fixed o1 0x02 1 (p.proto ∷ []) in
    let e3 = length-append_addrs o2 src (unmap p.dst.addr) s d in
    let e4 = length-fixed o3 0x07 2 (uint_16 p.src.port) in
    let e5 = length-fixed o4 0x08 2 (uint_16 p.dst.port) in
    let e6 = length-fixed o5 0x09 4 (uint_32 t.0) in
    let e7 = length-fixed o6 0x0a 4 (uint_32 t.1) in
    let e8 = length-fixed o7 0x0b 1 (p.payload_type ∷ []) in
    let e9 = length-fixed o8 0x0c 4 (uint_32 capture_id) in
    let ea = length-chunk o9 0x0f p.payload in
    let eb = length-optional oa 0x11 p.correlation_id in
    let ec = length-optional ob 0x13 node in
    omega (arith, e1, e2, e3, e4, e5, e6, e7, e8, e9, ea, eb, ec)

same_len :
    (a b : Addr) → is_4 a && is_4 b || not (is_4 a) && not (is_4 b) ≡ true → addr_len b ≡ addr_len a
same_len a b e = ground (arith, e)

-- What holds of a packet that is not refused.
refusal-none :
    (p : Packet) (node : List ℕ)
    → refusal p node ≡ none
    → (is_valid p.src.addr ≡ true)
      × (is_valid p.dst.addr ≡ true)
      × (is_4 (unmap p.src.addr) && is_4 (unmap p.dst.addr)
            || not (is_4 (unmap p.src.addr)) && not (is_4 (unmap p.dst.addr))
          ≡ true)
      × (packet_size p node ≤ max_packet_size)
unfolding refusal
refusal-none p node fine =
    (ground (arith, fine), ground (arith, fine), ground (arith, fine), ground (arith, fine))

-- The bytes continue those that were there.
abbrev pub Continues : List ℕ → List ℕ → Type 0
Continues out whole = (rest : List ℕ) × (whole ≡ out ++ rest)

continued : (out whole more : List ℕ) → Continues out whole → Continues out (whole ++ more)
continued out whole more (rest, e) =
    (rest ++ more, ap (λ l. l ++ more) e ∙ append_assoc out rest more)

header-Continues :
    (out o : List ℕ) (typ n : ℕ) → Continues out o → Continues out (append_chunk_header o typ n)
unfolding append_chunk_header
header-Continues out o typ n c =
    continued out (o ++ uint_16 0 ++ uint_16 typ) (uint_16 (6 + n))
      (continued out (o ++ uint_16 0) (uint_16 typ) (continued out o (uint_16 0) c))

chunk-Continues :
    (out o : List ℕ) (typ : ℕ) (bytes : List ℕ)
    → Continues out o
    → Continues out (append_chunk o typ bytes)
unfolding append_chunk
chunk-Continues out o typ bytes c =
    continued out (append_chunk_header o typ (length bytes)) bytes
      (header-Continues out o typ (length bytes) c)

fixed-Continues :
    (out o : List ℕ) (typ n : ℕ) (bytes : List ℕ)
    → Continues out o
    → Continues out (append_chunk_header o typ n ++ bytes)
fixed-Continues out o typ n bytes c =
    continued out (append_chunk_header o typ n) bytes (header-Continues out o typ n c)

addrs-Continues :
    (out o : List ℕ) (src dst : Addr) → Continues out o → Continues out (append_addrs o src dst)
unfolding append_addrs
addrs-Continues out o src dst c = elim (Bool-cases (is_4 src)) [
  | inl t ↦
      rw (t, append_addrs)
        (chunk-Continues out (append_chunk o 0x03 (addr_bytes src)) 0x04 (addr_bytes dst)
          (chunk-Continues out o 0x03 (addr_bytes src) c))
  | inr t ↦
      rw (t, append_addrs)
        (chunk-Continues out (append_chunk o 0x05 (addr_bytes src)) 0x06 (addr_bytes dst)
          (chunk-Continues out o 0x05 (addr_bytes src) c))
]

optional-Continues :
    (out o : List ℕ) (typ : ℕ) (bytes : List ℕ)
    → Continues out o
    → Continues out (if is_empty bytes then o else append_chunk o typ bytes)
optional-Continues out o typ [] c = c
optional-Continues out o typ (b ∷ bytes) c = chunk-Continues out o typ (b ∷ bytes) c

chunks-Continues :
    (out : List ℕ) (p : Packet) (t : ℕ × ℕ) (capture_id : ℕ) (node : List ℕ)
    → Continues out (append_chunks out p t capture_id node)
unfolding append_chunks
chunks-Continues out p t capture_id node =
    let f = fixed-Continues out in
    let same : Continues out out = ([], sym (append-nil out)) in
    optional-Continues out _ 0x13 node (
      optional-Continues out _ 0x11 p.correlation_id (
        chunk-Continues out _ 0x0f p.payload (
          f _ 0x0c 4 (uint_32 capture_id) (
            f _ 0x0b 1 (p.payload_type ∷ []) (
              f _ 0x0a 4 (uint_32 t.1) (
                f _ 0x09 4 (uint_32 t.0) (
                  f _ 0x08 2 (uint_16 p.dst.port) (
                    f _ 0x07 2 (uint_16 p.src.port) (
                      addrs-Continues out _ (unmap p.src.addr) (unmap p.dst.addr) (
                        f _ 0x02 1 (p.proto ∷ []) (
                          f _ 0x01 1 ((if is_4 (unmap p.src.addr) then 2 else 10) ∷ [])
                            same)))))))))))

-- What a reader takes for the packet's size: the two bytes after "HEP3".
abbrev big_endian : List ℕ → ℕ
big_endian [] = 0
big_endian (hi ∷ []) = 0
big_endian (hi ∷ lo ∷ l) = hi * 256 + lo

abbrev pub announced : List ℕ → ℕ
announced l = big_endian (drop 4 l)

announced-header :
    (size : ℕ) (rest : List ℕ)
    → size ≤ max_packet_size
    → (take 4 (packet_header size ++ rest) ≡ 72 ∷ 69 ∷ 80 ∷ 51 ∷ [])
      × (announced (packet_header size ++ rest) ≡ size)
announced-header size rest small = (refl, omega (arith, small))

-- The encoder never fails for a wrong size: whatever it is given, it refuses the packet for a reason
-- that it finds before it encodes, and returns its input unchanged, or it returns the input with one
-- packet after it, which begins with "HEP3" and the packet's own length as two bytes, the more
-- significant one first, and is at most 65,507 bytes long.
pub append_packet-sized :
    (out : List ℕ) (p : Packet) (now : ℕ × ℕ) (capture_id : ℕ) (node : List ℕ)
    → ((r : HepError) × (refusal p node ≡ some r)
        × (append_packet out p now capture_id node ≡ (out, some r)))
      ⊎ ((packet : List ℕ) × (append_packet out p now capture_id node ≡ (out ++ packet, none))
          × (take 4 packet ≡ 72 ∷ 69 ∷ 80 ∷ 51 ∷ [])
          × (announced packet ≡ length packet)
          × (length packet ≤ max_packet_size))
unfolding append_packet
append_packet-sized out p now capture_id node = elim (Option-cases (refusal p node)) [
  | inr (r, refused) ↦ inl (r, refused, ground (arith, refused))
  | inl fine ↦
      let (valid_src, valid_dst, family, small) = refusal-none p node fine in
      let size = packet_size p node in
      let s = length-addr_bytes (unmap p.src.addr) (is_valid-unmap p.src.addr valid_src) in
      let d = length-addr_bytes (unmap p.dst.addr) (is_valid-unmap p.dst.addr valid_dst) in
      let begun = out ++ packet_header size in
      let all = append_chunks begun p (time_or now p.time) capture_id node in
      let len =
        length-append_chunks begun p (time_or now p.time) capture_id node s
          (d ∙ same_len (unmap p.src.addr) (unmap p.dst.addr) family) in
      let whole : length all ≡ length out + size =
        omega (arith, len, length-append out (packet_header size)) in
      let right : (length all - length out == size) ≡ true = ground (arith, whole) in
      let (rest, follows) = chunks-Continues begun p (time_or now p.time) capture_id node in
      let packet = packet_header size ++ rest in
      let split : all ≡ out ++ packet = follows ∙ append_assoc out (packet_header size) rest in
      let own : length packet ≡ size =
        omega (arith, whole, ap length split, length-append out packet) in
      let done : append_packet out p now capture_id node ≡ (all, none) =
        ground (arith, fine, right) in
      let (marked, told) = announced-header size rest small in
      inr (
        packet,
        done ∙ ap (λ l. (l, none)) split,
        marked,
        told ∙ sym own,
        omega (arith, own, small),
      )
]
