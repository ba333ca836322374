-- ===== src/Hep/Packet.antt =====
-- One HEPv3 packet: internal/hep/hep.go. Bytes are natural numbers. `time` is the packet's time in
-- seconds and microseconds, where it is set.
pub mod Sizes
use freesbc.Base.{
  ℕ, zero, suc, ◌+◌, ◌-◌, ◌*◌, ◌/◌, ◌%◌, ◌^◌, ◌≤◌, ◌<◌, min, max, String, ◌≡◌, refl, sym, ap, ◌∙◌,
  ◌≢◌, ◌↔◌, ◌⊎◌, inl, inr, ite, if_pos, if_neg, Bool, true, false, not, ◌&&◌, ◌||◌, Option, none,
  some, List, [], ◌∷◌, ◌++◌, map, arith, ℕ_discrete, text_discrete, ltb, leb, ◌==◌, if◌then◌else◌,
  ltb→lt, lt→ltb, ltb_false→le, leb→le, leb_false→lt, le→leb, Bool-cases, Option-cases, false-true,
  length, drop_back, take, drop, keep, All, length-append, length-drop_back, length-drop_back-le,
  length-keep-le, length-take-le,
}
use freesbc.Base.Assoc.{
  find, remove, put, NoDup, find-remove, find-put, find-remove_self, find-remove_ne, find-put_self,
  find-put_ne, length-remove-le, length-remove_known, length-put_known, length-put_new,
  NoDup-remove, NoDup-put, passing, find-keep-none, find-keep, NoDup-keep, find-drop_back,
  find-drop_back-none, NoDup-drop_back, NoDup-touch, find-front_self, find-front_ne,
}
use freesbc.Base.Lru.{
  evict, length-evict, IsLru, IsLru-touch, IsLru-push, find-push_ne, find-touch_ne,
}
use freesbc.Net.{Addr, invalid, v4, v6, AddrPort, unmap}

-- `MaxPacketSize`.
abbrev pub max_packet_size : ℕ
max_packet_size = 65507

abbrev pub header_len : ℕ
header_len = 6

abbrev pub chunk_header_len : ℕ
chunk_header_len = 6

pub record Packet : Type 0 where
  pub src : AddrPort
  pub dst : AddrPort
  pub proto : ℕ
  pub time : Option (ℕ × ℕ)
  pub payload_type : ℕ
  pub correlation_id : List ℕ
  pub payload : List ℕ

pub data HepError : Type 0 where
  err_too_large : HepError
  err_family_mismatch : HepError
  err_bad_addr : HepError
  err_bad_type : HepError
  err_size_mismatch : HepError

-- `IsValid`, and `Is4` of an unmapped address.
abbrev pub is_valid : Addr → Bool
is_valid invalid = false
is_valid (v4 a) = true
is_valid (v6 hi lo zone) = true

abbrev pub is_4 : Addr → Bool
is_4 invalid = false
is_4 (v4 a) = true
is_4 (v6 hi lo zone) = false

-- `binary.BigEndian.AppendUint16` and `AppendUint32`, of a number that they reduce to their width.
abbrev pub uint_16 : ℕ → List ℕ
uint_16 n = (n / 2 ^ 8 % 2 ^ 8) ∷ (n % 2 ^ 8) ∷ []

abbrev pub uint_32 : ℕ → List ℕ
uint_32 n = uint_16 (n / 2 ^ 16) ++ uint_16 n

abbrev pub uint_64 : ℕ → List ℕ
uint_64 n = uint_32 (n / 2 ^ 32) ++ uint_32 n

-- The bytes of an address: `As4` and `As16`.
abbrev pub addr_bytes : Addr → List ℕ
addr_bytes invalid = []
addr_bytes (v4 a) = uint_32 a
addr_bytes (v6 hi lo zone) = uint_64 hi ++ uint_64 lo

-- `appendChunkHeader` and `appendChunk`.
unfoldable pub append_chunk_header : List ℕ → ℕ → ℕ → List ℕ
append_chunk_header out typ n = out ++ uint_16 0 ++ uint_16 typ ++ uint_16 (chunk_header_len + n)

unfoldable pub append_chunk : List ℕ → ℕ → List ℕ → List ℕ
append_chunk out typ bytes = append_chunk_header out typ (length bytes) ++ bytes

abbrev pub is_empty : List ℕ → Bool
is_empty [] = true
is_empty (x ∷ xs) = false

abbrev pub addr_len : Addr → ℕ
addr_len a = if is_4 a then 4 else 16

-- The size that the encoder announces.
unfoldable pub packet_size : Packet → List ℕ → ℕ
packet_size p node =
    let size =
      header_len
      + (chunk_header_len + 1)
      + (chunk_header_len + 1)
      + 2 * (chunk_header_len + addr_len (unmap p.src.addr))
      + 2 * (chunk_header_len + 2)
      + 2 * (chunk_header_len + 4)
      + (chunk_header_len + 1)
      + (chunk_header_len + 4)
      + chunk_header_len
      + length p.payload in
    let size =
      size
      + (if is_empty p.correlation_id then 0 else chunk_header_len + length p.correlation_id) in
    size + (if is_empty node then 0 else chunk_header_len + length node)

-- The two address chunks; `p.Src` and `p.Dst` are of one family here.
unfoldable pub append_addrs : List ℕ → Addr → Addr → List ℕ
append_addrs out src dst =
    if is_4 src
    then append_chunk (append_chunk out 0x03 (addr_bytes src)) 0x04 (addr_bytes dst)
    else append_chunk (append_chunk out 0x05 (addr_bytes src)) 0x06 (addr_bytes dst)

-- The chunks, in their order.
unfoldable pub append_chunks : List ℕ → Packet → ℕ × ℕ → ℕ → List ℕ → List ℕ
append_chunks out p t capture_id node =
    let src = unmap p.src.addr in
    let out = append_chunk_header out 0x01 1 ++ ((if is_4 src then 2 else 10) ∷ []) in
    let out = append_chunk_header out 0x02 1 ++ (p.proto ∷ []) in
    let out = append_addrs out src (unmap p.dst.addr) in
    let out = append_chunk_header out 0x07 2 ++ uint_16 p.src.port in
    let out = append_chunk_header out 0x08 2 ++ uint_16 p.dst.port in
    let out = append_chunk_header out 0x09 4 ++ uint_32 t.0 in
    let out = append_chunk_header out 0x0a 4 ++ uint_32 t.1 in
    let out = append_chunk_header out 0x0b 1 ++ (p.payload_type ∷ []) in
    let out = append_chunk_header out 0x0c 4 ++ uint_32 capture_id in
    let out = append_chunk out 0x0f p.payload in
    let out = if is_empty p.correlation_id then out else append_chunk out 0x11 p.correlation_id in
    if is_empty node then out else append_chunk out 0x13 node

-- The time of a packet, or now.
abbrev pub time_or : ℕ × ℕ → Option (ℕ × ℕ) → ℕ × ℕ
time_or now none = now
time_or now (some t) = t

-- Why `AppendPacket` refuses a packet before it encodes it.
unfoldable pub refusal : Packet → List ℕ → Option HepError
refusal p node =
    let src = unmap p.src.addr in
    let dst = unmap p.dst.addr in
    if not (is_valid p.src.addr) || not (is_valid p.dst.addr)
    then some err_bad_addr
    else if p.payload_type == 0
    then some err_bad_type
    else if not (is_4 src && is_4 dst || not (is_4 src) && not (is_4 dst))
    then some err_family_mismatch
    else if ltb max_packet_size (packet_size p node)
        || ltb 0xffff (chunk_header_len + length p.payload)
        || ltb 0xffff (chunk_header_len + length p.correlation_id)
        || ltb 0xffff (chunk_header_len + length node)
    then some err_too_large
    else none

-- "HEP3" and the announced size.
abbrev pub packet_header : ℕ → List ℕ
packet_header size = 72 ∷ 69 ∷ 80 ∷ 51 ∷ uint_16 size

-- `AppendPacket`: what it returns, with its error.
unfoldable pub append_packet : List ℕ → Packet → ℕ × ℕ → ℕ → List ℕ → List ℕ × Option HepError
append_packet out p now capture_id node =
    let size = packet_size p node in
    let whole = append_chunks (out ++ packet_header size) p (time_or now p.time) capture_id node in
    elim (refusal p node) [
      | some e ↦ (out, some e)
      | none ↦
          if length whole - length out == size then (whole, none) else (out, some err_size_mismatch)
    ]
