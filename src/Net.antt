-- ===== src/Net.antt =====
-- Addresses: Go's net/netip as far as the program uses it, and the key that the per-source tables
-- share (internal/shield/ratelimit.go; internal/edge/stream.go repeats it).
use freesbc.Base.{ℕ, ◌/◌, ◌%◌, ◌^◌, String, ◌&&◌, ℕ_discrete, text_discrete, ◌==◌, if◌then◌else◌}

-- `netip.Addr`: the zero value, an IPv4 address as its 32 bits, an IPv6 address as its two 64-bit
-- halves with a zone.
pub data Addr : Type 0 where
  invalid : Addr
  v4 : ℕ → Addr
  v6 : ℕ → ℕ → String → Addr

pub Addr-discrete : Discrete Addr
Addr-discrete = hlevel (ℕ_discrete, text_discrete)

pub record AddrPort : Type 0 where
  pub addr : Addr
  pub port : ℕ

pub AddrPort-discrete : Discrete AddrPort
AddrPort-discrete = hlevel (ℕ_discrete, Addr-discrete)

-- `Addr.Unmap`: an IPv4-mapped IPv6 address, ::ffff:a.b.c.d, becomes the IPv4 address.
unfoldable pub unmap : Addr → Addr
unmap invalid = invalid
unmap (v4 a) = v4 a
unmap (v6 hi lo zone) = if hi == 0 && lo / 2 ^ 32 == 0xffff then v4 (lo % 2 ^ 32) else v6 hi lo zone

-- The key of an unmapped address: an IPv6 address by its /64, with no zone.
unfoldable pub mask_64 : Addr → Addr
mask_64 invalid = invalid
mask_64 (v4 a) = v4 a
mask_64 (v6 hi lo zone) = v6 hi 0 ""

-- `bucketKey` of the shield.
unfoldable pub bucket_key : Addr → Addr
unfolding unmap mask_64
bucket_key src = mask_64 (unmap src)

-- `streamKey` of the edge.
unfoldable pub stream_key : Addr → Addr
unfolding unmap mask_64
stream_key ip = mask_64 (unmap ip)

-- `Addr.WithZone("")`.
unfoldable pub without_zone : Addr → Addr
without_zone invalid = invalid
without_zone (v4 a) = v4 a
without_zone (v6 hi lo zone) = v6 hi lo ""
