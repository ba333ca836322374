-- ===== src/Shield/Gate/Outcome.antt =====
-- What the gate lets through (internal/shield/shield.go).
use freesbc.Base.{
  ℕ, ◌≡◌, refl, ap, ◌∙◌, ◌↔◌, Bool, true, false, not, ◌&&◌, ◌||◌, Option, List, arith, ◌==◌,
}
use freesbc.Base.Assoc.{NoDup}
use freesbc.Net.{Addr, AddrPort, Addr-discrete, AddrPort-discrete, unmap}
use freesbc.Shield.BanList
use freesbc.Shield.BanList.{BanList}
use freesbc.Shield.BanList.Verdict.{banned_invisible}
use freesbc.Shield.Limiter.{Float}
use freesbc.Shield.Scanner.{is_scanner}
use freesbc.Shield.Gate.{
  Shield, ShieldConfig, RateLimit, allow, is_udp, unmap_port, banned_from, banned_on_udp,
  allow_rate, scanner_datagram, scanner_connection, check_scanner, check_from,
}

-- No key stands twice in any of the three ban tables.
pub record IsKeyed (fl : Float) (s : Shield fl) : Type 0 where
  pub ips : NoDup Addr-discrete s.bans.until
  pub sockets : NoDup AddrPort-discrete s.socket_bans.until
  pub udp_ips : NoDup Addr-discrete s.udp_bans.until

pub unmap_idem : (a : Addr) → unmap (unmap a) ≡ unmap a
unfolding unmap
unmap_idem Addr.invalid = refl
unmap_idem (Addr.v4 a) = refl
unmap_idem (Addr.v6 hi lo zone) = ground arith

module _ (fl : Float) where
  -- The three look-ups behind a verdict.
  abbrev ip_hit : Addr → ℕ → Shield fl → Bool
  ip_hit a now s = (BanList.banned Addr-discrete a now s.bans).1

  abbrev udp_hit : Addr → ℕ → Shield fl → Bool
  udp_hit a now s = (BanList.banned Addr-discrete a now s.udp_bans).1

  abbrev socket_hit : AddrPort → ℕ → Shield fl → Bool
  socket_hit src now s = (BanList.banned AddrPort-discrete src now s.socket_bans).1

  -- A source is banned if its address is, or on UDP if its address is banned there or its exact
  -- socket is; a port of 0 names no socket.
  pub banned_from_lem :
      (src : AddrPort) (tr : List ℕ) (now : ℕ) (s : Shield fl)
      → (banned_from fl src tr now s).1 ≡ (
          ip_hit (unmap src.addr) now s
          || (is_udp tr
              && (udp_hit (unmap src.addr) now s
                  || (not (src.port == 0) && socket_hit (unmap_port src) now s))))
  unfolding banned_from banned_on_udp
  banned_from_lem src tr now s = ground arith

  -- The tables after a verdict answer as before.
  after_verdict :
      (src : AddrPort) (tr : List ℕ) (now : ℕ) (s : Shield fl)
      → IsKeyed fl s
      → let s' = (banned_from fl src tr now s).0 in
        (ip_hit (unmap src.addr) now s' ≡ ip_hit (unmap src.addr) now s)
        × (udp_hit (unmap src.addr) now s' ≡ udp_hit (unmap src.addr) now s)
        × (socket_hit (unmap_port src) now s' ≡ socket_hit (unmap_port src) now s)
  unfolding banned_from banned_on_udp
  after_verdict src tr now s h =
      let ips =
        banned_invisible Addr-discrete (unmap src.addr) (unmap src.addr) now now s.bans h.ips
          (omega arith) in
      let udps =
        banned_invisible Addr-discrete (unmap src.addr) (unmap src.addr) now now s.udp_bans
          h.udp_ips (omega arith) in
      let socks =
        banned_invisible AddrPort-discrete (unmap_port src) (unmap_port src) now now s.socket_bans
          h.sockets (omega arith) in
      (ground (arith, ips.0), ground (arith, udps.0), ground (arith, socks.0))

  module _ (parse : List ℕ → Option RateLimit) (is_carrier : Addr → Bool)
      (vouched : List ℕ → AddrPort → Bool) where
    allow_rate_tables :
        (src : AddrPort) (tr : List ℕ) (cfg : ShieldConfig) (now : ℕ) (s : Shield fl)
        → let s' = (allow_rate fl parse is_carrier vouched src tr cfg now s).0 in
          (s'.bans ≡ s.bans) × (s'.udp_bans ≡ s.udp_bans) × (s'.socket_bans ≡ s.socket_bans)
    unfolding allow_rate
    allow_rate_tables src tr cfg now s = (ground arith, ground arith, ground arith)

    -- The second look at the bans, with no new ban between, agrees with the first.
    verdict_again :
        (src : AddrPort) (tr : List ℕ) (cfg : ShieldConfig) (now : ℕ) (s : Shield fl)
        → IsKeyed fl s
        → let s' = (banned_from fl src tr now s).0 in
          let s'' = (allow_rate fl parse is_carrier vouched (unmap_port src) tr cfg now s').0 in
          (banned_from fl (unmap_port src) tr now s'').1 ≡ (banned_from fl src tr now s).1
    verdict_again src tr cfg now s h =
        let s' = (banned_from fl src tr now s).0 in
        let s'' = (allow_rate fl parse is_carrier vouched (unmap_port src) tr cfg now s').0 in
        let (b, u, k) = allow_rate_tables (unmap_port src) tr cfg now s' in
        let (b', u', k') = after_verdict src tr now s h in
        let i : unmap (unmap src.addr) ≡ unmap src.addr = unmap_idem src.addr in
        let i' : unmap_port (unmap_port src) ≡ unmap_port src =
          ap (λ (a : Addr). record src { addr = a }) i in
        let p : ip_hit (unmap src.addr) now s'' ≡ ip_hit (unmap src.addr) now s =
          ap (λ t. (BanList.banned Addr-discrete (unmap src.addr) now t).1) b ∙ b' in
        let q : udp_hit (unmap src.addr) now s'' ≡ udp_hit (unmap src.addr) now s =
          ap (λ t. (BanList.banned Addr-discrete (unmap src.addr) now t).1) u ∙ u' in
        let r : socket_hit (unmap_port src) now s'' ≡ socket_hit (unmap_port src) now s =
          ap (λ t. (BanList.banned AddrPort-discrete (unmap_port src) now t).1) k ∙ k' in
        cc (
          banned_from_lem (unmap_port src) tr now s'',
          banned_from_lem src tr now s,
          ap (λ a. socket_hit a now s'') i',
          p,
          q,
          r,
        )

    -- What the gate answers: it lets a message through exactly when its source is not banned on its
    -- transport, a rate token is there for it, and it is no scanner's, or comes from a carrier. The
    -- ban tables hold no key twice.
    pub check_from-allow_iff :
        (src : AddrPort) (ua tr : List ℕ) (cfg : ShieldConfig) (now : ℕ) (s : Shield fl)
        → IsKeyed fl s
        → ((check_from fl parse is_carrier vouched src ua tr cfg now s).1 ≡ allow) ↔ (
            ((banned_from fl src tr now s).1 ≡ false)
            × ((allow_rate fl parse is_carrier vouched
                  (unmap_port src)
                  tr
                  cfg
                  now
                  (banned_from fl src tr now s).0).1
                ≡ true)
            × ((not (is_carrier (unmap src.addr)) && is_scanner ua) ≡ false))
    unfolding check_from check_scanner scanner_connection scanner_datagram
    check_from-allow_iff src ua tr cfg now s h =
        let again = verdict_again src tr cfg now s h in
        let i = ap is_carrier (unmap_idem src.addr) in
        (λ e. (ground arith, ground arith, ground (arith, i)), λ e. ground (arith, again, i))
