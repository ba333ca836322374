-- ===== src/Shield/Strikes/Datagrams.antt =====
-- What forged datagrams do to the verdicts on connections (internal/shield/shield.go, offenders.go).
use freesbc.Base.{
  ℕ, ◌≤◌, String, ◌≡◌, ◌≢◌, refl, sym, ◌∙◌, inl, inr, Bool, true, false, Option, List, [], ◌∷◌,
  arith, Bool-cases, All,
}
use freesbc.Base.Assoc.{NoDup}
use freesbc.Base.Text.{codes, to_lower, text_eq, text_eq→≡}
use freesbc.Net.{Addr, AddrPort, Addr-discrete, unmap, bucket_key}
use freesbc.Shield.BanList
use freesbc.Shield.BanList.{BanList}
use freesbc.Shield.BanList.Verdict.{banned_invisible, banned-NoDup, ban-elsewhere}
use freesbc.Shield.Limiter.{Float}
use mathlib.Core.Path.{subst}
use freesbc.Shield.Offenders
use freesbc.Shield.Offenders.{StrikeLimit, OffenderKey}
use freesbc.Shield.Gate.{
  Shield, ShieldConfig, RateLimit, bannable_transport, is_udp, unmap_port, banned_from,
  banned_on_udp, allow_rate, scanner_datagram, check_scanner, check_from,
}
use freesbc.Shield.Strikes.{
  strike, strike_on, strike_ip, strike_limit, strike_counted, strike_ban, scoped, part_of,
  budget_of, counts_nothing,
}

bannable-not-udp : (tr : List ℕ) → bannable_transport tr ≡ true → is_udp tr ≡ false
unfolding bannable_transport is_udp text_eq
bannable-not-udp tr h = ground (
  arith,
  text_eq→≡ (to_lower tr) (codes "tcp"),
  text_eq→≡ (to_lower tr) (codes "tls"),
  text_eq→≡ (to_lower tr) (codes "ws"),
  text_eq→≡ (to_lower tr) (codes "wss"),
  text_eq→≡ (to_lower tr) (codes "udp"),
)

-- No caller can tell the two tables apart by the verdicts on `j` at `now` or later.
record Unseen (j : Addr) (now : ℕ) (b c : BanList Addr) : Type 0 where
  same :
      (t : ℕ)
      → now ≤ t
      → (BanList.banned Addr-discrete j t c).1 ≡ (BanList.banned Addr-discrete j t b).1
  distinct : NoDup Addr-discrete c.until

Unseen-refl :
    (j : Addr) (now : ℕ) (b : BanList Addr) → NoDup Addr-discrete b.until → Unseen j now b b
Unseen-refl j now b d = record { same = λ t h. refl; distinct = d }

Unseen-banned :
    (j : Addr) (now : ℕ) (b c : BanList Addr) (key : Addr)
    → Unseen j now b c
    → Unseen j now b (BanList.banned Addr-discrete key now c).0
Unseen-banned j now b c key u = record {
  same = λ t h. (banned_invisible Addr-discrete j key now t c u.distinct h).0 ∙ u.same t h;
  distinct = banned-NoDup Addr-discrete key now c u.distinct;
}

module _ (fl : Float) (parse : List ℕ → Option RateLimit)
    (parse_strike : List ℕ → Option StrikeLimit) (is_carrier : Addr → Bool)
    (vouched : List ℕ → AddrPort → Bool) where
  banned_from-bans :
      (src : AddrPort) (tr : List ℕ) (now : ℕ) (s : Shield fl)
      → (banned_from fl src tr now s).0.bans
        ≡ (BanList.banned Addr-discrete (unmap src.addr) now s.bans).0
  unfolding banned_from banned_on_udp
  banned_from-bans src tr now s = ground arith

  -- On a connection the verdict is that of the table of addresses.
  banned_from-stream :
      (src : AddrPort) (tr : List ℕ) (now : ℕ) (s : Shield fl)
      → bannable_transport tr ≡ true
      → (banned_from fl src tr now s).1
        ≡ (BanList.banned Addr-discrete (unmap src.addr) now s.bans).1
  unfolding banned_from
  banned_from-stream src tr now s h = ground (arith, bannable-not-udp tr h)

  allow_rate-bans :
      (src : AddrPort) (tr : List ℕ) (cfg : ShieldConfig) (now : ℕ) (s : Shield fl)
      → (allow_rate fl parse is_carrier vouched src tr cfg now s).0.bans ≡ s.bans
  unfolding allow_rate
  allow_rate-bans src tr cfg now s = ground arith

  check_scanner-bans :
      (src : AddrPort) (ua tr : List ℕ) (cfg : ShieldConfig) (now : ℕ) (s : Shield fl)
      → bannable_transport tr ≡ false
      → (check_scanner fl parse is_carrier vouched src ua tr cfg now s).0.bans
        ≡ (banned_from fl src tr now s).0.bans
  unfolding check_scanner scanner_datagram
  check_scanner-bans src ua tr cfg now s h = ground arith

  check_from-Unseen :
      (j : Addr) (src : AddrPort) (ua tr : List ℕ) (cfg : ShieldConfig) (now : ℕ) (s : Shield fl)
      → bannable_transport tr ≡ false
      → NoDup Addr-discrete s.bans.until
      → Unseen j now s.bans (check_from fl parse is_carrier vouched src ua tr cfg now s).0.bans
  unfolding check_from
  check_from-Unseen j src ua tr cfg now s h d =
      let asked = Unseen-banned j now s.bans s.bans (unmap src.addr) (Unseen-refl j now s.bans d) in
      let (s', hit) = banned_from fl src tr now s in
      let (s'', ok) = allow_rate fl parse is_carrier vouched (unmap_port src) tr cfg now s' in
      let first : Unseen j now s.bans s'.bans = rw (banned_from-bans src tr now s) asked in
      let rated : Unseen j now s.bans s''.bans =
        rw (allow_rate-bans (unmap_port src) tr cfg now s') first in
      elim (Bool-cases hit) [
        | inl banned ↦ rw banned first
        | inr clean ↦ elim (Bool-cases ok) [
          | inr refused ↦ rw (clean, refused) rated
          | inl admitted ↦
              rw
                (
                  clean,
                  admitted,
                  check_scanner-bans (unmap_port src) ua tr cfg now s'' h,
                  banned_from-bans (unmap_port src) tr now s'',
                )
                (Unseen-banned j now s.bans s''.bans (unmap (unmap src.addr)) rated)
        ]
      ]

  strike_on-bans :
      (src : Addr) (reason : String) (tr : List ℕ) (cfg : ShieldConfig) (now : ℕ) (s : Shield fl)
      → bannable_transport tr ≡ false
      → (strike_on fl parse_strike is_carrier src reason tr cfg now s).0.bans ≡ s.bans
  unfolding strike_on strike strike_counted strike_ban strike_limit
  strike_on-bans src reason tr cfg now s h = ground (arith, h)

  strike_limit-bans :
      (cfg : ShieldConfig) (reason : String) (s : Shield fl)
      → (strike_limit fl parse_strike cfg reason s).0.bans ≡ s.bans
  unfolding strike_limit
  strike_limit-bans cfg reason s = ground arith

  strike_counted-elsewhere :
      (j src : Addr) (reason : String) (lim : StrikeLimit) (cfg : ShieldConfig) (now : ℕ)
      (s : Shield fl)
      → j ≢ src
      → NoDup Addr-discrete s.bans.until
      → Unseen j now s.bans
          (strike_counted fl parse_strike is_carrier false src reason lim cfg now s).0.bans
  unfolding strike_counted strike_ban
  strike_counted-elsewhere j src reason lim cfg now s ne d =
      let key : OffenderKey = record {
        src = bucket_key src;
        reason = scoped false (budget_of reason);
      } in
      let (o, told) = Offenders.strike key (part_of false reason) lim now s.offenders in
      let other = λ (t : ℕ) (h : now ≤ t).
        ban-elsewhere Addr-discrete j src cfg.ban reason now t s.bans d ne h in
      elim (Bool-cases told.over) [
        | inr under ↦ rw under (Unseen-refl j now s.bans d)
        | inl over ↦
            rw over (record { same = λ t h. (other t h).0; distinct = (other now (omega arith)).1 })
      ]

  -- A strike bans no one but the address it is for.
  strike_ip-elsewhere :
      (j src : Addr) (reason : String) (cfg : ShieldConfig) (now : ℕ) (s : Shield fl)
      → j ≢ unmap src
      → NoDup Addr-discrete s.bans.until
      → Unseen j now s.bans (strike_ip fl parse_strike is_carrier src reason cfg now s).0.bans
  unfolding strike_ip strike
  strike_ip-elsewhere j src reason cfg now s ne d =
      let same : Unseen j now s.bans s.bans = Unseen-refl j now s.bans d in
      let (s', lim) = strike_limit fl parse_strike cfg reason s in
      let kept : s'.bans ≡ s.bans = strike_limit-bans cfg reason s in
      elim (Bool-cases (is_carrier (unmap src))) [
        | inl carrier ↦ rw carrier same
        | inr other ↦ elim (Bool-cases (counts_nothing lim)) [
          | inl off ↦ rw (other, off) (subst (Unseen j now s.bans) (sym kept) same)
          | inr on ↦
              let d' = subst (λ b. NoDup Addr-discrete b.until) (sym kept) d in
              let u = strike_counted-elsewhere j (unmap src) reason lim cfg now s' ne d' in
              rw (other, on)
                (subst
                  (λ b.
                    Unseen j now b
                      (strike_counted fl parse_strike is_carrier false (unmap src) reason lim cfg
                        now s').0.bans)
                  kept u)
        ]
      ]

  -- What a datagram makes the edge do: the gate checks it (`CheckFrom`), a strike is counted for it by
  -- `StrikeOn`, or, for a failed REGISTER, by `Strike`.
  pub data Datagram : Type 0 where
    gate : AddrPort → List ℕ → List ℕ → ShieldConfig → ℕ → Datagram
    struck : Addr → String → List ℕ → ShieldConfig → ℕ → Datagram
    struck_everywhere : Addr → String → ShieldConfig → ℕ → Datagram

  -- It came over a transport that is not connection-oriented, at `t` or before; and a strike that
  -- bans on every transport is for another address than `j`.
  abbrev pub ByDatagram : Addr → ℕ → Datagram → Type 0
  ByDatagram j t (gate src ua tr cfg now) = (bannable_transport tr ≡ false) × (now ≤ t)
  ByDatagram j t (struck src reason tr cfg now) = (bannable_transport tr ≡ false) × (now ≤ t)
  ByDatagram j t (struck_everywhere src reason cfg now) = (j ≢ unmap src) × (now ≤ t)

  pub after : Datagram → Shield fl → Shield fl
  after (gate src ua tr cfg now) s = (check_from fl parse is_carrier vouched src ua tr cfg now s).0
  after (struck src reason tr cfg now) s =
      (strike_on fl parse_strike is_carrier src reason tr cfg now s).0
  after (struck_everywhere src reason cfg now) s =
      (strike_ip fl parse_strike is_carrier src reason cfg now s).0

  pub run : List Datagram → Shield fl → Shield fl
  run [] s = s
  run (e ∷ es) s = run es (after e s)

  after-Unseen :
      (j : Addr) (t : ℕ) (e : Datagram) (s : Shield fl)
      → ByDatagram j t e
      → NoDup Addr-discrete s.bans.until
      → Unseen j t s.bans (after e s).bans
  unfolding after
  after-Unseen j t (gate src ua tr cfg now) s h d =
      let u = check_from-Unseen j src ua tr cfg now s h.0 d in
      record { same = λ t' le. u.same t' (omega arith); distinct = u.distinct }
  after-Unseen j t (struck src reason tr cfg now) s h d =
      rw (strike_on-bans src reason tr cfg now s h.0) (Unseen-refl j t s.bans d)
  after-Unseen j t (struck_everywhere src reason cfg now) s h d =
      let u = strike_ip-elsewhere j src reason cfg now s h.0 d in
      record { same = λ t' le. u.same t' (omega arith); distinct = u.distinct }

  run-Unseen :
      (j : Addr) (t : ℕ) (es : List Datagram) (s : Shield fl)
      → All (ByDatagram j t) es
      → NoDup Addr-discrete s.bans.until
      → Unseen j t s.bans (run es s).bans
  unfolding run
  run-Unseen j t [] s h d = Unseen-refl j t s.bans d
  run-Unseen j t (e ∷ es) s h d =
      let u = after-Unseen j t e s h.0 d in
      let v = run-Unseen j t es (after e s) h.1 u.distinct in
      record { same = λ t' le. v.same t' le ∙ u.same t' le; distinct = v.distinct }

  -- Datagrams with another source cannot get an address banned on a connection: after any number of
  -- checks by `CheckFrom` and strikes by `StrikeOn` for messages that came by datagram, from
  -- whatever source, that one included, and of strikes by `Strike`, which ban on every transport, as
  -- for a failed REGISTER, for other addresses, all up to an instant, the source is banned on tcp, tls, ws
  -- and wss at that instant exactly if it was before. The table of banned addresses holds none twice
  -- to begin with.
  pub run-spares :
      (t : ℕ) (es : List Datagram) (s : Shield fl) (src : AddrPort) (tr : List ℕ)
      → All (ByDatagram (unmap src.addr) t) es
      → NoDup Addr-discrete s.bans.until
      → bannable_transport tr ≡ true
      → (banned_from fl src tr t (run es s)).1 ≡ (banned_from fl src tr t s).1
  run-spares t es s src tr h d stream =
      banned_from-stream src tr t (run es s) stream
      ∙ (run-Unseen (unmap src.addr) t es s h d).same t (omega arith)
      ∙ sym (banned_from-stream src tr t s stream)
