-- ===== src/Shield/Strikes/Effect.antt =====
-- What a strike past the threshold does (internal/shield/offenders.go).
use freesbc.Base.{
  ℕ, ◌+◌, ◌<◌, String, ◌≡◌, inl, inr, Bool, true, false, not, ◌||◌, Option, List, arith, Bool-cases,
  false-true,
}
use freesbc.Net.{Addr, AddrPort, Addr-discrete, unmap, bucket_key}
use freesbc.Shield.BanList.Verdict.{ban-banned}
use freesbc.Shield.Limiter.{Float}
use freesbc.Shield.Offenders
use freesbc.Shield.Offenders.{StrikeLimit, Report, OffenderKey}
use freesbc.Shield.Gate.{Shield, ShieldConfig, is_udp, banned_from}
use freesbc.Shield.Gate.Outcome.{banned_from_lem, unmap_idem}
use freesbc.Shield.Strikes.{
  strike, strike_limit, strike_counted, strike_ban, counts_nothing, scoped, part_of, budget_of,
}

-- A strike of the scope silences this transport: every one, or UDP only.
abbrev pub silences : Bool → List ℕ → Bool
silences udp tr = not udp || is_udp tr

module _ (fl : Float) (parse : List ℕ → Option StrikeLimit) (is_carrier : Addr → Bool) where
  strike_ban-bans :
      (udp : Bool) (src : Addr) (reason : String) (dur now t port : ℕ) (tr : List ℕ) (s : Shield fl)
      → unmap src ≡ src
      → (strike_ban fl udp src reason dur now s).1 ≡ true
      → t < now + dur
      → silences udp tr ≡ true
      → (banned_from fl
          (record { addr = src; port = port })
          tr
          t
          (strike_ban fl udp src reason dur now s).0).1
        ≡ true
  unfolding strike_ban
  strike_ban-bans true src reason dur now t port tr s same ok before silent =
      let at : AddrPort = record { addr = src; port = port } in
      ground (
        arith,
        same,
        banned_from_lem fl at tr t (strike_ban fl true src reason dur now s).0,
        ban-banned Addr-discrete src dur reason now t s.udp_bans ok before,
      )
  strike_ban-bans false src reason dur now t port tr s same ok before silent =
      let at : AddrPort = record { addr = src; port = port } in
      ground (
        arith,
        same,
        banned_from_lem fl at tr t (strike_ban fl false src reason dur now s).0,
        ban-banned Addr-discrete src dur reason now t s.bans ok before,
      )

  strike_counted-bans :
      (udp : Bool) (src : Addr) (reason : String) (lim : StrikeLimit) (cfg : ShieldConfig)
      (now t port : ℕ) (tr : List ℕ) (s : Shield fl)
      → unmap src ≡ src
      → (strike_counted fl parse is_carrier udp src reason lim cfg now s).1 ≡ true
      → t < now + cfg.ban
      → silences udp tr ≡ true
      → (banned_from fl
          (record { addr = src; port = port })
          tr
          t
          (strike_counted fl parse is_carrier udp src reason lim cfg now s).0).1
        ≡ true
  unfolding strike_counted
  strike_counted-bans udp src reason lim cfg now t port tr s same ok before silent =
      let key : OffenderKey = record {
        src = bucket_key src;
        reason = scoped udp (budget_of reason);
      } in
      let (o, report) = Offenders.strike key (part_of udp reason) lim now s.offenders in
      let counted : Shield fl = record s { offenders = o } in
      elim (Bool-cases report.over) [
        | inl over ↦ rw over (
            strike_ban-bans udp src reason cfg.ban now t port tr counted same (rw over at ok) before
              silent)
        | inr under ↦ absurd (false-true (rw under at ok))
      ]

  -- A strike that reports a ban has banned the source for its whole duration: at every instant before
  -- now + ban, from any port, on every transport if the strike came over a connection, and on UDP if
  -- it came by datagram. No carrier's strike reports one.
  pub strike-bans :
      (udp : Bool) (src : Addr) (reason : String) (cfg : ShieldConfig) (now t port : ℕ)
      (tr : List ℕ) (s : Shield fl)
      → (strike fl parse is_carrier udp src reason cfg now s).1 ≡ true
      → t < now + cfg.ban
      → silences udp tr ≡ true
      → ((banned_from fl
            (record { addr = unmap src; port = port })
            tr
            t
            (strike fl parse is_carrier udp src reason cfg now s).0).1
          ≡ true)
        × (is_carrier (unmap src) ≡ false)
  unfolding strike
  strike-bans udp src reason cfg now t port tr s ok before silent =
      elim (Bool-cases (is_carrier (unmap src))) [
        | inl carrier ↦ absurd (false-true (rw carrier at ok))
        | inr other ↦
            let (s', lim) = strike_limit fl parse cfg reason s in
            elim (Bool-cases (counts_nothing lim)) [
              | inl off ↦ absurd (false-true (rw (other, off) at ok))
              | inr on ↦ (
                rw (other, on)
                    (strike_counted-bans udp (unmap src) reason lim cfg now t port tr s'
                      (unmap_idem src) (rw (other, on) at ok) before silent),
                other,
              )
            ]
      ]
