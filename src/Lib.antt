-- ===== src/Lib.antt =====
-- FreeSBC, a session border controller for SIP: its admission tables, its calls, its port pool and
-- its session store, modelled as functions of their states.
--
-- The program's parts. internal/shield is the front door: it bans sources, meters their requests,
-- counts their strikes and recognises scanners. internal/edge proxies SIP between public clients,
-- carriers and the switch; it asks the shield about every message and keeps its own tables: bindings of
-- registered clients, calls, registrations at carriers, challenges it relayed, connections that are
-- open, nodes of the switch that are cooling down, and whether it drains. internal/media allocates RTP ports.
-- internal/admin serves operators, behind login sessions. internal/hep encodes what is mirrored to a
-- collector. internal/config holds what they are set to.
--
-- Which file models which part.
--   Net: netip.Addr as far as it is used, bucketKey (internal/shield/ratelimit.go), streamKey
--     (internal/edge/stream.go).
--   Shield/BanList: banList of internal/shield/banlist.go (ban, banned, prune, liveCount, live).
--   Shield/Limiter: rateLimiter and Limiter of internal/shield/ratelimit.go (take, allow, prune).
--   Shield/Offenders: offenderTable of internal/shield/offenders.go (strike, clear, prune, live).
--   Shield/Aors: aorTable of internal/shield/aorstrikes.go (strike, evictable, isLocked, clear, prune).
--   Shield/Scanner: internal/shield/scanner.go.
--   Shield/Gate: Shield of internal/shield/shield.go (Check, CheckFrom, AllowRate, CheckScanner,
--     BannedFrom, DropBanned, rateLimit, pruneLoop) and Banned of banned.go.
--   Shield/Strikes: the methods of Shield in internal/shield/offenders.go and aorstrikes.go (Strike,
--     StrikeOn, strike, ClearStrikes, strikeLimit, StrikeAOR, AORLocked, ClearAOR).
--   Edge/Cooldown: cooldownTable of internal/edge/cooldown.go (RegisterAllow, RegisterRelease,
--     RegisterAnswered, RegisterUnanswered, Available, Penalize, Recover, snapshot).
--   Edge/Streams: streamTable of internal/edge/stream.go (acquire, release, open).
--   Edge/WsFramer: wsFramer of internal/edge/stream.go (feed, partial, started), a round of its loop as
--     one function.
--   Edge/SipFramer: sipFramer and contentLength of internal/edge/stream.go.
--   Edge/Provisional: provTable of internal/edge/prov.go (register, observe, before).
--   Edge/Dialogs: dialogTable of internal/edge/dialog.go (begin, close, removeLocked);
--     Edge/Dialogs/Search: its lookups (early, lookup, lookupEarly, newestRoutedByCallID, count);
--     Edge/Dialogs/Calls: the methods of dialog
--     (attach, track, markSent, cancelSeries, confirm, endBy, the offers); endBy is two steps, before
--     and after it releases the mutex, and closeAll is a run over its snapshot, with other steps between.
--   Edge/Carriers: carrierSnapshot of internal/edge/carrierdns.go (isSource, isAddress, carrierFor).
--   Edge/RegProof: internal/edge/registerproof.go (credentialMatches, bindingProof) and the handlers'
--     half of internal/edge/regguard.go (registerStrike, aorLockedFor, refreshesBinding,
--     registerOutcome), over the shield, the bindings and the guard.
--   Edge/Admission: internal/edge/admission.go (admitPublicInvite, admitPublicOutOfDialog,
--     admitDialogless, dropSilently, the strikes, dropSummary, warnOnce).
--   Edge/Location: the indexes of Location of internal/edge/location.go and its locked helpers;
--     Edge/Location/Table: its exported methods.
--   Edge/RegGuard: regGuard of internal/edge/regguard.go (challenged, countable, recent), enumKey of
--     internal/edge/admission.go.
--   Edge/CarrierRegs: carrierRegTable of internal/edge/carrierreg.go.
--   Edge/Enumeration: enumLimiter of internal/edge/admission.go (blocked, rejected).
--   Edge/Drain: drainState of internal/edge/drain.go.
--   Media/Ports: PlanePool of internal/media/portpool.go (reserveNext, release, sweep, Stats, bindPair,
--     allocatePair, allocateSingle).
--   Admin/Sessions: sessionStore of internal/admin/session.go (create, valid, drop).
--   Hep/Packet: AppendPacket and its helpers of internal/hep/hep.go.
--   Base: the shared names, Boolean tests, lists, texts, association lists and LRU lists.
-- The children of a module hold its theorems, named for what they are about; the modules called Tests,
-- GateTests, CallTests, FrameTests and
-- Samples run the definitions on concrete inputs.
--
-- How states correspond. A struct is a record with the source's fields. A map is an association list,
-- and a map with a container/list beside it is one association list with the most recent entry first. A
-- method that holds a mutex is one function of the state, with its result beside the new state. A
-- pointer to a binding, to a call or to an attempt is a number, and the heap is a function from numbers. Instants are nanoseconds
-- since the zero time.Time, 0 is the zero time; durations are nanoseconds and not negative; a call reads
-- the clock once. A negative rate, interval or limit is not modelled apart from 0. The size
-- test of the SIP framer wraps at 64 bits, as the sum in the source does. Where code releases a mutex
-- halfway, as endBy and closeAll do, each part is a step, and other steps may come between.
--
-- What is a parameter: float64 arithmetic, with the IEEE facts that the limiter relies on; the parsers of
-- internal/config; the carrier and vouched predicates; strings.EqualFold and strings.ToLower where
-- Unicode matters; whether a prefix contains an address; the FNV-1a hash; SHA-256 and the random identifiers; what opening a socket gives.
--
-- Bounds and fuel. The sweep of the port pool runs at most as often as the range has pairs, as in the
-- source. The eviction loop of the session store runs on fuel, the number of sessions: each round removes
-- one, so this is enough. The loop of the WebSocket framer has as many rounds as there are bytes, and
-- each round uses one at least; that of the SIP framer has two for each byte and one more, since a round
-- that starts a message uses none. All other loops are structural.
--
-- Not modelled: SIP messages and transactions and the handlers over them, the media
-- answers of a call's forks, SDP, media relaying, WebRTC, the HEP sender, HTTP and the web UI, configuration loading, process wiring, log lines, metrics, and the listings
-- with paging (Bans, Offenders, Registrations). Interleavings of two sweeps of one port pool are not
-- modelled.
pub mod Base
pub mod Net
pub mod Shield
pub mod Edge
pub mod Media
pub mod Admin
pub mod Hep
