-- ===== src/Hep/Tests.antt =====
-- A packet on concrete bytes (internal/hep).
use freesbc.Base.{ℕ, ◌≤◌, ◌≡◌, ◌⊎◌, none, some, List, [], ◌∷◌, ◌++◌, length, take}
use freesbc.Net.{Addr}
use freesbc.Hep.Packet.{Packet, HepError, refusal, max_packet_size, append_packet}
use freesbc.Hep.Packet.Sizes.{announced, append_packet-sized}

abbrev ping : Packet
ping = record {
  src = record { addr = Addr.v4 0x0a000001; port = 5060 };
  dst = record { addr = Addr.v4 0x0a000002; port = 5060 };
  proto = 17;
  time = none;
  payload_type = 1;
  correlation_id = [];
  payload = 80 ∷ 73 ∷ [];
}

append_packet-sized_example :
    ((r : HepError) × (refusal ping [] ≡ some r)
      × (append_packet (1 ∷ []) ping (5, 6) 2 [] ≡ (1 ∷ [], some r)))
    ⊎ ((packet : List ℕ) × (append_packet (1 ∷ []) ping (5, 6) 2 [] ≡ ((1 ∷ []) ++ packet, none))
        × (take 4 packet ≡ 72 ∷ 69 ∷ 80 ∷ 51 ∷ [])
        × (announced packet ≡ length packet)
        × (length packet ≤ max_packet_size))
append_packet-sized_example = append_packet-sized (1 ∷ []) ping (5, 6) 2 []
