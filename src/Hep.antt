-- ===== src/Hep.antt =====
-- The HEPv3 encoder (internal/hep).
pub mod Packet
mod Tests
