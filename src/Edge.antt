-- ===== src/Edge.antt =====
-- The edge proxy's tables and state machines (internal/edge).
pub mod Cooldown
pub mod Streams
pub mod WsFramer
pub mod SipFramer
pub mod Provisional
pub mod Dialogs
pub mod Carriers
pub mod RegProof
pub mod Admission
pub mod Location
pub mod RegGuard
pub mod CarrierRegs
pub mod Drain
pub mod Enumeration
mod Tests
mod CallTests
mod FrameTests
