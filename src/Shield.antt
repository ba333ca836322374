-- ===== src/Shield.antt =====
-- The front-door security plane (internal/shield).
pub mod BanList
pub mod Limiter
pub mod Offenders
pub mod Aors
pub mod Scanner
pub mod Gate
pub mod Strikes
mod Tests
pub mod Samples
mod GateTests
