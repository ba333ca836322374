-- ===== src/Media.antt =====
-- The media plane (internal/media).
pub mod Ports
mod Tests
