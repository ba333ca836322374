-- ===== src/Admin.antt =====
-- The admin server (internal/admin).
pub mod Sessions
mod Tests
