-- ===== src/Users.antt =====
-- internal/useradmin.
pub mod Calls
pub mod Service
pub mod Changed
mod Tests
