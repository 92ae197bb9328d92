-- ===== src/Auth/Mfa.antt =====
-- internal/auth/mfa.go: second factors.
--
-- A code that a user types is its bytes.
pub mod Steps
pub mod Manage
pub mod Challenge
