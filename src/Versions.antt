-- ===== src/Versions.antt =====
-- internal/adguardcompat: the versions of AdGuard Home that are supported.
pub mod Model
pub mod Decimal
mod Tests
