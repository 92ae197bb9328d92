-- ===== src/Health.antt =====
-- internal/operationalhealth.
pub mod Model
pub mod Tracker
