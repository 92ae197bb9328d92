-- ===== src/Configuration/Validate.antt =====
-- internal/configuration/model.go: the validation of a desired document.
pub mod Checks
pub mod Leases
pub mod Settings
pub mod Required
pub mod Bounds
pub mod Deployable
pub mod Ranges
pub mod Shared
pub mod Legacy
pub mod Tests
