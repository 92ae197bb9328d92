-- ===== src/Controlplane.antt =====
-- internal/controlplane: revisions, deployments and drift.
pub mod Model
pub mod Executor
pub mod Outcome
pub mod Tests
pub mod Settings
pub mod Targets
pub mod Preview
pub mod PreviewDocument
pub mod Starting
pub mod Planned
pub mod Created
pub mod Started
pub mod Reconciler
mod SettingsTests
mod TargetsTests
mod PlannedTests
