-- ===== src/Controlplane/Reconciler.antt =====
-- internal/controlplane/reconciler.go: what is done about drift.
pub mod Calls
pub mod Node
pub mod Run
pub mod Drift
pub mod Starts
mod Tests
