-- ===== src/Operations.antt =====
-- internal/operations: one-off commands that are sent to nodes.
pub mod Model
pub mod Executor
pub mod Outcome
pub mod Recovery
pub mod Selection
pub mod Eligible
pub mod SelectionTests
pub mod Tests
