-- ===== src/Configuration.antt =====
-- internal/configuration: the documents that a cluster is configured by.
pub mod Model
pub mod Clean
pub mod Cleaned
pub mod Canonical
pub mod Sets
pub mod Settled
pub mod InOrder
pub mod Own
pub mod Rows
pub mod Diff
pub mod Compared
pub mod Validate
pub mod Encoding
pub mod Tests
