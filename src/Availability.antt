-- ===== src/Availability.antt =====
-- internal/haoperations: the DNS redundancy of a cluster and the maintenance of its nodes.
pub mod Model
pub mod Summary
pub mod Healthy
pub mod Certificates
pub mod Validity
pub mod Calls
pub mod Maintenance
pub mod Checks
pub mod Return
pub mod Changes
pub mod Returning
pub mod Tests
