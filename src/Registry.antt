-- ===== src/Registry.antt =====
-- src/registry: the node table, the service in front of it and the health checker, what they promise
-- together, and the two at work on one table.
pub mod NodeTable
pub mod Service
pub mod HealthChecker
pub mod Specification
pub mod Server
