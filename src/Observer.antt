-- ===== src/Observer.antt =====
-- The observer, which verifies the resources of a cluster at intervals (observer/).
pub mod Pattern
pub mod Constraint
pub mod Resources
pub mod Verify
pub mod Export
pub mod Run
