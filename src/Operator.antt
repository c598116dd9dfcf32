-- ===== src/Operator.antt =====
-- The operator (integrity-shield-operator/controllers, resources, cert and api).
pub mod Objects
pub mod Pods
pub mod Types
pub mod Resources
pub mod Deletion
pub mod Creation
pub mod Certificates
pub mod Client
pub mod Handlers
pub mod Event
pub mod Reconcile
