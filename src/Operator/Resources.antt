-- ===== src/Operator/Resources.antt =====
-- The objects that the operator installs (integrity-shield-operator/resources).
pub mod Config
pub mod Deploy
pub mod Compare
pub mod Roles
pub mod Webhook
pub mod Crd
