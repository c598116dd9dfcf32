-- ===== src/Admission.antt =====
-- admission-controller: the webhook that decides a request by the profiles of the cluster.
pub mod Config
pub mod Profile
pub mod Match
pub mod Status
pub mod Webhook
