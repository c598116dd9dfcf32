-- ===== src/Server.antt =====
-- integrity-shield-server: the API server that decides an admission request.
pub mod Parameter
pub mod Config
pub mod Shield
pub mod Endpoint
