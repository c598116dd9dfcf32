-- ===== src/Server/Shield.antt =====
-- integrity-shield-server/pkg/shield/request_handler.go: the decision about one admission request.
pub mod Request
pub mod Mutation
pub mod VerifyOption
pub mod Event
pub mod Handler
