-- ===== src/External.antt =====
-- What the program uses and does not implement, as interfaces that the sections below take.
pub mod Kube
pub mod Sigstore
pub mod Labels
pub mod Dynamic
