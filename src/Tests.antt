-- ===== src/Tests.antt =====
-- The theorems at concrete inputs, over a cluster in memory.
mod Objects
mod Lawful
mod Deleted
mod World
mod Server
mod Admission
mod Observer
mod Instance
mod Operator
mod Settled
mod Reconcile
mod Trust
mod Endpoint
