-- ===== src/Service.antt =====
-- The package service: one run of a protocol of alice on a node. The protocol itself is a library; what
-- the services do around it is modelled: the stream handlers of the host, the channel `done`, and the
-- result that goes to the store.
pub mod Node
pub mod Dkg
pub mod Signer
pub mod Reshare
pub mod Lifecycle
pub mod Continuity
pub mod Sessions
pub mod Network
