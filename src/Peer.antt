-- ===== src/Peer.antt =====
-- The package peer: who the other nodes are, and how messages get to them.
pub mod Manager
pub mod Transport
pub mod Connecting
pub mod Discovery
