-- ===== src/Store.antt =====
-- The package store: where a node keeps its shares and signatures.
pub mod Backend
pub mod Fsm
pub mod Badger
pub mod Mock
pub mod Handler
