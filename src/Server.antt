-- ===== src/Server.antt =====
-- The package server: what the nodes offer to clients and to each other, on top of the services.
pub mod Tss
pub mod Requests
pub mod Peers
pub mod Rpc
pub mod SelfService
pub mod Grpc
pub mod Agreement
pub mod Order
pub mod Cluster
