-- ===== src/Tests.antt =====
-- Instances of the theorems at concrete inputs, over small stand-ins for the libraries.
mod Toys
mod Storage
mod Peers
mod Lives
mod Nodes
mod Keys
mod Servers
mod Selves
mod Clients
mod Colleagues
mod Fellows
mod Renewers
mod Orders
mod Checks
mod Gathers
mod Cluster
mod Connections
mod Starts
mod Signatures
mod Shares
mod Sessions
mod Networks
