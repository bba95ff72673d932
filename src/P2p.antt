-- ===== src/P2p.antt =====
-- The package p2p: what a miner does with blocks and requests that come from outside.
pub mod Resolver
pub mod Server
pub mod Peers
pub mod Batches
pub mod Manager
pub mod Node
pub mod Peer
pub mod Dialing
pub mod Mining
