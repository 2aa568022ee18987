-- ===== src/Peer.antt =====
-- internal/peer: what two peers say to each other.
pub mod Session
pub mod Quick
pub mod Sync
pub mod Work
pub mod QuickVerify
pub mod Negotiation
pub mod State
pub mod Handlers
pub mod Commands
pub mod Announce
