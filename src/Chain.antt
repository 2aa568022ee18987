-- ===== src/Chain.antt =====
-- internal/chain: the state of the local chain, the events that change it, and mining targets.
pub mod SavedHead
pub mod State
pub mod Keeps
pub mod Atomic
pub mod Refinement
pub mod Queries
pub mod Target
pub mod Handlers
pub mod Loop
