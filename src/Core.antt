-- ===== src/Core.antt =====
-- pkg/core: the entities, the rules that verify them, and the difficulty of the chain.
pub mod Params
pub mod Tx
pub mod Block
pub mod Crypto
pub mod Difficulty
pub mod Verify
pub mod TxFactory
