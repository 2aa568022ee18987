-- ===== src/Core/Block/Ids.antt =====
-- The ids of transactions, merkle nodes and blocks are digests, of 32 bytes.
use basiccoin.Core.Block.{Block, MerkleNode, block_hash, merkle_hash}
use basiccoin.Core.Tx.{Tx, tx_hash}
use basiccoin.Hash.{IsHash}
use basiccoin.Hash.Digest.{Sha256, dhash_hashes, dhash_bytes-IsHash}

module _ ⦃sha : Sha256⦄ where
  pub tx_hash-IsHash : (tx : Tx) → IsHash (tx_hash tx)
  unfolding tx_hash dhash_hashes
  tx_hash-IsHash tx = dhash_bytes-IsHash _

  pub merkle_hash-IsHash : (node : MerkleNode) → IsHash (merkle_hash node)
  unfolding merkle_hash dhash_hashes
  merkle_hash-IsHash node = dhash_bytes-IsHash _

  pub block_hash-IsHash : (b : Block) → IsHash (block_hash b)
  unfolding block_hash dhash_hashes
  block_hash-IsHash b = dhash_bytes-IsHash _
