-- ===== src/Inv.antt =====
-- internal/inv/inv.go: the inventory of blocks, merkle nodes and transactions, kept in memory
-- maps. The maps on disk of pkg/disksyncmap take the same place when a directory is given.
mod Records
mod Blocks
mod Merkles
pub mod Serialize
pub mod OnDisk
pub mod Walks
pub mod Steps
pub mod Lca
pub mod Store
pub mod Trees
pub mod Forest
pub mod Invariant
pub mod Reads
pub use Records.{Inv, BlockRecord, MerkleRecord, TxRecord}
unfoldable pub use Records.{new_inv}
unfoldable pub use Blocks.{
  has_block, has_any_block, get_block_record, get_block, get_block_height, get_block_total_work,
  get_block_parent_id, ancestors_from, get_block_ancestors, last_item, get_block_specific_ancestor,
  walk_fuel, depth_from, get_block_ancestor_depth, ancestors_until_from, get_block_ancestors_until,
  lower_to, step_both, get_block_lca,
}
unfoldable pub use Merkles.{
  has_merkle, get_merkle, get_merkle_vsize, has_tx, get_tx, get_tx_vsize, children, collect_tx_ids,
  tree_fuel, get_merkle_tx_ids, get_txs, get_merkle_txs, has_tx_out, get_tx_out, has_entity,
  get_entity_vsize,
}
use basiccoin.Base.{ℕ, not, if◌then◌else◌}
use basiccoin.Base.Eq.{◌==◌}
use basiccoin.Base.Result.{Result, ok, ◌>>=◌, ◌>>◌, guard, block_known, merkle_known, tx_known}
use basiccoin.Base.Word.{add64}
use basiccoin.Collections.Map as Map
use basiccoin.Core.Tx.{Tx, tx_hash, vsize}
use basiccoin.Core.Block.{Block, MerkleNode, block_hash, merkle_hash}
use basiccoin.Core.Crypto.{Ecdsa}
use basiccoin.Core.Verify.{InvVerifier, verify_tx, verify_merkle, verify_block}
use basiccoin.Hash.{HashT, hash_eq, work_append_target}
use basiccoin.Hash.Digest.{Sha256}

-- The inventory as the verifier reads it.
abbrev pub verifier_view : Inv → InvVerifier
verifier_view inv = record {
  has_block = has_block inv;
  get_block = get_block inv;
  get_block_height = get_block_height inv;
  get_block_ancestors = get_block_ancestors inv;
  get_block_specific_ancestor = get_block_specific_ancestor inv;
  has_merkle = has_merkle inv;
  get_merkle_tx_ids = get_merkle_tx_ids inv;
  get_merkle_txs = get_merkle_txs inv;
  get_merkle_vsize = get_merkle_vsize inv;
  has_tx_out = has_tx_out inv;
  get_tx_out = get_tx_out inv;
  has_entity = has_entity inv;
  get_entity_vsize = get_entity_vsize inv;
}

module _ ⦃sha : Sha256⦄ where
  unfoldable pub store_block : ℕ → Inv → Block → Result Inv
  store_block now inv b = do
    let block_id : HashT = block_hash b
    guard (not (has_block inv block_id)) block_known
    verify_block inv.core_params (verifier_view inv) now b
    prev_work ← get_block_total_work inv b.prev_block_id
    prev_height ← get_block_height inv b.prev_block_id
    total_work ← work_append_target prev_work b.target
    ok (record inv {
      blocks =
          Map.insert block_id
            (record { block = b; height = add64 prev_height 1; total_work = total_work })
            inv.blocks;
    })

  -- The size of the right child, if it is another one.
  unfoldable pub add_right_size : Inv → MerkleNode → ℕ → Result ℕ
  add_right_size inv node total_size =
      if node.r_child == node.l_child
      then ok total_size
      else do r_size ← get_entity_vsize inv node.r_child; ok (add64 total_size r_size)

  unfoldable pub store_merkle : Inv → MerkleNode → Result Inv
  store_merkle inv node = do
    let node_id : HashT = merkle_hash node
    guard (not (has_merkle inv node_id)) merkle_known
    verify_merkle inv.core_params (verifier_view inv) node
    l_size ← get_entity_vsize inv node.l_child
    total_size ← add_right_size inv node l_size
    ok (record inv {
      merkles = Map.insert node_id (record { merkle = node; vsize = total_size }) inv.merkles;
    })

  unfoldable pub store_tx : ⦃ecdsa : Ecdsa⦄ → Inv → Tx → Result Inv
  store_tx inv tx = do
    let tx_id : HashT = tx_hash tx
    guard (not (has_tx inv tx_id)) tx_known
    verify_tx inv.core_params (verifier_view inv) tx
    ok (record inv { txs = Map.insert tx_id (record { tx = tx; vsize = vsize tx }) inv.txs })
