-- ===== src/Inv/Records.antt =====
-- The records and the state of internal/inv/inv.go.
use basiccoin.Base.{ℕ, []}
use basiccoin.Collections.Map as Map
use basiccoin.Collections.Map.{Map}
use basiccoin.Core.Params.{Params}
use basiccoin.Core.Tx.{Tx}
use basiccoin.Core.Block.{Block, MerkleNode, zero_block}
use basiccoin.Hash.{HashT, hash_eq, zero_hash}

pub record BlockRecord : Type 0 where
  pub block : Block
  pub height : ℕ
  pub total_work : HashT

pub record MerkleRecord : Type 0 where
  pub merkle : MerkleNode
  pub vsize : ℕ

pub record TxRecord : Type 0 where
  pub tx : Tx
  pub vsize : ℕ

pub record Inv : Type 0 where
  pub core_params : Params
  pub blocks : Map HashT BlockRecord
  pub merkles : Map HashT MerkleRecord
  pub txs : Map HashT TxRecord

-- The zero block stands at height 0.
unfoldable pub new_inv : Params → Inv
new_inv core_params = record {
  core_params = core_params;
  blocks =
      Map.insert zero_hash (record { block = zero_block; height = 0; total_work = zero_hash }) [];
  merkles = [];
  txs = [];
}
