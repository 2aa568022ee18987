-- ===== src/Core/Block.antt =====
-- pkg/core/block.go: blocks, merkle nodes and the size limits that follow from the parameters.
pub mod Tree
pub mod Ids
use basiccoin.Base.{
  ℕ, zero, suc, ◌+◌, ◌*◌, ◌/◌, ◌%◌, ◌<◌, ◌≡◌, Bool, true, false, List, [], ◌∷◌, ◌++◌, length,
  if◌then◌else◌,
}
use basiccoin.Base.Eq.{◌==◌, nat_eq}
use basiccoin.Base.Result.{Result, ok, panic, ◌>>=◌}
use basiccoin.Base.Word.{add64, sub64, div64}
use basiccoin.Core.Params.{Params}
use basiccoin.Core.Tx.{Tx, vsize}
use basiccoin.Core.Crypto.{example_pub_der}
use basiccoin.Hash.{HashT, zero_hash}
use basiccoin.Hash.Digest.{Sha256, dhash_uint64, dhash_hashes}

pub record MerkleNode : Type 0 where
  pub l_child : HashT
  pub r_child : HashT

pub record Block : Type 0 where
  pub prev_block_id : HashT
  pub merkle_root : HashT
  pub target : HashT
  pub noise : HashT
  pub nonce : ℕ
  pub mined_time : ℕ

-- `Block{}`
abbrev pub zero_block : Block
zero_block = record {
  prev_block_id = zero_hash;
  merkle_root = zero_hash;
  target = zero_hash;
  noise = zero_hash;
  nonce = 0;
  mined_time = 0;
}

module _ ⦃sha : Sha256⦄ where
  unfoldable pub merkle_hash : MerkleNode → HashT
  merkle_hash node = dhash_hashes (node.l_child ∷ node.r_child ∷ [])

  unfoldable pub block_hash : Block → HashT
  block_hash b =
      dhash_hashes
        (b.prev_block_id ∷ b.merkle_root ∷ b.target ∷ b.noise ∷ dhash_uint64 b.nonce ∷ [])

unfoldable pub min_non_coinbase_vsize : ℕ
min_non_coinbase_vsize = vsize (record {
  is_coinbase = false;
  min_block = 0;
  inputs =
      record {
        utxo = record { tx_id = zero_hash; ind = 0; value = 0 };
        public_key = example_pub_der;
        signature = [];
      }
      ∷ [];
  outputs = [];
})

unfoldable pub coinbase_vsize : ℕ
coinbase_vsize = vsize (record {
  is_coinbase = false;
  min_block = 0;
  inputs = [];
  outputs = record { value = 0; public_key_hash = zero_hash } ∷ [];
})

unfoldable pub block_max_txs : Params → Result ℕ
block_max_txs params = do
  max_standard_txs ← div64 (sub64 params.max_block_vsize coinbase_vsize) min_non_coinbase_vsize
  ok (add64 (add64 max_standard_txs 1) 1)
