-- ===== src/Tests/Samples.antt =====
-- Concrete inputs: a digest, keys, rates, and a chain of one block.
use basiccoin.Base.{
  ℕ, ◌≢◌, ◌^◌, ◌+◌, ◌%◌, ◌/◌, ◌<◌, ◌≡◌, refl, ap, true, none, List, [], ◌∷◌, length, All, ltb,
  arith,
}
use basiccoin.Chain.State.{State, credit_balance}
use basiccoin.Collections.Map as Map
use basiccoin.Collections.Set as Set
use basiccoin.Core.Block.{Block, zero_block, MerkleNode, block_hash, merkle_hash}
use basiccoin.Core.Crypto.{Ecdsa, ecdsa_key}
use basiccoin.Core.Params.{Params}
use basiccoin.Core.Tx.{Utxo, Tx, FloatOps, utxo_eq, tx_hash, vsize}
use basiccoin.Hash.{HashT, IsHash, of_bytes, hash_eq, zero_hash, big_int, big_int2_256}
use basiccoin.Hash.Digest.{Sha256}
use basiccoin.Inv.{Inv, new_inv, BlockRecord}

-- The last byte of the number that the bytes stand for, in 32 bytes.
abbrev pub low_byte : List ℕ → List ℕ
low_byte content =
    0
    ∷ 0
    ∷ 0
    ∷ 0
    ∷ 0
    ∷ 0
    ∷ 0
    ∷ 0
    ∷ 0
    ∷ 0
    ∷ 0
    ∷ 0
    ∷ 0
    ∷ 0
    ∷ 0
    ∷ 0
    ∷ 0
    ∷ 0
    ∷ 0
    ∷ 0
    ∷ 0
    ∷ 0
    ∷ 0
    ∷ 0
    ∷ 0
    ∷ 0
    ∷ 0
    ∷ 0
    ∷ 0
    ∷ 0
    ∷ 0
    ∷ (7 + length content + of_bytes content) % 256
    ∷ []

pub low_byte-length : (content : List ℕ) → length (low_byte content) ≡ 32
low_byte-length content = refl

pub low_byte-bytes : (content : List ℕ) → All (λ b. b < 256) (low_byte content)
low_byte-bytes content = ground arith

instance abbrev pub sample_sha : Sha256
sample_sha = record {
  sum256 = low_byte;
  sum256-length = low_byte-length;
  sum256-bytes = low_byte-bytes;
}

-- One key, whose signatures are all good.
instance abbrev pub sample_ecdsa : Ecdsa
sample_ecdsa = record {
  PublicKey = Unit {0};
  PrivateKey = Unit {0};
  parse_pkix_public_key = λ _. ecdsa_key tt;
  verify_asn1 = λ _ _ _. true;
  marshal_pkix_public_key = λ _. none;
  sign_asn1 = λ _ _. none;
}

-- Rates as whole numbers.
instance abbrev pub sample_float : FloatOps ℕ
sample_float = record {
  of_uint64 = λ n. n;
  to_uint64 = λ n. n;
  sub = λ a b. a;
  mul = λ a b. a;
  div = λ a b. a;
  gt = λ a b. ltb b a;
}

abbrev pub easy_target : HashT
easy_target = record {
  bytes =
      0 ∷ 255 ∷ 0 ∷ 0 ∷ 0 ∷ 0 ∷ 0 ∷ 0 ∷ 0 ∷ 0 ∷ 0 ∷ 0 ∷ 0 ∷ 0 ∷ 0 ∷ 0 ∷ 0 ∷ 0 ∷ 0 ∷ 0 ∷ 0 ∷ 0 ∷ 0
      ∷ 0 ∷ 0 ∷ 0 ∷ 0 ∷ 0 ∷ 0 ∷ 0 ∷ 0 ∷ 0 ∷ [];
}

pub easy_target-IsHash : IsHash easy_target
easy_target-IsHash = record { size = refl; in_range = ground arith }

abbrev pub sample_params : Params
sample_params = record {
  block_reward = 1000;
  difficulty_period = 8;
  block_target_time = 10;
  max_block_vsize = 1048576;
  max_tx_vsize = 16384;
  max_target = easy_target;
  original_target = easy_target;
}

abbrev pub coinbase : Tx
coinbase = record {
  is_coinbase = true;
  min_block = 1;
  inputs = [];
  outputs = record { value = 1000; public_key_hash = zero_hash } ∷ [];
}

abbrev pub coinbase_output : Utxo
coinbase_output = record { tx_id = tx_hash coinbase; ind = 0; value = 1000 }

abbrev pub node : MerkleNode
node = record { l_child = tx_hash coinbase; r_child = tx_hash coinbase }

abbrev pub first_block : Block
first_block = record {
  prev_block_id = zero_hash;
  merkle_root = merkle_hash node;
  target = easy_target;
  noise = zero_hash;
  nonce = 0;
  mined_time = 100;
}

abbrev pub second_block : Block
second_block = record first_block { prev_block_id = block_hash first_block; mined_time = 110 }

-- The inventory as a transaction, a node and a block come in.
abbrev pub inv₁ : Inv
inv₁ = record (new_inv sample_params) {
  txs = Map.insert (tx_hash coinbase) (record { tx = coinbase; vsize = vsize coinbase }) [];
}

abbrev pub inv₂ : Inv
inv₂ = record inv₁ {
  merkles = Map.insert (merkle_hash node) (record { merkle = node; vsize = vsize coinbase }) [];
}

abbrev pub first_work : HashT
first_work = record {
  bytes =
      0 ∷ 0 ∷ 0 ∷ 0 ∷ 0 ∷ 0 ∷ 0 ∷ 0 ∷ 0 ∷ 0 ∷ 0 ∷ 0 ∷ 0 ∷ 0 ∷ 0 ∷ 0 ∷ 0 ∷ 0 ∷ 0 ∷ 0 ∷ 0 ∷ 0 ∷ 0 ∷ 0
      ∷ 0 ∷ 0 ∷ 0 ∷ 0 ∷ 0 ∷ 0 ∷ 1 ∷ 1 ∷ [];
}

abbrev pub root_record : BlockRecord
root_record = record { block = zero_block; height = 0; total_work = zero_hash }

abbrev pub first_record : BlockRecord
first_record = record { block = first_block; height = 1; total_work = first_work }

abbrev pub inv₃ : Inv
inv₃ = record inv₂ { blocks = Map.insert (block_hash first_block) first_record inv₂.blocks }

-- The state at the zero block, with the coinbase in the mempool.
abbrev pub waiting : State ℕ
waiting = record {
  head = zero_hash;
  mempool = (tx_hash coinbase, tt) ∷ [];
  utxos = [];
  mempool_rates = (tx_hash coinbase, 0) ∷ [];
  mempool_utxo_spends = [];
  pkh_utxos = [];
  included_tx_blocks = [];
}

-- The state with the coinbase included, before and after the head moves.
abbrev pub included : State ℕ
included = record waiting {
  mempool = [];
  mempool_rates = [];
  utxos = Set.add coinbase_output [];
  pkh_utxos = credit_balance zero_hash coinbase_output [];
  included_tx_blocks = (tx_hash coinbase, block_hash first_block) ∷ [];
}

abbrev pub at_first : State ℕ
at_first = record included { head = block_hash first_block }

abbrev pub back : State ℕ
back = record waiting { head = block_hash first_block }

pub first_work-IsHash : IsHash first_work
first_work-IsHash = record { size = refl; in_range = ground arith }

pub easy_not_zero : easy_target ≢ zero_hash
unfolding of_bytes
easy_not_zero e = absurd (omega (arith, ap (λ (h : HashT). of_bytes h.bytes) e))

pub work_fits : big_int first_work + big_int2_256 / big_int easy_target < 2 ^ 256
unfolding big_int of_bytes
work_fits = omega arith
