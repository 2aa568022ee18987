-- ===== src/Tests/Mining.antt =====
-- The miner at concrete inputs.
use basiccoin.Base.{◌≡◌, refl, ◌+◌, true, false, some, List, [], ◌∷◌, ◌++◌, All, arith}
use basiccoin.Base.Eq.{list_beq}
use basiccoin.Base.Result.{ok}
use basiccoin.Base.Word.{add64}
use basiccoin.Chain.Handlers.{CandidateHead}
use basiccoin.Collections.Map as Map
use basiccoin.Core.Block.{Block, block_hash, merkle_hash}
use basiccoin.Core.Tx.{
  Tx, tx_hash, tx_in_hash, tx_out_hash, utxo_hash, has_surplus, inputs_value, outputs_value,
  add_inputs, add_outputs, vsize,
}
use basiccoin.Core.Verify.{verify_block_txs}
use basiccoin.Hash.{hash_eq, zero_hash, eq, lt, lt_bytes, of_bytes, fill_bytes}
use basiccoin.Hash.Digest.{
  dhash_bytes, dhash_uint64, dhash_bool, concat_bytes, dhash_hashes, dhash_list,
}
use basiccoin.Inv.{Inv, new_inv, get_tx, get_txs, get_block_height, get_block_record}
use basiccoin.Miner.{Miner, new_miner, mine, update_template}
use basiccoin.Miner.Coinbase.{update_template-balanced}
use basiccoin.Miner.Mining.{IsSolved, mine-IsSolved, mine-finds}
use basiccoin.Tests.Samples.{sample_sha, sample_params, easy_target, first_block, coinbase, node}

-- A transaction that pays a fee of 1.
abbrev paying : Tx
paying = record {
  is_coinbase = false;
  min_block = 1;
  inputs =
      record {
        utxo = record { tx_id = zero_hash; ind = 0; value = 10 };
        public_key = [];
        signature = [];
      }
      ∷ [];
  outputs = record { value = 9; public_key_hash = zero_hash } ∷ [];
}

abbrev pool : Inv
pool = record (new_inv sample_params) {
  txs = Map.insert (tx_hash paying) (record { tx = paying; vsize = vsize paying }) [];
}

root_height : get_block_height pool zero_hash ≡ ok 0
unfolding get_block_height get_block_record new_inv Map.lookup Map.insert list_beq eq
root_height = refl

paying_found : get_txs pool (tx_hash paying ∷ []) ≡ ok (paying ∷ [])
unfolding get_txs get_tx new_inv Map.lookup Map.insert list_beq eq tx_hash dhash_bytes dhash_uint64
    dhash_bool dhash_hashes dhash_list concat_bytes of_bytes fill_bytes tx_in_hash tx_out_hash
    utxo_hash
paying_found = refl

paying_surplus : has_surplus paying ≡ true
unfolding has_surplus inputs_value outputs_value add_inputs add_outputs
paying_surplus = refl

update_template-balanced_example :
    (m : Miner) × (reward : Tx) × (update_template pool
        (λ _. zero_hash)
        100
        zero_hash
        easy_target
        (tx_hash paying ∷ [])
        (new_miner zero_hash)
      ≡ ok m)
    × (m.out_coinbase ≡ some reward)
    × (verify_block_txs pool.core_params (add64 0 1) (reward ∷ paying ∷ []) ≡ ok tt)
update_template-balanced_example =
    update_template-balanced pool (λ _. zero_hash) 100 zero_hash easy_target (tx_hash paying ∷ [])
      (new_miner zero_hash) 0 (paying ∷ []) root_height paying_found (paying_surplus, tt) (refl, tt)

-- A miner with a block to work on.
abbrev busy : Miner
busy = record {
  payout_pkh = zero_hash;
  template = some first_block;
  out_coinbase = some coinbase;
  out_merkles = node ∷ [];
  draws = 0;
  published = [];
}

mine-IsSolved_example :
    (m : Miner) × (found : List CandidateHead) × (mine (λ _. zero_hash) 3 busy ≡ ok m)
    × (m.published ≡ busy.published ++ found)
    × All IsSolved found
mine-IsSolved_example = mine-IsSolved (λ _. zero_hash) 3 busy first_block coinbase refl refl

abbrev winner : Block
winner = record first_block { nonce = 0 + 1 }

winner_beats : lt (block_hash winner) winner.target ≡ true
unfolding lt lt_bytes block_hash merkle_hash tx_hash dhash_bytes dhash_uint64 dhash_bool
    dhash_hashes dhash_list concat_bytes of_bytes fill_bytes tx_in_hash tx_out_hash utxo_hash
winner_beats = refl

mine-finds_example :
    (m : Miner) × (before after : List CandidateHead) × (mine (λ _. zero_hash) 3 busy ≡ ok m)
    × (m.published
        ≡ before
          ++ record {
            head = block_hash winner;
            blocks = winner ∷ [];
            merkles = node ∷ [];
            txs = coinbase ∷ [];
            auto_add_mempool_insecure = false;
          }
            ∷ after)
mine-finds_example =
    mine-finds (λ _. zero_hash) 3 1 busy first_block coinbase refl refl (omega arith) (omega arith)
      winner_beats
