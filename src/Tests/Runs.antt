-- ===== src/Tests/Runs.antt =====
-- What the code gives on the samples.
use basiccoin.Base.{All, ◌≤◌, ◌∷◌, length, some, ◌<◌, ◌^◌, ◌≡◌, refl, true, false, [], arith}
use basiccoin.Base.Eq.{list_beq}
use basiccoin.Base.Result.{ok}
use basiccoin.Chain.State.{
  ensure_in_mempool, verify_tx_includable, advance_tx, rewind_tx, all_included, to_mempool,
  remove_spends, consume_inputs, add_outputs, return_inputs, remove_outputs, credit_balance,
  debit_balance, put_or_delete, add_spends,
}
use basiccoin.Chain.State.Utxos.{outputs_from}
use basiccoin.Chain.Target.Fits.{HasSmallTx}
use basiccoin.Chain.Target.{targeter_view, select_txs, skips, include, start_selection, Selection}
use basiccoin.Collections.Map as Map
use basiccoin.Collections.Set as Set
use basiccoin.Collections.Set.{contains}
use basiccoin.Core.Block.{
  block_hash, merkle_hash, min_non_coinbase_vsize, coinbase_vsize, block_max_txs,
}
use basiccoin.Core.Difficulty.{next_target}
use basiccoin.Core.Crypto.{example_pub_der, decoded}
use basiccoin.Core.Tx.{
  tx_hash, vsize, tx_hash_pre_sig, tx_out_hash, tx_in_hash, utxo_hash, rate, get_consumed_utxos,
  inputs_value, outputs_value, tx_in_vsize, Utxo, utxo_eq, add_inputs, add_input_sizes,
  add_output_sizes, utxo_beq,
}
use basiccoin.Core.Tx as Tx
use basiccoin.Core.Verify.{
  verify_signatures, verify_kind, verify_tx_isolated, verify_origins, verify_tx, verify_right_child,
  verify_merkle, sum_rest, verify_block_txs, verify_median, last_in_period_test, verify_period,
  verify_target, verify_block_isolated, verify_block,
}
use basiccoin.Hash.{
  zero_hash, hash_eq, eq, eq_zero, lt_bytes, lt, of_bytes, fill_bytes, big_int,
  new_hash_from_big_int, target_to_work, work_append_target, hex_value, join_digits, decode_hex,
}
use basiccoin.Hash.Digest.{
  dhash_bytes, dhash_uint64, dhash_bool, concat_bytes, dhash_hashes, dhash_list,
}
use basiccoin.Inv.{
  verifier_view, new_inv, has_block, get_block_record, get_block, get_block_height,
  get_block_total_work, has_merkle, get_merkle, get_merkle_vsize, has_tx, get_tx, get_tx_vsize,
  children, collect_tx_ids, get_merkle_tx_ids, get_txs, get_merkle_txs, has_entity,
  get_entity_vsize, store_tx, store_merkle, store_block, add_right_size,
}
use basiccoin.Inv.Invariant.{IsValid}
use basiccoin.Inv.Forest.{new_inv-IsValid, store_tx-IsValid, store_merkle-IsValid}
use basiccoin.Inv.Store.{store_block-IsValid}
use basiccoin.Tests.Samples.{
  sample_sha, sample_ecdsa, sample_float, easy_target, sample_params, coinbase, coinbase_output,
  node, first_block, second_block, inv₁, inv₂, inv₃, first_record, waiting, root_record, included,
  at_first, back, easy_target-IsHash,
}

pub coinbase_stored : store_tx (new_inv sample_params) coinbase ≡ ok inv₁
unfolding store_tx has_tx Map.has Map.lookup Map.insert new_inv verify_tx inputs_value
    verify_tx_isolated verify_signatures verify_kind verify_origins outputs_value Tx.add_outputs
    vsize add_input_sizes add_output_sizes
coinbase_stored = refl

pub node_stored : store_merkle inv₁ node ≡ ok inv₂
unfolding store_merkle has_merkle Map.has Map.lookup Map.insert new_inv verify_merkle
    verify_right_child has_entity has_tx get_entity_vsize get_tx_vsize add_right_size vsize
    add_input_sizes add_output_sizes list_beq eq tx_hash dhash_bytes dhash_uint64 dhash_bool
    dhash_hashes dhash_list concat_bytes of_bytes fill_bytes tx_in_hash tx_out_hash utxo_hash
node_stored = refl

pub first_block_verified : verify_block sample_params (verifier_view inv₂) 0 first_block ≡ ok tt
unfolding has_block has_merkle has_tx has_entity get_merkle get_tx get_block_record get_block
    get_block_height get_block_total_work get_merkle_vsize get_merkle_tx_ids collect_tx_ids children
    get_txs get_merkle_txs Map.has Map.lookup Map.insert new_inv verify_block verify_block_isolated
    verify_block_txs sum_rest verify_median last_in_period_test verify_period verify_target vsize
    add_input_sizes add_output_sizes inputs_value outputs_value add_inputs Tx.add_outputs
    tx_in_vsize list_beq eq eq_zero lt lt_bytes tx_hash block_hash merkle_hash dhash_bytes
    dhash_uint64 dhash_bool dhash_hashes dhash_list concat_bytes of_bytes fill_bytes tx_in_hash
    tx_out_hash utxo_hash block_max_txs coinbase_vsize min_non_coinbase_vsize example_pub_der
    decoded decode_hex join_digits hex_value work_append_target target_to_work big_int
    new_hash_from_big_int
first_block_verified = refl

pub block_stored : store_block 0 inv₂ first_block ≡ ok inv₃
unfolding store_block has_block has_merkle has_tx has_entity get_merkle get_tx get_block_record
    get_block get_block_height get_block_total_work get_merkle_vsize get_merkle_tx_ids
    collect_tx_ids children get_txs get_merkle_txs Map.has Map.lookup Map.insert new_inv
    verify_block verify_block_isolated verify_block_txs sum_rest verify_median last_in_period_test
    verify_period verify_target vsize add_input_sizes add_output_sizes inputs_value outputs_value
    add_inputs Tx.add_outputs tx_in_vsize list_beq eq eq_zero lt lt_bytes tx_hash block_hash
    merkle_hash dhash_bytes dhash_uint64 dhash_bool dhash_hashes dhash_list concat_bytes of_bytes
    fill_bytes tx_in_hash tx_out_hash utxo_hash block_max_txs coinbase_vsize min_non_coinbase_vsize
    example_pub_der decoded decode_hex join_digits hex_value work_append_target target_to_work
    big_int new_hash_from_big_int
block_stored = refl

pub coinbase_advanced :
    advance_tx inv₃ (block_hash first_block) false coinbase waiting ≡ ok included
unfolding advance_tx verify_tx_includable ensure_in_mempool all_included remove_spends
    consume_inputs add_outputs has_tx get_tx get_block_record get_block_height get_consumed_utxos
    Map.has Map.lookup Map.insert Map.delete Set.includes Set.remove Set.add new_inv list_beq eq
    tx_hash block_hash merkle_hash dhash_bytes dhash_uint64 dhash_bool dhash_hashes dhash_list
    concat_bytes of_bytes fill_bytes tx_in_hash tx_out_hash utxo_hash
coinbase_advanced = refl

pub coinbase_rewound : rewind_tx inv₃ coinbase at_first ≡ ok back
unfolding rewind_tx return_inputs remove_outputs to_mempool add_spends rate credit_balance
    debit_balance put_or_delete get_consumed_utxos Map.has Map.lookup Map.insert Map.delete
    Set.includes Set.remove Set.add utxo_beq inputs_value add_inputs list_beq eq tx_hash block_hash
    merkle_hash dhash_bytes dhash_uint64 dhash_bool dhash_hashes dhash_list concat_bytes of_bytes
    fill_bytes tx_in_hash tx_out_hash utxo_hash
coinbase_rewound = refl

pub new_output :
    contains coinbase_output (outputs_from (tx_hash coinbase) 0 coinbase.outputs) ≡ true
unfolding utxo_beq list_beq eq tx_hash dhash_bytes dhash_uint64 dhash_bool dhash_hashes dhash_list
    concat_bytes of_bytes fill_bytes tx_in_hash tx_out_hash utxo_hash
new_output = refl

pub no_inputs : (u : Utxo) → contains u (get_consumed_utxos coinbase) ≡ false
unfolding get_consumed_utxos
no_inputs u = refl

pub nothing_unspent : (u : Utxo) → Set.includes u [] ≡ false
unfolding Set.includes Map.has Map.lookup
nothing_unspent u = refl

pub node_known : has_merkle inv₂ (merkle_hash node) ≡ true
unfolding has_merkle Map.has new_inv Map.lookup Map.insert list_beq eq tx_hash block_hash
    merkle_hash dhash_bytes dhash_uint64 dhash_bool dhash_hashes dhash_list concat_bytes of_bytes
    fill_bytes tx_in_hash tx_out_hash utxo_hash
node_known = refl

pub first_known : Map.lookup (block_hash first_block) inv₃.blocks ≡ some first_record
unfolding new_inv Map.lookup Map.insert list_beq eq tx_hash block_hash merkle_hash dhash_bytes
    dhash_uint64 dhash_bool dhash_hashes dhash_list concat_bytes of_bytes fill_bytes tx_in_hash
    tx_out_hash utxo_hash
first_known = refl

pub root_known : Map.lookup zero_hash inv₃.blocks ≡ some root_record
unfolding new_inv Map.lookup Map.insert list_beq eq tx_hash block_hash merkle_hash dhash_bytes
    dhash_uint64 dhash_bool dhash_hashes dhash_list concat_bytes of_bytes fill_bytes tx_in_hash
    tx_out_hash utxo_hash
root_known = refl

pub few₃ : length inv₃.blocks < 2 ^ 64
unfolding new_inv Map.lookup Map.insert list_beq eq tx_hash block_hash merkle_hash dhash_bytes
    dhash_uint64 dhash_bool dhash_hashes dhash_list concat_bytes of_bytes fill_bytes tx_in_hash
    tx_out_hash utxo_hash
few₃ = omega arith

pub few₂ : length inv₂.blocks < 2 ^ 64
unfolding new_inv Map.insert
few₂ = omega arith

pub second_parent : get_block inv₃ second_block.prev_block_id ≡ ok first_block
unfolding get_block get_block_record new_inv Map.lookup Map.insert list_beq eq tx_hash block_hash
    merkle_hash dhash_bytes dhash_uint64 dhash_bool dhash_hashes dhash_list concat_bytes of_bytes
    fill_bytes tx_in_hash tx_out_hash utxo_hash
second_parent = refl

pub second_height : get_block_height inv₃ second_block.prev_block_id ≡ ok 1
unfolding get_block_height get_block_record new_inv Map.lookup Map.insert list_beq eq tx_hash
    block_hash merkle_hash dhash_bytes dhash_uint64 dhash_bool dhash_hashes dhash_list concat_bytes
    of_bytes fill_bytes tx_in_hash tx_out_hash utxo_hash
second_height = refl

pub second_target :
    next_target inv₃.core_params (targeter_view inv₃) second_block.prev_block_id
    ≡ ok second_block.target
unfolding next_target eq_zero get_block get_block_height get_block_record new_inv Map.lookup
    Map.insert list_beq eq tx_hash block_hash merkle_hash dhash_bytes dhash_uint64 dhash_bool
    dhash_hashes dhash_list concat_bytes of_bytes fill_bytes tx_in_hash tx_out_hash utxo_hash
second_target = refl

pub easy_is_easy : big_int easy_target < 2 ^ 254
unfolding big_int of_bytes
easy_is_easy = omega arith

abbrev pub coinbase_selection : Selection
coinbase_selection = record {
  total_size = 224;
  consumed_utxos = [];
  tx_ids = tx_hash coinbase ∷ [];
}

pub coinbase_selected :
    select_txs inv₃ (tx_hash coinbase ∷ []) start_selection ≡ ok coinbase_selection
unfolding select_txs skips include get_tx get_consumed_utxos vsize add_input_sizes add_output_sizes
    tx_in_vsize Set.add_all Set.includes_any coinbase_vsize min_non_coinbase_vsize example_pub_der
    decoded decode_hex join_digits hex_value new_inv Map.lookup Map.insert list_beq eq tx_hash
    block_hash merkle_hash dhash_bytes dhash_uint64 dhash_bool dhash_hashes dhash_list concat_bytes
    of_bytes fill_bytes tx_in_hash tx_out_hash utxo_hash
coinbase_selected = refl

pub start_fits : start_selection.total_size ≤ 1048576
unfolding coinbase_vsize vsize add_input_sizes add_output_sizes
start_fits = omega arith

pub small_txs : All HasSmallTx inv₃.txs
unfolding new_inv Map.insert vsize add_input_sizes add_output_sizes
small_txs = (omega arith, tt)

pub inv₁-IsValid : IsValid inv₁
inv₁-IsValid =
    store_tx-IsValid (new_inv sample_params) coinbase (new_inv-IsValid sample_params)
      coinbase_stored

pub inv₂-IsValid : IsValid inv₂
inv₂-IsValid = store_merkle-IsValid inv₁ node inv₁-IsValid node_stored

pub inv₃-IsValid : IsValid inv₃
inv₃-IsValid =
    store_block-IsValid 0 inv₂ first_block inv₂-IsValid easy_target-IsHash few₂ block_stored
