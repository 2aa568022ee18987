-- ===== src/Tests/Heads.antt =====
-- A change of the head at concrete inputs.
use basiccoin.Base.{◌≡◌, refl, false, List, ◌∷◌}
use basiccoin.Base.Eq.{list_beq}
use basiccoin.Base.Result.{ok}
use basiccoin.Chain.Handlers.{advance_all, reorganise}
use basiccoin.Chain.Refinement.{Ledger, ledger_of, Back, Forth, reorganise-Forth}
use basiccoin.Chain.State.{
  advance, advance_txs, advance_tx, rewind_until, rewind_times, verify_tx_includable,
  ensure_in_mempool, all_included, remove_spends, consume_inputs, add_outputs,
}
use basiccoin.Collections.Map as Map
use basiccoin.Collections.Set as Set
use basiccoin.Core.Block.{block_hash, merkle_hash}
use basiccoin.Core.Tx.{tx_hash, get_consumed_utxos, tx_in_hash, tx_out_hash, utxo_hash}
use basiccoin.Hash.{HashT, hash_eq, eq, eq_zero, of_bytes, fill_bytes}
use basiccoin.Hash.Digest.{
  dhash_bytes, dhash_uint64, dhash_bool, concat_bytes, dhash_hashes, dhash_list,
}
use basiccoin.Inv.{
  new_inv, has_block, has_merkle, has_tx, get_tx, get_block, get_block_record, get_block_height,
  get_block_parent_id, get_merkle, get_merkle_txs, get_txs, get_merkle_tx_ids, collect_tx_ids,
  children, get_block_lca, lower_to, step_both, get_block_ancestor_depth, depth_from,
  get_block_ancestors_until, ancestors_until_from,
}
use basiccoin.Tests.Samples.{sample_sha, sample_float, first_block, inv₃, waiting, at_first}

reorganised : reorganise inv₃ waiting (block_hash first_block) false ≡ ok at_first
unfolding reorganise advance_all advance advance_txs advance_tx rewind_until rewind_times
    verify_tx_includable ensure_in_mempool all_included remove_spends consume_inputs add_outputs
    get_consumed_utxos has_block has_merkle has_tx get_tx get_block get_block_record
    get_block_height get_block_parent_id get_merkle get_merkle_txs get_txs get_merkle_tx_ids
    collect_tx_ids children get_block_lca lower_to step_both get_block_ancestor_depth depth_from
    get_block_ancestors_until ancestors_until_from Map.has Map.lookup Map.insert Map.delete
    Set.includes Set.remove Set.add new_inv list_beq eq eq_zero tx_hash block_hash merkle_hash
    dhash_bytes dhash_uint64 dhash_bool dhash_hashes dhash_list concat_bytes of_bytes fill_bytes
    tx_in_hash tx_out_hash utxo_hash
reorganised = refl

reorganise-Forth_example :
    (fork : Ledger) × (ids : List HashT) × (get_block_lca inv₃ waiting.head (block_hash first_block)
      ≡ ok fork.head)
    × (get_block_ancestors_until inv₃ (block_hash first_block) fork.head ≡ ok ids)
    × Back inv₃ (ledger_of waiting) fork
    × Forth inv₃ (block_hash first_block ∷ ids) fork (ledger_of at_first)
reorganise-Forth_example =
    reorganise-Forth inv₃ waiting at_first (block_hash first_block) false reorganised
