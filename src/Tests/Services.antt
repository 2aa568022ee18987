-- ===== src/Tests/Services.antt =====
-- Topics, maps on disk and the chain's loop at concrete inputs.
use basiccoin.Base.{
  ℕ, ◌≡◌, ◌≢◌, refl, ap, sym, ◌∙◌, true, false, none, some, List, [], ◌∷◌, ◌++◌, arith, length,
}
use basiccoin.Base.Eq.{list_beq}
use basiccoin.Base.Result.{ok}
use basiccoin.Chain.Handlers.{
  CandidateHead, advance_all, reorganise, handle_candidate_head, switch_head, insert_all,
  insert_txs, insert_merkles, insert_blocks, has_more_work, retarget,
}
use basiccoin.Chain.Loop.{
  Turn, candidate_head, head_height, tx_confirms, take_turn, turns, loop, new_chain, Reply,
}
use basiccoin.Chain.Loop.Answers.{loop-answers}
use basiccoin.Chain.Loop.Balances.{IsAccount, loop-IsAccount}
use basiccoin.Chain.State.Index.Moves.{IsKeyed}
use basiccoin.Chain.Loop.Invariant.{blocks_in, loop-IsSound}
use basiccoin.Chain.Loop.Restart.{loop-restarts}
use basiccoin.Chain.Loop.Sound.{IsSound}
use basiccoin.Chain.SavedHead.{HeadFile, save_head_to_file}
use basiccoin.Chain.State.{
  new_state, advance, advance_txs, advance_tx, rewind_until, rewind_times, verify_tx_includable,
  add_mempool_tx, ensure_in_mempool, all_included, remove_spends, consume_inputs, add_outputs,
  to_mempool, add_spends,
}
use basiccoin.Collections.DiskSyncMap.{
  Use, storing, asking, getting, restarting, new_disk_sync_map, run_disk, run_map, saved,
}
use basiccoin.Collections.DiskSyncMap.Refinement.{run_disk-run_map}
use basiccoin.Collections.Map as Map
use basiccoin.Collections.Set as Set
use basiccoin.Core.Block.{block_hash, merkle_hash}
use basiccoin.Core.Block.Ids.{block_hash-IsHash}
use basiccoin.Core.Tx.{tx_hash, get_consumed_utxos, tx_in_hash, tx_out_hash, utxo_hash}
use basiccoin.Hash.{HashT, hash_eq, eq, eq_zero, of_bytes, fill_bytes, lt, lt_bytes, zero_hash}
use basiccoin.Hash.Digest.{
  dhash_bytes, dhash_uint64, dhash_bool, concat_bytes, dhash_hashes, dhash_list,
}
use basiccoin.Inv.{
  new_inv, has_block, has_merkle, has_tx, get_tx, get_block, get_block_record, get_block_height,
  get_block_total_work, get_block_parent_id, get_merkle, get_merkle_txs, get_txs, get_merkle_tx_ids,
  collect_tx_ids, children, get_block_lca, lower_to, step_both, get_block_ancestor_depth,
  depth_from, get_block_ancestors_until, ancestors_until_from, BlockRecord,
}
use basiccoin.Inv.Forest.{new_inv-IsValid}
use basiccoin.Inv.OnDisk.{block_texts, block_texts-IsLawful}
use basiccoin.Inv.Serialize.RoundTrip.{block_record_from_string_lem}
use basiccoin.Tests.Records.{first_record-IsStored}
use basiccoin.Tests.Samples.{
  sample_sha, sample_ecdsa, sample_float, sample_params, easy_target-IsHash, coinbase, node,
  first_block, first_record, inv₃,
}
use basiccoin.Topic.{new_topic, sub, Action, subscribe, collect, publish_all, pop_of, close_of, run}
use basiccoin.Topic.Queues.{Holds}
use basiccoin.Topic.Delivery.{published, read_from, run-read_from}

abbrev topic_actions : List (Action ℕ)
topic_actions =
    publish_all (7 ∷ 8 ∷ [])
    ∷ subscribe
    ∷ pop_of 0
    ∷ close_of 1
    ∷ collect
    ∷ publish_all (9 ∷ [])
    ∷ []

topic_subscribed : Holds 0 [] (sub {T = ℕ} new_topic).0
unfolding sub new_topic Map.insert Map.lookup
topic_subscribed = refl

next_of : (sub {T = ℕ} new_topic).0.next_id ≡ 1
unfolding sub new_topic
next_of = refl

run-read_from_example :
    (waiting : List ℕ) × Holds 0 waiting (run topic_actions (sub new_topic).0).0
    × (read_from 0 (run topic_actions (sub new_topic).0).1 ++ waiting
        ≡ [] ++ published topic_actions)
run-read_from_example =
    run-read_from topic_actions 0 [] (sub new_topic).0 topic_subscribed
      ((λ e. absurd (omega (arith, e))), tt) (omega (arith, next_of)) (omega (arith, next_of))

abbrev disk_uses : List (Use HashT BlockRecord)
disk_uses =
    storing (block_hash first_block) first_record
    ∷ restarting
    ∷ asking (block_hash first_block)
    ∷ getting (block_hash first_block)
    ∷ asking zero_hash
    ∷ []

run_disk-run_map_example :
    run_disk block_texts disk_uses (new_disk_sync_map block_texts [] []) ≡ run_map disk_uses []
run_disk-run_map_example =
    run_disk-run_map block_texts [] disk_uses block_texts-IsLawful
      (block_record_from_string_lem first_record first_record-IsStored, (tt, (tt, (tt, (tt, tt)))))

abbrev all_at_once : CandidateHead
all_at_once = record {
  head = block_hash first_block;
  blocks = first_block ∷ [];
  merkles = node ∷ [];
  txs = coinbase ∷ [];
  auto_add_mempool_insecure = true;
}

abbrev some_turns : List Turn
some_turns = head_height ∷ candidate_head 50 all_at_once ∷ []

one_block : length (new_inv sample_params).blocks ≡ 1
unfolding new_inv Map.insert
one_block = refl

blocks_coming : blocks_in some_turns ≡ 1
unfolding blocks_in
blocks_coming = refl

new_inv-IsKeyed : IsKeyed (new_inv sample_params)
unfolding new_inv get_tx Map.lookup
new_inv-IsKeyed id tx found = absurd cc

loop-IsSound_example :
    IsSound {F = ℕ} 0 (loop some_turns (new_chain (new_inv sample_params) true none).0).0
loop-IsSound_example =
    loop-IsSound ℕ (new_inv sample_params) true none some_turns (new_inv-IsValid sample_params)
      new_inv-IsKeyed (tt, ((easy_target-IsHash, tt), tt)) (omega (arith, one_block, blocks_coming))

loop-answers_example :
    (r : Reply) × (take_turn {F = ℕ}
        (tx_confirms (tx_hash coinbase ∷ []))
        (loop some_turns (new_chain (new_inv sample_params) true none).0).0
      ≡ ((loop some_turns (new_chain (new_inv sample_params) true none).0).0, ok r))
loop-answers_example =
    loop-answers ℕ (new_inv sample_params) true none some_turns
      (tx_confirms (tx_hash coinbase ∷ [])) (new_inv-IsValid sample_params) new_inv-IsKeyed
      (tt, ((easy_target-IsHash, tt), tt)) (omega (arith, one_block, blocks_coming)) tt

-- A head whose block is stored already.
abbrev known_head : CandidateHead
known_head = record {
  head = block_hash first_block;
  blocks = [];
  merkles = [];
  txs = [];
  auto_add_mempool_insecure = true;
}

abbrev no_file : HeadFile
no_file = record { text = none; next_write = saved }

abbrev one_turn : List Turn
one_turn = candidate_head 50 known_head ∷ []

moved_head :
    (loop one_turn (new_chain {F = ℕ} inv₃ false (some no_file)).0).0.state.head
    ≡ block_hash first_block
unfolding loop turns take_turn new_chain retarget handle_candidate_head switch_head insert_all
    insert_txs insert_merkles insert_blocks has_more_work save_head_to_file new_state add_mempool_tx
    to_mempool reorganise advance_all advance advance_txs advance_tx rewind_until rewind_times
    verify_tx_includable ensure_in_mempool all_included remove_spends consume_inputs add_outputs
    get_consumed_utxos has_block has_merkle has_tx get_tx get_block get_block_record
    get_block_height get_block_total_work get_block_parent_id get_merkle get_merkle_txs get_txs
    get_merkle_tx_ids collect_tx_ids children get_block_lca lower_to step_both
    get_block_ancestor_depth depth_from get_block_ancestors_until ancestors_until_from Map.has
    Map.lookup Map.insert Map.delete Set.includes Set.remove Set.add new_inv list_beq eq eq_zero lt
    lt_bytes tx_hash block_hash merkle_hash dhash_bytes dhash_uint64 dhash_bool dhash_hashes
    dhash_list concat_bytes of_bytes fill_bytes tx_in_hash tx_out_hash utxo_hash add_spends
moved_head = refl

first_not_zero : block_hash first_block ≢ zero_hash
unfolding of_bytes block_hash tx_hash merkle_hash dhash_bytes dhash_uint64 dhash_bool dhash_hashes
    dhash_list concat_bytes fill_bytes tx_in_hash tx_out_hash utxo_hash
first_not_zero e = absurd (omega (arith, ap (λ (h : HashT). of_bytes h.bytes) e))

moved_head_not_zero :
    (loop one_turn (new_chain {F = ℕ} inv₃ false (some no_file)).0).0.state.head ≢ zero_hash
moved_head_not_zero e = first_not_zero (sym moved_head ∙ e)

loop-restarts_example :
    (new_chain {F = ℕ} inv₃ true
      (loop one_turn (new_chain {F = ℕ} inv₃ false (some no_file)).0).0.save_dir).1
    ≡ some (record {
      head = (loop one_turn (new_chain {F = ℕ} inv₃ false (some no_file)).0).0.state.head;
      blocks = [];
      merkles = [];
      txs = [];
      auto_add_mempool_insecure = true;
    })
loop-restarts_example =
    loop-restarts ℕ inv₃ false no_file one_turn inv₃ true refl (block_hash-IsHash first_block, tt)
      moved_head_not_zero

loop-IsAccount_example :
    IsAccount
      (loop some_turns (new_chain {F = ℕ} (new_inv sample_params) true none).0).0.inv
      (loop some_turns (new_chain {F = ℕ} (new_inv sample_params) true none).0).0.state
      zero_hash
loop-IsAccount_example =
    loop-IsAccount ℕ (new_inv sample_params) true none some_turns zero_hash
      (new_inv-IsValid sample_params) new_inv-IsKeyed (tt, ((easy_target-IsHash, tt), tt))
      (omega (arith, one_block, blocks_coming))
