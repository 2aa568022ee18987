-- ===== src/Tests.antt =====
-- The theorems at concrete inputs.
mod Samples
mod Runs
mod Network
mod Peers
mod Records
mod Services
mod Heads
mod Mining
use basiccoin.Base.{
  none, ℕ, ◌≡◌, ◌≢◌, refl, ap, not, ◌&&◌, ◌||◌, true, false, some, List, [], ◌∷◌, All, map, arith,
  length, ◌^◌, ◌*◌, ◌+◌, ◌/◌, ◌<◌, ◌≤◌, ◌↔◌, ltb,
}
use basiccoin.Base.Eq.{list_beq}
use basiccoin.Base.Result.{ok}
use Prim.Native.Nat.{min}
use basiccoin.Base.Word.{add64}
use basiccoin.Chain.State.{State, advance_tx, rewind_tx}
use basiccoin.Chain.State.Utxos.{outputs_from}
use basiccoin.Chain.State.Ledger.{
  Advanced, Rewound, advance_tx-Advanced, rewind_tx-Rewound, advance_tx-rewind_tx,
}
use basiccoin.Chain.Handlers.{Chain, CandidateHead, handle_candidate_head}
use basiccoin.Chain.Atomic.{Settled, handle_candidate_head-Settled}
use basiccoin.Collections.Map as Map
use basiccoin.Collections.Set as Set
use basiccoin.Core.Block.{block_hash, merkle_hash}
use basiccoin.Core.Tx.{Tx, utxo_eq, tx_hash, has_surplus}
use basiccoin.Core.Tx.Values.{exact_inputs, exact_outputs, has_surplus_wraps}
use basiccoin.Core.Difficulty.{clamp_target}
use basiccoin.Core.Difficulty.Bounds.{clamp_target_lem}
use basiccoin.Chain.Target.Accepted.{next_target-accepted}
use basiccoin.Hash.Value.{lt-big_int, zero_hash-IsHash}
use basiccoin.Hash.Target.{work_append_target_lem}
use basiccoin.Core.Verify.{verify_target, verify_block, verify_block_txs, verify_period}
use basiccoin.Core.Verify.BlockRules.{
  IsBalanced, IsVerified, verify_block_txs_iff, verify_block_sound, verify_period_idle,
}
use basiccoin.Hash.{
  HashT, lt, big_int, string, new_hash_from_string, new_hash_from_big_int, work_append_target,
  big_int2_256, eq, of_bytes, fill_bytes, IsHash, hash_eq, zero_hash,
}
use basiccoin.Hash.Digest.{
  dhash_bytes, dhash_uint64, dhash_bool, concat_bytes, dhash_hashes, dhash_list,
}
use basiccoin.Inv.{
  Inv, BlockRecord, new_inv, verifier_view, store_tx, store_merkle, store_block, has_merkle, has_tx,
  get_merkle_tx_ids, get_block_lca, get_block_ancestor_depth,
}
use basiccoin.Inv.Invariant.{IsValid}
use basiccoin.Inv.Forest.{new_inv-IsValid, store_tx-IsValid, store_merkle-IsValid}
use basiccoin.Inv.Store.{store_block-IsValid}
use basiccoin.Inv.Walks.{Above, Finds, get_block_ancestor_depth_lem}
use basiccoin.Inv.Lca.{get_block_lca_lem}
use basiccoin.Inv.Trees.{get_merkle_tx_ids_lem}
use basiccoin.Tests.Samples.{
  first_work-IsHash, easy_not_zero, work_fits, sample_sha, sample_ecdsa, sample_float, easy_target,
  easy_target-IsHash, sample_params, coinbase, coinbase_output, node, first_block, second_block,
  inv₁, inv₂, inv₃, first_work, first_record, waiting, included, at_first, back, root_record,
}
use basiccoin.Chain.Target.{start_selection}
use basiccoin.Chain.Target.Fits.{IsPacked, select_txs-IsPacked}
use basiccoin.Tests.Runs.{
  inv₂-IsValid, inv₃-IsValid, small_txs, coinbase_selection, coinbase_selected, start_fits,
  coinbase_stored, first_block_verified, node_stored, block_stored, coinbase_advanced,
  coinbase_rewound, new_output, no_inputs, nothing_unspent, node_known, first_known, root_known,
  few₂, few₃, second_parent, second_height, second_target, easy_is_easy,
}

advance_tx-Advanced_example : Advanced coinbase waiting included
advance_tx-Advanced_example =
    advance_tx-Advanced inv₃ (block_hash first_block) false coinbase waiting included
      coinbase_advanced

rewind_tx-Rewound_example : Rewound coinbase at_first back
rewind_tx-Rewound_example = rewind_tx-Rewound inv₃ coinbase at_first back coinbase_rewound

advance_tx-rewind_tx_example :
    Set.includes coinbase_output back.utxos ≡ Set.includes coinbase_output waiting.utxos
advance_tx-rewind_tx_example =
    advance_tx-rewind_tx inv₃ (block_hash first_block) false coinbase waiting included at_first back
      coinbase_advanced refl coinbase_rewound
      (λ u _. ground (arith, no_inputs u, nothing_unspent u)) coinbase_output

abbrev sample_chain : Chain ℕ
sample_chain = record {
  inv = inv₁;
  state = waiting;
  support_miners = true;
  save_dir = none;
  published = [];
}

abbrev sample_event : CandidateHead
sample_event = record {
  head = block_hash first_block;
  blocks = first_block ∷ [];
  merkles = node ∷ [];
  txs = coinbase ∷ [];
  auto_add_mempool_insecure = true;
}

handle_candidate_head-Settled_example :
    Settled ℕ sample_event.head sample_chain.state.head sample_chain
      (handle_candidate_head 50 sample_event sample_chain).0
handle_candidate_head-Settled_example = handle_candidate_head-Settled ℕ 50 sample_event sample_chain

store_block-IsValid_example : IsValid inv₃
store_block-IsValid_example =
    store_block-IsValid 0 inv₂ first_block inv₂-IsValid easy_target-IsHash few₂ block_stored

verify_block_sound_example : IsVerified sample_params (verifier_view inv₂) 0 first_block
verify_block_sound_example =
    verify_block_sound sample_params (verifier_view inv₂) 0 first_block first_block_verified

verify_block_txs_iff_example :
    (verify_block_txs sample_params 1 (coinbase ∷ []) ≡ ok tt)
    ↔ IsBalanced sample_params 1 (coinbase ∷ [])
verify_block_txs_iff_example = verify_block_txs_iff sample_params 1 (coinbase ∷ [])

verify_period_idle_example : verify_period sample_params (verifier_view inv₂) first_block 8 ≡ ok tt
verify_period_idle_example =
    verify_period_idle sample_params (verifier_view inv₂) first_block 8 (omega arith) (omega arith)

abbrev payment : ℕ → List ℕ → Tx
payment paid received = record {
  is_coinbase = false;
  min_block = 1;
  inputs =
      record {
        utxo = record { tx_id = zero_hash; ind = 0; value = paid };
        public_key = [];
        signature = [];
      }
      ∷ [];
  outputs = map (λ v. record { value = v; public_key_hash = zero_hash }) received;
}

has_surplus_wraps_example :
    (has_surplus (payment 10 (2 ^ 63 ∷ 2 ^ 63 ∷ [])) ≡ true)
    × (exact_inputs (payment 10 (2 ^ 63 ∷ 2 ^ 63 ∷ [])).inputs
        < exact_outputs (payment 10 (2 ^ 63 ∷ 2 ^ 63 ∷ [])).outputs)
has_surplus_wraps_example =
    has_surplus_wraps (payment 10 (2 ^ 63 ∷ 2 ^ 63 ∷ [])) (omega arith) (omega arith) (omega arith)

get_merkle_tx_ids_lem_example :
    (ids : List HashT) × (get_merkle_tx_ids inv₂ (merkle_hash node) ≡ ok ids)
    × All (λ id. has_tx inv₂ id ≡ true) ids
get_merkle_tx_ids_lem_example =
    get_merkle_tx_ids_lem inv₂ inv₂-IsValid.forest (merkle_hash node) node_known

get_block_ancestor_depth_lem_example :
    Finds inv₃ zero_hash
      (block_hash first_block)
      0
      (get_block_ancestor_depth inv₃ (block_hash first_block) zero_hash)
get_block_ancestor_depth_lem_example =
    get_block_ancestor_depth_lem inv₃ inv₃-IsValid.tree (block_hash first_block) zero_hash
      first_record first_known few₃

get_block_lca_lem_example :
    (n m : ℕ) × (a : HashT) × (get_block_lca inv₃ (block_hash first_block) zero_hash ≡ ok a)
    × Above inv₃.blocks n a (block_hash first_block)
    × Above inv₃.blocks m a zero_hash
    × ((k j : ℕ) (c : HashT)
        → Above inv₃.blocks k c (block_hash first_block)
        → Above inv₃.blocks j c zero_hash
        → n ≤ k)
get_block_lca_lem_example =
    get_block_lca_lem inv₃ inv₃-IsValid.tree (block_hash first_block) zero_hash first_record
      root_record first_known root_known

next_target-accepted_example :
    verify_target inv₃.core_params (verifier_view inv₃) second_block (add64 1 1) ≡ ok tt
unfolding new_inv
next_target-accepted_example =
    next_target-accepted inv₃ first_block second_block 1 second_parent second_height
      easy_target-IsHash easy_target-IsHash easy_is_easy (omega arith) second_target

lt-big_int_example : lt zero_hash easy_target ≡ ltb (big_int zero_hash) (big_int easy_target)
lt-big_int_example = lt-big_int zero_hash easy_target zero_hash-IsHash easy_target-IsHash

clamp_target_lem_example :
    (t : HashT) × (clamp_target sample_params easy_target first_work ≡ ok t)
    × IsHash t
    × (big_int easy_target / 4 ≤ big_int t)
    × (big_int t ≤ min (big_int easy_target) (4 * big_int easy_target))
clamp_target_lem_example =
    clamp_target_lem sample_params easy_target first_work easy_target-IsHash easy_target-IsHash
      first_work-IsHash easy_is_easy (omega arith)

work_append_target_lem_example :
    (u : HashT) × (work_append_target first_work easy_target ≡ ok u)
    × IsHash u
    × (big_int u ≡ big_int first_work + big_int2_256 / big_int easy_target)
work_append_target_lem_example =
    work_append_target_lem first_work easy_target first_work-IsHash easy_target-IsHash easy_not_zero
      work_fits

select_txs-IsPacked_example : IsPacked inv₃ coinbase_selection
unfolding new_inv
select_txs-IsPacked_example =
    select_txs-IsPacked inv₃ (tx_hash coinbase ∷ []) coinbase_selection start_fits (omega arith)
      small_txs coinbase_selected
