-- ===== src/Core/Verify.antt =====
-- pkg/core/verify.go: the rules for transactions, merkle nodes and blocks, over the reading
-- methods of an inventory. A panic of the inventory ends the verification with that panic.
pub mod TxRules
pub mod BlockRules
use basiccoin.Base.{
  ℕ, zero, suc, ◌+◌, ◌-◌, ◌*◌, ◌/◌, ◌%◌, ◌≡◌, refl, Bool, true, false, not, ◌&&◌, Option, none,
  some, List, [], ◌∷◌, ltb, leb, if◌then◌else◌, length, get_elem?,
}
use basiccoin.Base.Eq.{Eq, ◌==◌, nat_eq}
use basiccoin.Base.Result.{
  Result, Error, ok, err, panic, ◌>>=◌, ◌>>◌, guard, assert, expect, utxo_not_found,
  public_key_mismatch, value_mismatch, signature_invalid, tx_too_large, coinbase_has_inputs,
  coinbase_outputs, coinbase_reward, no_surplus, left_child_unknown, right_child_unknown,
  children_share_txs, merkle_too_large, misses_target, merkle_root_unknown, parent_unknown, no_txs,
  too_many_txs, coinbase_min_block, first_not_coinbase, second_coinbase, unbalanced,
  block_too_large, before_median, before_period, too_far_ahead, target_too_hard, target_too_easy,
  target_changed, first_target_wrong,
}
use basiccoin.Base.Word.{add64, sub64, mod64}
use basiccoin.Base.Sort.{sort}
use basiccoin.Collections.Set as Set
use basiccoin.Collections.Queue as Queue
use basiccoin.Core.Params.{Params}
use basiccoin.Core.Tx.{
  Utxo, TxIn, TxOut, Tx, inputs_value, outputs_value, vsize, has_surplus, tx_hash_pre_sig,
}
use basiccoin.Core.Crypto.{Ecdsa, ecdsa_verify}
use basiccoin.Core.Block.{MerkleNode, Block, block_hash, block_max_txs}
use basiccoin.Hash.{HashT, eq_zero, lt, hash_eq, min_next_target, max_next_target}
use basiccoin.Hash.Digest.{Sha256, dhash_bytes}

-- The interface that the verifier reads. A method that panics on an unknown id returns a result.
pub record InvVerifier : Type 0 where
  pub has_block : HashT → Bool
  pub get_block : HashT → Result Block
  pub get_block_height : HashT → Result ℕ
  pub get_block_ancestors : HashT → ℕ → Result (List HashT)
  pub get_block_specific_ancestor : HashT → ℕ → Result HashT
  pub has_merkle : HashT → Bool
  pub get_merkle_tx_ids : HashT → Result (List HashT)
  pub get_merkle_txs : HashT → Result (List Tx)
  pub get_merkle_vsize : HashT → Result ℕ
  pub has_tx_out : HashT → ℕ → Bool
  pub get_tx_out : HashT → ℕ → Result TxOut
  pub has_entity : HashT → Bool
  pub get_entity_vsize : HashT → Result ℕ

-- The loop over the signatures in `VerifyTxIsolated`.
unfoldable pub verify_signatures : ⦃ecdsa : Ecdsa⦄ → HashT → List TxIn → Result (Unit {0})
verify_signatures pre_sig_hash [] = ok tt
verify_signatures pre_sig_hash (txi ∷ rest) =
    elim (ecdsa_verify txi.public_key pre_sig_hash txi.signature) [
      | some true ↦ verify_signatures pre_sig_hash rest
      | _ ↦ err signature_invalid
    ]

-- The rules of `VerifyTxIsolated` on the kind of the transaction.
unfoldable pub verify_kind : Params → Tx → Result (Unit {0})
verify_kind params tx =
    if tx.is_coinbase
    then (do
      guard (not (ltb 0 (length tx.inputs))) coinbase_has_inputs
      guard (length tx.outputs == 1) coinbase_outputs
      guard (not (ltb (outputs_value tx) params.block_reward)) coinbase_reward)
    else guard (has_surplus tx) no_surplus

module _ ⦃sha : Sha256⦄ where
  unfoldable pub verify_tx_isolated : ⦃ecdsa : Ecdsa⦄ → Params → Tx → Result (Unit {0})
  verify_tx_isolated params tx = do
    verify_signatures (tx_hash_pre_sig tx.min_block tx.outputs) tx.inputs
    guard (not (ltb params.max_tx_vsize (vsize tx))) tx_too_large
    verify_kind params tx

  -- The loop over the inputs in `VerifyTx`.
  unfoldable pub verify_origins : InvVerifier → List TxIn → Result (Unit {0})
  verify_origins inv [] = ok tt
  verify_origins inv (txi ∷ rest) = do
    guard (inv.has_tx_out txi.utxo.tx_id txi.utxo.ind) utxo_not_found
    origin ← inv.get_tx_out txi.utxo.tx_id txi.utxo.ind
    guard (dhash_bytes txi.public_key == origin.public_key_hash) public_key_mismatch
    guard (txi.utxo.value == origin.value) value_mismatch
    verify_origins inv rest

  unfoldable pub verify_tx : ⦃ecdsa : Ecdsa⦄ → Params → InvVerifier → Tx → Result (Unit {0})
  verify_tx params inv tx = do verify_tx_isolated params tx; verify_origins inv tx.inputs

-- The size of the right child, if it is another one, when it shares no transaction with the left.
unfoldable pub verify_right_child : InvVerifier → MerkleNode → ℕ → Result ℕ
verify_right_child inv node total_size = if node.r_child == node.l_child then ok total_size else do
  guard (inv.has_entity node.r_child) right_child_unknown
  r_size ← inv.get_entity_vsize node.r_child
  l_txs ← inv.get_merkle_tx_ids node.l_child
  r_txs ← inv.get_merkle_tx_ids node.r_child
  guard (not (Set.has_intersection (Set.new_set_from_list l_txs) (Set.new_set_from_list r_txs)))
      children_share_txs
  ok (add64 total_size r_size)

unfoldable pub verify_merkle : Params → InvVerifier → MerkleNode → Result (Unit {0})
verify_merkle params inv node = do
  guard (inv.has_entity node.l_child) left_child_unknown
  l_size ← inv.get_entity_vsize node.l_child
  total_size ← verify_right_child inv node (add64 0 l_size)
  guard (not (ltb params.max_block_vsize total_size)) merkle_too_large

-- The loop of `VerifyBlock` over the transactions, from the second one on.
unfoldable pub sum_rest : List Tx → ℕ → ℕ → Result (ℕ × ℕ)
sum_rest [] total_inputs total_outputs = ok (total_inputs, total_outputs)
sum_rest (tx ∷ txs) total_inputs total_outputs = do
  guard (not tx.is_coinbase) second_coinbase
  sum_rest txs (add64 total_inputs (inputs_value tx)) (add64 total_outputs (outputs_value tx))

-- The checks on the transactions of a block at the given height.
unfoldable pub verify_block_txs : Params → ℕ → List Tx → Result (Unit {0})
verify_block_txs params height txs = do
  (first, rest) ← expect (Queue.pop txs)
  guard (first.min_block == height) coinbase_min_block
  guard first.is_coinbase first_not_coinbase
  totals ←
      sum_rest rest (add64 params.block_reward (inputs_value first)) (add64 0 (outputs_value first))
  guard (totals.0 == totals.1) unbalanced

unfoldable pub drop_last_zero : List HashT → List HashT
drop_last_zero [] = []
drop_last_zero (h ∷ []) = if eq_zero h then [] else h ∷ []
drop_last_zero (h ∷ g ∷ hs) = h ∷ drop_last_zero (g ∷ hs)

unfoldable pub mined_times : InvVerifier → List HashT → Result (List ℕ)
mined_times inv [] = ok []
mined_times inv (id ∷ ids) = do
  block ← inv.get_block id
  times ← mined_times inv ids
  ok (block.mined_time ∷ times)

-- The median of times that are sorted; the mean of the middle two if they are even in number.
unfoldable pub median : List ℕ → Result ℕ
median times =
    if length times % 2 == 0
    then (do
      a ← expect (get_elem? times (length times / 2 - 1))
      b ← expect (get_elem? times (length times / 2))
      ok (add64 a b / 2))
    else expect (get_elem? times ((length times - 1) / 2))

unfoldable pub verify_median : InvVerifier → Block → Result (Unit {0})
verify_median inv b = if eq_zero b.prev_block_id then ok tt else do
  ancestor_ids ← inv.get_block_ancestors b.prev_block_id 4
  times ← mined_times inv (drop_last_zero (b.prev_block_id ∷ ancestor_ids))
  middle ← median (sort ltb times)
  guard (ltb middle b.mined_time) before_median

-- In the source the test reads `newBlockHeight+1%DifficultyPeriod == 0`, where `%` binds tighter.
unfoldable pub last_in_period_test : ℕ → ℕ → Result Bool
last_in_period_test height period = do r ← mod64 1 period; ok (add64 height r == 0)

unfoldable pub period_first_id : Params → InvVerifier → Block → ℕ → Result HashT
period_first_id params inv b height =
    if add64 height 1 == params.difficulty_period
    then (do
      root ← inv.get_block_specific_ancestor b.prev_block_id (sub64 params.difficulty_period 2)
      assert (eq_zero root)
      inv.get_block_specific_ancestor b.prev_block_id (sub64 params.difficulty_period 3))
    else inv.get_block_specific_ancestor b.prev_block_id (sub64 params.difficulty_period 2)

unfoldable pub verify_period : Params → InvVerifier → Block → ℕ → Result (Unit {0})
verify_period params inv b height = do
  is_last ← last_in_period_test height params.difficulty_period
  if is_last
      then (do
        first_block_id ← period_first_id params inv b height
        first ← inv.get_block first_block_id
        guard (ltb first.mined_time b.mined_time) before_period)
      else ok tt

unfoldable pub verify_target : Params → InvVerifier → Block → ℕ → Result (Unit {0})
verify_target params inv b height =
    if eq_zero b.prev_block_id
    then guard (b.target == params.original_target) first_target_wrong
    else do
      prev ← inv.get_block b.prev_block_id
      r ← mod64 height params.difficulty_period
      if r == 0
          then (do
            min_target ← min_next_target prev.target
            guard (not (lt b.target min_target)) target_too_hard
            max_target ← max_next_target params.max_target prev.target
            guard (not (lt max_target b.target)) target_too_easy)
          else guard (b.target == prev.target) target_changed

module _ ⦃sha : Sha256⦄ where
  unfoldable pub verify_block_isolated : Block → Result (Unit {0})
  verify_block_isolated b = guard (lt (block_hash b) b.target) misses_target

  -- `now` is the Unix time at which the last but one check is made.
  unfoldable pub verify_block : Params → InvVerifier → ℕ → Block → Result (Unit {0})
  verify_block params inv now b = do
    verify_block_isolated b
    guard (inv.has_merkle b.merkle_root) merkle_root_unknown
    guard (inv.has_block b.prev_block_id) parent_unknown
    txs ← inv.get_merkle_txs b.merkle_root
    guard (not (length txs == 0)) no_txs
    max_txs ← block_max_txs params
    guard (not (ltb max_txs (length txs))) too_many_txs
    parent_height ← inv.get_block_height b.prev_block_id
    let height : ℕ = add64 parent_height 1
    verify_block_txs params height txs
    size ← inv.get_merkle_vsize b.merkle_root
    guard (not (ltb params.max_block_vsize size)) block_too_large
    verify_median inv b
    verify_period params inv b height
    guard (not (ltb (add64 now 3600) b.mined_time)) too_far_ahead
    verify_target params inv b height
