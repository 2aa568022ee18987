-- ===== src/Chain/State.antt =====
-- internal/chain/state.go: the state at the head of our chain. The inventory that a state refers
-- to is an argument of its methods. A method that fails leaves a state that its caller throws
-- away, so a failure carries no state.
mod Record
mod Updates
pub mod Utxos
pub mod Ledger
pub mod Included
pub mod Index
pub use Record.{State}
unfoldable pub use Record.{new_state}
unfoldable pub use Updates.{
  credit_balance, debit_balance, add_spend, add_spends, remove_spend, remove_spends, to_mempool,
  put_or_delete, add_mempool_tx, return_inputs, consume_inputs, add_outputs, remove_outputs,
}
pub use Updates.{output_utxo, set_or_new, must}
use basiccoin.Base.{
  ℕ, suc, ◌+◌, Bool, true, false, not, ◌||◌, Option, none, some, List, [], ◌∷◌, if◌then◌else◌, ltb,
}
use basiccoin.Base.Eq.{◌==◌, nat_eq}
use basiccoin.Base.Result.{
  Result, ok, err, panic, out_of_fuel, ◌>>=◌, ◌>>◌, guard, assert, expect, block_unknown,
  wrong_parent, tx_unknown, too_low, not_in_mempool, input_unavailable, missing_tx,
  already_included,
}
use basiccoin.Base.Word.{add64}
use basiccoin.Collections.Map as Map
use basiccoin.Collections.Set as Set
use basiccoin.Core.Tx.{Utxo, TxOut, Tx, FloatOps, utxo_eq, tx_hash, get_consumed_utxos}
use basiccoin.Hash.{HashT, hash_eq, eq_zero}
use basiccoin.Hash.Digest.{Sha256}
use basiccoin.Inv.{
  Inv, get_tx, get_tx_out, get_block, get_block_height, get_block_ancestor_depth, get_merkle_txs,
  has_block, has_tx,
}

-- The loop of `VerifyTxIncludable` over the inputs.
unfoldable pub all_included : List Utxo → Set.Set Utxo → Bool
all_included [] utxos = true
all_included (utxo ∷ rest) utxos =
    if Set.includes utxo utxos then all_included rest utxos else false

module _ {F : Type 0} ⦃float : FloatOps F⦄ where
  -- `VerifyTxIncludable`: the transaction must be in the mempool, or is put there.
  unfoldable pub ensure_in_mempool : Inv → HashT → Bool → State F → Result (State F)
  ensure_in_mempool inv tx_id auto_add_mempool_insecure s =
      if Set.includes tx_id s.mempool
      then ok s
      else if auto_add_mempool_insecure
      then add_mempool_tx inv tx_id s
      else err not_in_mempool

  -- The state comes back with the transaction in the mempool if it was added.
  unfoldable pub verify_tx_includable : Inv → HashT → Bool → State F → Result (State F)
  verify_tx_includable inv tx_id auto_add_mempool_insecure s = do
    guard (has_tx inv tx_id) tx_unknown
    tx ← get_tx inv tx_id
    height ← get_block_height inv s.head
    guard (not (ltb (add64 height 1) tx.min_block)) too_low
    s' ← ensure_in_mempool inv tx_id auto_add_mempool_insecure s
    guard (all_included (get_consumed_utxos tx) s'.utxos) input_unavailable
    ok s'

  -- The loop of `Rewind`, for one transaction.
  unfoldable pub rewind_tx : ⦃sha : Sha256⦄ → Inv → Tx → State F → Result (State F)
  rewind_tx inv tx s = do
    let tx_id : HashT = tx_hash tx
    s' ← return_inputs inv (get_consumed_utxos tx) (to_mempool tx_id tx s)
    s'' ← remove_outputs tx_id 0 tx.outputs s'
    existing_block_id ← expect (Map.lookup tx_id s''.included_tx_blocks)
    assert (existing_block_id == s''.head)
    ok (record s'' { included_tx_blocks = Map.delete tx_id s''.included_tx_blocks })

  unfoldable pub rewind_txs : ⦃sha : Sha256⦄ → Inv → List Tx → State F → Result (State F)
  rewind_txs inv [] s = ok s
  rewind_txs inv (tx ∷ txs) s = do s' ← rewind_tx inv tx s; rewind_txs inv txs s'

  unfoldable pub rewind : ⦃sha : Sha256⦄ → Inv → State F → Result (State F)
  rewind inv s = do
    assert (not (eq_zero s.head))
    r_block ← get_block inv s.head
    r_txs ← get_merkle_txs inv r_block.merkle_root
    s' ← rewind_txs inv r_txs s
    ok (record s' { head = r_block.prev_block_id })

  unfoldable pub rewind_times : ⦃sha : Sha256⦄ → Inv → ℕ → State F → Result (State F)
  rewind_times inv ℕ.zero s = ok s
  rewind_times inv (suc n) s = do s' ← rewind inv s; rewind_times inv n s'

  unfoldable pub rewind_until : ⦃sha : Sha256⦄ → Inv → HashT → State F → Result (State F)
  rewind_until inv block_id s = do
    found ← get_block_ancestor_depth inv s.head block_id
    depth ← expect found
    s' ← rewind_times inv depth s
    assert (s'.head == block_id)
    ok s'

  -- The loop of `Advance`, for one transaction.
  unfoldable pub advance_tx : ⦃sha : Sha256⦄ → Inv → HashT → Bool → Tx → State F → Result (State F)
  advance_tx inv next_block_id auto tx s = do
    let tx_id : HashT = tx_hash tx
    s₁ ← verify_tx_includable inv tx_id auto s
    height ← get_block_height inv next_block_id
    guard (not (ltb height tx.min_block)) too_low
    guard (Set.includes tx_id s₁.mempool) missing_tx
    spends ← remove_spends tx_id (get_consumed_utxos tx) s₁.mempool_utxo_spends
    s₂ ← consume_inputs inv (get_consumed_utxos tx) (record s₁ {
      mempool = (Set.remove tx_id s₁.mempool).0;
      mempool_rates = Map.delete tx_id s₁.mempool_rates;
      mempool_utxo_spends = spends;
    })
    let s₃ : State F = add_outputs tx_id 0 tx.outputs s₂
    guard (not (Map.has tx_id s₃.included_tx_blocks)) already_included
    ok (record s₃ { included_tx_blocks = Map.insert tx_id next_block_id s₃.included_tx_blocks })

  unfoldable pub advance_txs :
      ⦃sha : Sha256⦄ → Inv → HashT → Bool → List Tx → State F → Result (State F)
  advance_txs inv next_block_id auto [] s = ok s
  advance_txs inv next_block_id auto (tx ∷ txs) s = do
    s' ← advance_tx inv next_block_id auto tx s
    advance_txs inv next_block_id auto txs s'

  unfoldable pub advance : ⦃sha : Sha256⦄ → Inv → HashT → Bool → State F → Result (State F)
  advance inv next_block_id auto s = do
    guard (has_block inv next_block_id) block_unknown
    n_block ← get_block inv next_block_id
    n_txs ← get_merkle_txs inv n_block.merkle_root
    guard (n_block.prev_block_id == s.head) wrong_parent
    s' ← advance_txs inv next_block_id auto n_txs s
    ok (record s' { head = next_block_id })
