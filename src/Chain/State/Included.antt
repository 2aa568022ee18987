-- ===== src/Chain/State/Included.antt =====
-- The blocks that internal/chain/state.go records its transactions in.
use basiccoin.Base.{
  ℕ, zero, suc, ◌≡◌, sym, ◌∙◌, ap, Bool, true, not, some, List, [], ◌∷◌, ltb, arith, inl, inr,
}
use mathlib.Core.Path.{subst}
use basiccoin.Base.Eq.{◌==◌}
use basiccoin.Base.Result.{ok, expect, >>=-eq-ok, guard-eq-ok, assert-eq-ok, ok-injective}
use basiccoin.Chain.State.{
  State, advance_tx, advance_txs, advance, rewind_tx, rewind_txs, rewind, rewind_times,
  rewind_until, verify_tx_includable, remove_spends, consume_inputs, add_outputs, return_inputs,
  remove_outputs, to_mempool,
}
use basiccoin.Chain.State.Ledger.{SameLedger, verify_tx_includable-eq-ok}
use basiccoin.Chain.State.Utxos.{
  consume_inputs-eq-ok, add_outputs_lem, return_inputs-eq-ok, remove_outputs-eq-ok,
}
use basiccoin.Collections.Map as Map
use basiccoin.Collections.Map.{lookup-insert_cases, lookup-delete}
use basiccoin.Collections.Set as Set
use basiccoin.Core.Tx.{Tx, FloatOps, utxo_eq, tx_hash, get_consumed_utxos}
use basiccoin.Hash.{HashT, hash_eq, eq_zero}
use basiccoin.Hash.Digest.{Sha256}
use basiccoin.Inv.{
  Inv, has_block, get_block, get_block_height, get_block_ancestor_depth, get_merkle_txs,
}

-- Every block in which a transaction is recorded is stored.
abbrev pub OnlyStored : {F : Type 0} → Inv → State F → Type 0
OnlyStored inv s =
    (tx_id block_id : HashT)
    → Map.lookup tx_id s.included_tx_blocks ≡ some block_id
    → has_block inv block_id ≡ true

module _ {F : Type 0} ⦃float : FloatOps F⦄ ⦃sha : Sha256⦄ (inv : Inv) where
  advance_tx-included :
      (block_id : HashT) (auto : Bool) (tx : Tx) (s s' : State F)
      → advance_tx inv block_id auto tx s ≡ ok s'
      → s'.included_tx_blocks ≡ Map.insert (tx_hash tx) block_id s.included_tx_blocks
  unfolding advance_tx
  advance_tx-included block_id auto tx s s' e =
      let tx_id : HashT = tx_hash tx in
      let (s₁, includable, e₁) = >>=-eq-ok (verify_tx_includable inv tx_id auto s) _ e in
      let (height, _, e₂) = >>=-eq-ok (get_block_height inv block_id) _ e₁ in
      let (_, e₃) = guard-eq-ok (not (ltb height tx.min_block)) _ _ e₂ in
      let (_, e₄) = guard-eq-ok (Set.includes tx_id s₁.mempool) _ _ e₃ in
      let (spends, _, e₅) =
        >>=-eq-ok (remove_spends tx_id (get_consumed_utxos tx) s₁.mempool_utxo_spends) _ e₄ in
      let out : State F = record s₁ {
        mempool = (Set.remove tx_id s₁.mempool).0;
        mempool_rates = Map.delete tx_id s₁.mempool_rates;
        mempool_utxo_spends = spends;
      } in
      let (s₂, consumed, e₆) = >>=-eq-ok (consume_inputs inv (get_consumed_utxos tx) out) _ e₅ in
      let s₃ : State F = add_outputs tx_id 0 tx.outputs s₂ in
      let (_, e₇) = guard-eq-ok (not (Map.has tx_id s₃.included_tx_blocks)) _ _ e₆ in
      let same : SameLedger s s₁ = verify_tx_includable-eq-ok inv tx_id auto s s₁ includable in
      let frame₁ = (consume_inputs-eq-ok inv (get_consumed_utxos tx) out s₂ consumed).0 in
      let frame₂ = (add_outputs_lem tx_id 0 tx.outputs s₂).0 in
      ap (λ (t : State F). t.included_tx_blocks) (sym (ok-injective _ _ e₇))
      ∙ ap (Map.insert tx_id block_id) (frame₂.included ∙ frame₁.included ∙ same.included)

  rewind_tx-included :
      (tx : Tx) (s s' : State F)
      → rewind_tx inv tx s ≡ ok s'
      → s'.included_tx_blocks ≡ Map.delete (tx_hash tx) s.included_tx_blocks
  unfolding rewind_tx to_mempool
  rewind_tx-included tx s s' e =
      let tx_id : HashT = tx_hash tx in
      let (s₁, returned, e₁) =
        >>=-eq-ok (return_inputs inv (get_consumed_utxos tx) (to_mempool tx_id tx s)) _ e in
      let (s₂, removed, e₂) = >>=-eq-ok (remove_outputs tx_id 0 tx.outputs s₁) _ e₁ in
      let (block_id, _, e₃) = >>=-eq-ok (expect (Map.lookup tx_id s₂.included_tx_blocks)) _ e₂ in
      let (_, e₄) = assert-eq-ok (block_id == s₂.head) _ e₃ in
      let frame₁ =
        (return_inputs-eq-ok inv (get_consumed_utxos tx) (to_mempool tx_id tx s) s₁ returned).0 in
      let frame₂ = (remove_outputs-eq-ok tx_id 0 tx.outputs s₁ s₂ removed).0 in
      ap (λ (t : State F). t.included_tx_blocks) (sym (ok-injective _ _ e₄))
      ∙ ap (Map.delete tx_id) (frame₂.included ∙ frame₁.included)

  advance_tx-OnlyStored :
      (block_id : HashT) (auto : Bool) (tx : Tx) (s s' : State F)
      → has_block inv block_id ≡ true
      → OnlyStored inv s
      → advance_tx inv block_id auto tx s ≡ ok s'
      → OnlyStored inv s'
  advance_tx-OnlyStored block_id auto tx s s' stored h e tx_id b found =
      let found' =
        ap (Map.lookup tx_id) (sym (advance_tx-included block_id auto tx s s' e)) ∙ found in
      elim (lookup-insert_cases (tx_hash tx) tx_id block_id b s.included_tx_blocks found') [
        | inl (_, same) ↦ ap (has_block inv) (sym same) ∙ stored
        | inr old ↦ h tx_id b old
      ]

  advance_txs-OnlyStored :
      (block_id : HashT) (auto : Bool) (txs : List Tx) (s s' : State F)
      → has_block inv block_id ≡ true
      → OnlyStored inv s
      → advance_txs inv block_id auto txs s ≡ ok s'
      → OnlyStored inv s'
  unfolding advance_txs
  advance_txs-OnlyStored block_id auto [] s s' stored h e =
      subst (OnlyStored inv) (ok-injective s s' e) h
  advance_txs-OnlyStored block_id auto (tx ∷ txs) s s' stored h e =
      let (t, done, e₁) = >>=-eq-ok (advance_tx inv block_id auto tx s) _ e in
      advance_txs-OnlyStored block_id auto txs t s' stored
        (advance_tx-OnlyStored block_id auto tx s t stored h done) e₁

  pub advance-OnlyStored :
      (block_id : HashT) (auto : Bool) (s s' : State F)
      → OnlyStored inv s
      → advance inv block_id auto s ≡ ok s'
      → OnlyStored inv s'
  unfolding advance
  advance-OnlyStored block_id auto s s' h e =
      let (stored, e₁) = guard-eq-ok (has_block inv block_id) _ _ e in
      let (b, _, e₂) = >>=-eq-ok (get_block inv block_id) _ e₁ in
      let (txs, _, e₃) = >>=-eq-ok (get_merkle_txs inv b.merkle_root) _ e₂ in
      let (_, e₄) = guard-eq-ok (b.prev_block_id == s.head) _ _ e₃ in
      let (t, done, e₅) = >>=-eq-ok (advance_txs inv block_id auto txs s) _ e₄ in
      subst (OnlyStored inv) (ok-injective _ s' e₅)
        (advance_txs-OnlyStored block_id auto txs s t stored h done)

  rewind_txs-OnlyStored :
      (txs : List Tx) (s s' : State F)
      → OnlyStored inv s
      → rewind_txs inv txs s ≡ ok s'
      → OnlyStored inv s'
  unfolding rewind_txs
  rewind_txs-OnlyStored [] s s' h e = subst (OnlyStored inv) (ok-injective s s' e) h
  rewind_txs-OnlyStored (tx ∷ txs) s s' h e =
      let (t, done, e₁) = >>=-eq-ok (rewind_tx inv tx s) _ e in
      rewind_txs-OnlyStored txs t s' (λ tx_id b found. h tx_id b (kept tx_id b t done found)) e₁
    where
      kept :
          (tx_id b : HashT) (t : State F)
          → rewind_tx inv tx s ≡ ok t
          → Map.lookup tx_id t.included_tx_blocks ≡ some b
          → Map.lookup tx_id s.included_tx_blocks ≡ some b
      kept tx_id b t done found =
          let left = ap (Map.lookup tx_id) (sym (rewind_tx-included tx s t done)) ∙ found in
          ground (arith, lookup-delete (tx_hash tx) tx_id s.included_tx_blocks, left)

  rewind-OnlyStored : (s s' : State F) → OnlyStored inv s → rewind inv s ≡ ok s' → OnlyStored inv s'
  unfolding rewind
  rewind-OnlyStored s s' h e =
      let (_, e₁) = assert-eq-ok (not (eq_zero s.head)) _ e in
      let (b, _, e₂) = >>=-eq-ok (get_block inv s.head) _ e₁ in
      let (txs, _, e₃) = >>=-eq-ok (get_merkle_txs inv b.merkle_root) _ e₂ in
      let (t, done, e₄) = >>=-eq-ok (rewind_txs inv txs s) _ e₃ in
      subst (OnlyStored inv) (ok-injective _ s' e₄) (rewind_txs-OnlyStored txs s t h done)

  rewind_times-OnlyStored :
      (n : ℕ) (s s' : State F) → OnlyStored inv s → rewind_times inv n s ≡ ok s' → OnlyStored inv s'
  unfolding rewind_times
  rewind_times-OnlyStored zero s s' h e = subst (OnlyStored inv) (ok-injective s s' e) h
  rewind_times-OnlyStored (suc n) s s' h e =
      let (t, done, e₁) = >>=-eq-ok (rewind inv s) _ e in
      rewind_times-OnlyStored n t s' (rewind-OnlyStored s t h done) e₁

  pub rewind_until-OnlyStored :
      (id : HashT) (s s' : State F)
      → OnlyStored inv s
      → rewind_until inv id s ≡ ok s'
      → OnlyStored inv s'
  unfolding rewind_until
  rewind_until-OnlyStored id s s' h e =
      let (found, _, e₁) = >>=-eq-ok (get_block_ancestor_depth inv s.head id) _ e in
      let (depth, _, e₂) = >>=-eq-ok (expect found) _ e₁ in
      let (t, done, e₃) = >>=-eq-ok (rewind_times inv depth s) _ e₂ in
      let (_, e₄) = assert-eq-ok (t.head == id) _ e₃ in
      subst (OnlyStored inv) (ok-injective t s' e₄) (rewind_times-OnlyStored depth s t h done)
