-- ===== src/Miner/Coinbase.antt =====
-- `updateTemplate` of internal/miner/miner.go against the rules of `VerifyBlock`.
use mathlib.Core.Path.{subst}
use basiccoin.Base.{
  ℕ, zero, suc, ◌+◌, ◌%◌, ◌/◌, ◌^◌, ◌<◌, ◌≤◌, ◌≡◌, refl, sym, true, some, List, [], ◌∷◌, ◌++◌, map,
  arith, All, length,
}
use basiccoin.Base.Result.{ok, >>=-eq-ok, ok-injective}
use basiccoin.Base.Word.{add64, sub64}
use basiccoin.Collections.Map.{Map}
use basiccoin.Collections.Util.{prepend, flatten_lists}
use basiccoin.Core.Block.{MerkleNode, merkle_hash}
use basiccoin.Core.Block.Tree.{ceil_log2_from, ceil_log2, pair_up, layers_above, merkle_from_tx_ids}
use basiccoin.Core.Tx.{Tx, has_surplus, inputs_value, outputs_value, tx_hash}
use basiccoin.Core.Tx.Values.{inputs_value-mod, outputs_value-mod}
use basiccoin.Core.Verify.{verify_block_txs}
use basiccoin.Core.Verify.BlockRules.{all_inputs, all_outputs, IsNormal, verify_block_txs_iff}
use basiccoin.Hash.{HashT}
use basiccoin.Hash.Digest.{Sha256}
use basiccoin.Inv.{Inv, get_tx, get_txs, get_block_height}
use basiccoin.Miner.{Miner, sum_fees, make_coinbase, last_of, node_or_zero, update_template}

sum_fees-step :
    (inv : Inv) (id : HashT) (ids : List HashT) (tx : Tx) (total fees : ℕ)
    → get_tx inv id ≡ ok tx
    → has_surplus tx ≡ true
    → sum_fees inv ids (add64 total (sub64 (inputs_value tx) (outputs_value tx))) ≡ ok fees
    → sum_fees inv (id ∷ ids) total ≡ ok fees
unfolding sum_fees
sum_fees-step inv id ids tx total fees found surplus summed = rw (found, surplus) summed

-- The fees are what the inputs are worth more than the outputs, modulo 2^64.
sum_fees_lem :
    (inv : Inv) (ids : List HashT) (txs : List Tx) (total : ℕ)
    → total < 2 ^ 64
    → get_txs inv ids ≡ ok txs
    → All (λ tx. has_surplus tx ≡ true) txs
    → (fees : ℕ) × (sum_fees inv ids total ≡ ok fees)
      × ((fees + all_outputs txs) % 2 ^ 64 ≡ (total + all_inputs txs) % 2 ^ 64)
unfolding sum_fees get_txs
sum_fees_lem inv [] txs total small e h =
    let e₁ = ok-injective _ _ e in
    (
      total,
      refl,
      subst (λ (l : List Tx). (total + all_outputs l) % 2 ^ 64 ≡ (total + all_inputs l) % 2 ^ 64) e₁
          refl,
    )
sum_fees_lem inv (id ∷ ids) txs total small e h =
    let (tx, found, e₁) = >>=-eq-ok (get_tx inv id) _ e in
    let (rest, rest_found, e₂) = >>=-eq-ok (get_txs inv ids) _ e₁ in
    let same = ok-injective _ _ e₂ in
    let (surplus, others) =
      subst (λ (l : List Tx). All (λ tx. has_surplus tx ≡ true) l) (sym same) h in
    let next : ℕ = add64 total (sub64 (inputs_value tx) (outputs_value tx)) in
    let (fees, summed, value) = sum_fees_lem inv ids rest next (omega arith) rest_found others in
    (
      fees,
      sum_fees-step inv id ids tx total fees found surplus summed,
      subst (λ (l : List Tx). (fees + all_outputs l) % 2 ^ 64 ≡ (total + all_inputs l) % 2 ^ 64)
          same (omega (arith, value, inputs_value-mod tx, outputs_value-mod tx)),
    )

-- The last item of a list that is not empty.
last_of-ok : (id : HashT) (ids : List HashT) → (root : HashT) × (last_of (id ∷ ids) ≡ ok root)
unfolding last_of
last_of-ok id [] = (id, refl)
last_of-ok id (next ∷ ids) = last_of-ok next ids

ceil_log2-pos : (n : ℕ) → 2 ≤ n → (k : ℕ) × (ceil_log2 n ≡ suc k)
unfolding ceil_log2 ceil_log2_from
ceil_log2-pos zero h = absurd (omega arith)
ceil_log2-pos (suc zero) h = absurd (omega arith)
ceil_log2-pos (suc (suc n)) h = (ceil_log2_from (suc n) ((suc (suc n) + 1) / 2), ground arith)

module _ ⦃sha : Sha256⦄ where
  -- A tree of one transaction or more is built, and has a root.
  merkle_from_tx_ids-ok :
      (id : HashT) (ids : List HashT)
      → (merkles : Map HashT MerkleNode) × (merkle_ids : List HashT) × (root : HashT)
        × (merkle_from_tx_ids (id ∷ ids) ≡ ok (merkles, merkle_ids))
        × (last_of merkle_ids ≡ ok root)
  unfolding merkle_from_tx_ids last_of layers_above pair_up flatten_lists
  merkle_from_tx_ids-ok id [] = (_, _, _, refl, refl)
  merkle_from_tx_ids-ok a (b ∷ rest) =
      let (k, more) = ceil_log2-pos (length (a ∷ b ∷ rest)) (omega arith) in
      let first : MerkleNode = record { l_child = a; r_child = b } in
      let (root, found) = last_of-ok (merkle_hash first) (
        map merkle_hash (pair_up rest)
        ++ flatten_lists
            (map (map merkle_hash) (layers_above k (map merkle_hash (first ∷ pair_up rest))))) in
      (_, _, root, refl, rw more found)

  -- When the height of the head is known and the given transactions are stored, have a surplus
  -- and are no coinbases, `updateTemplate` returns, and its coinbase followed by the transactions
  -- passes the checks of `VerifyBlock` on transactions at the next height.
  pub update_template-balanced :
      (inv : Inv) (random : ℕ → HashT) (now : ℕ) (head target : HashT) (ids : List HashT)
      (m : Miner) (h : ℕ) (txs : List Tx)
      → get_block_height inv head ≡ ok h
      → get_txs inv ids ≡ ok txs
      → All (λ tx. has_surplus tx ≡ true) txs
      → All IsNormal txs
      → (m' : Miner) × (coinbase : Tx) × (update_template inv random now head target ids m ≡ ok m')
        × (m'.out_coinbase ≡ some coinbase)
        × (verify_block_txs inv.core_params (add64 h 1) (coinbase ∷ txs) ≡ ok tt)
  unfolding update_template make_coinbase prepend
  update_template-balanced inv random now head target ids m h txs height found surplus normal =
      let (fees, summed, value) = sum_fees_lem inv ids txs 0 (omega arith) found surplus in
      let coinbase : Tx =
        make_coinbase m.payout_pkh (add64 h 1) (add64 fees inv.core_params.block_reward) in
      let (merkles, merkle_ids, root, built, last) = merkle_from_tx_ids-ok (tx_hash coinbase) ids in
      let done : Miner = record m {
        template = some (record {
          prev_block_id = head;
          merkle_root = root;
          target = target;
          noise = random m.draws;
          nonce = 0;
          mined_time = now;
        });
        out_coinbase = some coinbase;
        out_merkles = map (node_or_zero merkles) merkle_ids;
        draws = suc m.draws;
      } in
      (
        done,
        coinbase,
        rw (summed, height, built, last) refl,
        refl,
        (verify_block_txs_iff inv.core_params (add64 h 1) (coinbase ∷ txs)).1
            (refl, refl, normal, omega (arith, value)),
      )
