-- ===== src/Chain/State/Utxos.antt =====
-- What the loops of `Advance` and `Rewind` do to the set of unspent outputs, and what they leave.
use basiccoin.Base.{ℕ, suc, ◌≡◌, refl, true, not, ◌&&◌, ◌||◌, List, [], ◌∷◌, arith}
use basiccoin.Base.Result.{ok, >>=-eq-ok, guard-eq-ok, assert-eq-ok}
use basiccoin.Collections.Set as Set
use basiccoin.Collections.Set.{contains, includes-add, includes-remove}
use basiccoin.Core.Tx.{Utxo, TxOut, utxo_eq, utxo_beq_iff}
use basiccoin.Chain.State.{
  State, consume_inputs, add_outputs, return_inputs, remove_outputs, output_utxo, debit_balance,
  credit_balance, must,
}
use basiccoin.Hash.{HashT}
use basiccoin.Inv.{Inv, get_tx_out}

-- The outputs of a transaction as unspent outputs, from index `i` on.
abbrev pub outputs_from : HashT → ℕ → List TxOut → List Utxo
outputs_from tx_id i [] = []
outputs_from tx_id i (txo ∷ txos) = output_utxo tx_id i txo ∷ outputs_from tx_id (suc i) txos

module _ {F : Type 0} where
  -- Only the unspent outputs and the balances may differ.
  pub record Frame (s s' : State F) : Type 0 where
    pub head : s'.head ≡ s.head
    pub mempool : s'.mempool ≡ s.mempool
    pub rates : s'.mempool_rates ≡ s.mempool_rates
    pub spends : s'.mempool_utxo_spends ≡ s.mempool_utxo_spends
    pub included : s'.included_tx_blocks ≡ s.included_tx_blocks

  pub consume_inputs-eq-ok :
      (inv : Inv) (us : List Utxo) (s s' : State F)
      → consume_inputs inv us s ≡ ok s'
      → Frame s s'
        × ((u : Utxo) → Set.includes u s'.utxos ≡ Set.includes u s.utxos && not (contains u us))
        × ((u : Utxo) → contains u us ≡ true → Set.includes u s.utxos ≡ true)
  unfolding consume_inputs
  consume_inputs-eq-ok inv [] s s' e =
      (ground arith, (λ u. ground arith), (λ u h. absurd (ground arith)))
  consume_inputs-eq-ok inv (x ∷ us) s s' e =
      let (there, e₁) = guard-eq-ok (Set.includes x s.utxos) _ _ e in
      let (txo, _, e₂) = >>=-eq-ok (get_tx_out inv x.tx_id x.ind) _ e₁ in
      let (balances, _, e₃) = >>=-eq-ok (debit_balance txo.public_key_hash x s.pkh_utxos) _ e₂ in
      let next : State F = record s { utxos = (Set.remove x s.utxos).0; pkh_utxos = balances } in
      let (frame, gone, was) = consume_inputs-eq-ok inv us next s' e₃ in
      (
        record {
          head = frame.head;
          mempool = frame.mempool;
          rates = frame.rates;
          spends = frame.spends;
          included = frame.included;
        },
        (λ u. ground (arith, gone u, includes-remove x u s.utxos, utxo_beq_iff x u)),
        (λ u h. ground (arith, was u, includes-remove x u s.utxos, utxo_beq_iff x u)),
      )

  pub add_outputs_lem :
      (tx_id : HashT) (i : ℕ) (txos : List TxOut) (s : State F)
      → Frame s (add_outputs tx_id i txos s)
        × ((u : Utxo)
            → Set.includes u (add_outputs tx_id i txos s).utxos
              ≡ contains u (outputs_from tx_id i txos) || Set.includes u s.utxos)
  unfolding add_outputs
  add_outputs_lem tx_id i [] s = (ground arith, (λ u. refl))
  add_outputs_lem tx_id i (txo ∷ txos) s =
      let x : Utxo = output_utxo tx_id i txo in
      let next : State F = record s {
        utxos = Set.add x s.utxos;
        pkh_utxos = credit_balance txo.public_key_hash x s.pkh_utxos;
      } in
      let (frame, grown) = add_outputs_lem tx_id (suc i) txos next in
      (
        record {
          head = frame.head;
          mempool = frame.mempool;
          rates = frame.rates;
          spends = frame.spends;
          included = frame.included;
        },
        (λ u. ground (arith, grown u, includes-add x u s.utxos)),
      )

  pub return_inputs-eq-ok :
      (inv : Inv) (us : List Utxo) (s s' : State F)
      → return_inputs inv us s ≡ ok s'
      → Frame s s'
        × ((u : Utxo) → Set.includes u s'.utxos ≡ contains u us || Set.includes u s.utxos)
  unfolding return_inputs
  return_inputs-eq-ok inv [] s s' e = (ground arith, (λ u. ground arith))
  return_inputs-eq-ok inv (x ∷ us) s s' e =
      let (txo, _, e₁) = >>=-eq-ok (get_tx_out inv x.tx_id x.ind) _ e in
      let next : State F = record s {
        utxos = Set.add x s.utxos;
        pkh_utxos = credit_balance txo.public_key_hash x s.pkh_utxos;
      } in
      let (frame, grown) = return_inputs-eq-ok inv us next s' e₁ in
      (
        record {
          head = frame.head;
          mempool = frame.mempool;
          rates = frame.rates;
          spends = frame.spends;
          included = frame.included;
        },
        (λ u. ground (arith, grown u, includes-add x u s.utxos)),
      )

  pub remove_outputs-eq-ok :
      (tx_id : HashT) (i : ℕ) (txos : List TxOut) (s s' : State F)
      → remove_outputs tx_id i txos s ≡ ok s'
      → Frame s s'
        × ((u : Utxo)
            → Set.includes u s'.utxos
              ≡ Set.includes u s.utxos && not (contains u (outputs_from tx_id i txos)))
        × ((u : Utxo)
            → contains u (outputs_from tx_id i txos) ≡ true
            → Set.includes u s.utxos ≡ true)
  unfolding remove_outputs
  remove_outputs-eq-ok tx_id i [] s s' e =
      (ground arith, (λ u. ground arith), (λ u h. absurd (ground arith)))
  remove_outputs-eq-ok tx_id i (txo ∷ txos) s s' e =
      let x : Utxo = output_utxo tx_id i txo in
      let (there, e₁) = assert-eq-ok (Set.includes x s.utxos) _ e in
      let (balances, _, e₂) =
        >>=-eq-ok (must (debit_balance txo.public_key_hash x s.pkh_utxos)) _ e₁ in
      let next : State F = record s { utxos = (Set.remove x s.utxos).0; pkh_utxos = balances } in
      let (frame, gone, was) = remove_outputs-eq-ok tx_id (suc i) txos next s' e₂ in
      (
        record {
          head = frame.head;
          mempool = frame.mempool;
          rates = frame.rates;
          spends = frame.spends;
          included = frame.included;
        },
        (λ u. ground (arith, gone u, includes-remove x u s.utxos, utxo_beq_iff x u)),
        (λ u h. ground (arith, was u, includes-remove x u s.utxos, utxo_beq_iff x u)),
      )
