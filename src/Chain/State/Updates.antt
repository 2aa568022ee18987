-- ===== src/Chain/State/Updates.antt =====
-- The parts of `Rewind`, `Advance` and `AddMempoolTx`, each a loop of the source.
use basiccoin.Base.{ℕ, suc, Option, none, some, List, [], ◌∷◌, if◌then◌else◌}
use basiccoin.Base.Eq.{Eq, ◌==◌, nat_eq}
use basiccoin.Base.Result.{
  Result, ok, err, panic, out_of_fuel, ◌>>=◌, ◌>>◌, guard, assert, missing_spends, missing_spender,
  no_utxos, not_controlled, input_unavailable,
}
use basiccoin.Chain.State.Record.{State}
use basiccoin.Collections.Map as Map
use basiccoin.Collections.Map.{Map}
use basiccoin.Collections.Set as Set
use basiccoin.Collections.Set.{Set}
use basiccoin.Core.Tx.{Utxo, TxOut, Tx, FloatOps, utxo_eq, rate, get_consumed_utxos}
use basiccoin.Hash.{HashT, hash_eq}
use basiccoin.Inv.{Inv, get_tx, get_tx_out}

-- The set under a key, a new one if there is none.
abbrev pub set_or_new {ℓ} : {A : Type ℓ} → Option (Set A) → Set A
set_or_new none = []
set_or_new (some s) = s

unfoldable pub credit_balance : HashT → Utxo → Map HashT (Set Utxo) → Map HashT (Set Utxo)
credit_balance pkh credit m = Map.insert pkh (Set.add credit (set_or_new (Map.lookup pkh m))) m

-- A set that is written back, or deleted when it is empty.
unfoldable pub put_or_delete {ℓ κ} :
    {A : Type ℓ} {K : Type κ} ⦃e : Eq K⦄ → K → Set A → Map K (Set A) → Map K (Set A)
put_or_delete key s m = if Set.size s == 0 then Map.delete key m else Map.insert key s m

unfoldable pub debit_balance : HashT → Utxo → Map HashT (Set Utxo) → Result (Map HashT (Set Utxo))
unfolding put_or_delete
debit_balance pkh debit m = elim (Map.lookup pkh m) [
  | none ↦ err no_utxos
  | some utxos ↦ do
    guard (Set.includes debit utxos) not_controlled
    ok (put_or_delete pkh (Set.remove debit utxos).0 m)
]

unfoldable pub add_spend : HashT → Utxo → Map Utxo (Set HashT) → Map Utxo (Set HashT)
add_spend tx_id utxo m = Map.insert utxo (Set.add tx_id (set_or_new (Map.lookup utxo m))) m

unfoldable pub add_spends : HashT → List Utxo → Map Utxo (Set HashT) → Map Utxo (Set HashT)
add_spends tx_id [] m = m
add_spends tx_id (utxo ∷ utxos) m = add_spends tx_id utxos (add_spend tx_id utxo m)

unfoldable pub remove_spend : HashT → Utxo → Map Utxo (Set HashT) → Result (Map Utxo (Set HashT))
unfolding put_or_delete
remove_spend tx_id utxo m = elim (Map.lookup utxo m) [
  | none ↦ err missing_spends
  | some tx_ids ↦ do
    guard (Set.includes tx_id tx_ids) missing_spender
    ok (put_or_delete utxo (Set.remove tx_id tx_ids).0 m)
]

unfoldable pub remove_spends :
    HashT → List Utxo → Map Utxo (Set HashT) → Result (Map Utxo (Set HashT))
remove_spends tx_id [] m = ok m
remove_spends tx_id (utxo ∷ utxos) m = do
  m' ← remove_spend tx_id utxo m
  remove_spends tx_id utxos m'

abbrev pub output_utxo : HashT → ℕ → TxOut → Utxo
output_utxo tx_id i txo = record { tx_id = tx_id; ind = i; value = txo.value }

-- An error of `debitBalance` in a rewind is a panic.
abbrev pub must {ℓ} : {A : Type ℓ} → Result A → Result A
must (ok a) = ok a
must (err e) = panic
must panic = panic
must out_of_fuel = out_of_fuel

module _ {F : Type 0} where
  -- The part of `AddMempoolTx` and of `Rewind` that puts a transaction in the mempool.
  unfoldable pub to_mempool : ⦃float : FloatOps F⦄ → HashT → Tx → State F → State F
  to_mempool tx_id tx s = record s {
    mempool = Set.add tx_id s.mempool;
    mempool_rates = Map.insert tx_id (rate tx) s.mempool_rates;
    mempool_utxo_spends = add_spends tx_id (get_consumed_utxos tx) s.mempool_utxo_spends;
  }

  unfoldable pub add_mempool_tx : ⦃float : FloatOps F⦄ → Inv → HashT → State F → Result (State F)
  add_mempool_tx inv tx_id s = do tx ← get_tx inv tx_id; ok (to_mempool tx_id tx s)

  -- `Rewind`: the inputs of a transaction are unspent again.
  unfoldable pub return_inputs : Inv → List Utxo → State F → Result (State F)
  return_inputs inv [] s = ok s
  return_inputs inv (utxo ∷ utxos) s = do
    txo ← get_tx_out inv utxo.tx_id utxo.ind
    return_inputs inv utxos (record s {
      utxos = Set.add utxo s.utxos;
      pkh_utxos = credit_balance txo.public_key_hash utxo s.pkh_utxos;
    })

  -- `Rewind`: the outputs are gone; one that is not there is a panic.
  unfoldable pub remove_outputs : HashT → ℕ → List TxOut → State F → Result (State F)
  remove_outputs tx_id i [] s = ok s
  remove_outputs tx_id i (txo ∷ txos) s = do
    assert (Set.includes (output_utxo tx_id i txo) s.utxos)
    balances ← must (debit_balance txo.public_key_hash (output_utxo tx_id i txo) s.pkh_utxos)
    remove_outputs tx_id (suc i) txos (record s {
      utxos = (Set.remove (output_utxo tx_id i txo) s.utxos).0;
      pkh_utxos = balances;
    })

  -- `Advance`: the inputs are spent.
  unfoldable pub consume_inputs : Inv → List Utxo → State F → Result (State F)
  consume_inputs inv [] s = ok s
  consume_inputs inv (utxo ∷ utxos) s = do
    guard (Set.includes utxo s.utxos) input_unavailable
    txo ← get_tx_out inv utxo.tx_id utxo.ind
    balances ← debit_balance txo.public_key_hash utxo s.pkh_utxos
    consume_inputs inv utxos
        (record s { utxos = (Set.remove utxo s.utxos).0; pkh_utxos = balances })

  -- `Advance`: the outputs can be spent.
  unfoldable pub add_outputs : HashT → ℕ → List TxOut → State F → State F
  add_outputs tx_id i [] s = s
  add_outputs tx_id i (txo ∷ txos) s = add_outputs tx_id (suc i) txos (record s {
    utxos = Set.add (output_utxo tx_id i txo) s.utxos;
    pkh_utxos = credit_balance txo.public_key_hash (output_utxo tx_id i txo) s.pkh_utxos;
  })
