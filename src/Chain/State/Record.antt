-- ===== src/Chain/State/Record.antt =====
-- The state of internal/chain/state.go. `F` is the type of fee rates.
use basiccoin.Base.{[]}
use basiccoin.Collections.Map.{Map}
use basiccoin.Collections.Set.{Set}
use basiccoin.Core.Tx.{Utxo}
use basiccoin.Hash.{HashT, zero_hash}

pub record State (F : Type 0) : Type 0 where
  pub head : HashT
  pub mempool : Set HashT
  pub utxos : Set Utxo
  pub mempool_rates : Map HashT F
  pub mempool_utxo_spends : Map Utxo (Set HashT)
  pub pkh_utxos : Map HashT (Set Utxo)
  pub included_tx_blocks : Map HashT HashT

unfoldable pub new_state : {F : Type 0} → State F
new_state = record {
  head = zero_hash;
  mempool = [];
  utxos = [];
  mempool_rates = [];
  mempool_utxo_spends = [];
  pkh_utxos = [];
  included_tx_blocks = [];
}
