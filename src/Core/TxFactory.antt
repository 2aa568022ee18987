-- ===== src/Core/TxFactory.antt =====
-- pkg/core/txfactory.go: transactions built from controlled outputs.
use basiccoin.Base.{
  ℕ, Bool, true, false, not, Option, none, some, List, [], ◌∷◌, ◌++◌, map, ltb, leb, length,
}
use basiccoin.Base.Eq.{◌==◌, nat_eq}
use basiccoin.Base.Result.{
  Result, Error, ok, err, panic, ◌>>=◌, ◌>>◌, guard, expect, bad_key, insufficient_balance,
  not_consolidated, insufficient_for_fee, fully_consolidated, not_controlled_by_keys,
  signing_failed,
}
use basiccoin.Base.Word.{add64, sub64}
use basiccoin.Base.Sort.{sort}
use basiccoin.Collections.Map as Map
use basiccoin.Collections.Map.{Map}
use basiccoin.Collections.Util.{map_keys}
use basiccoin.Core.Params.{Params}
use basiccoin.Core.Crypto.{Ecdsa, example_pub_der, example_max_sig_asn}
use basiccoin.Core.Tx.{
  Utxo, TxIn, TxOut, Tx, FloatOps, utxo_eq, tx_in_vsize, vsize, fee_from_rate, tx_hash_pre_sig,
}
use basiccoin.Hash.{HashT, hash_eq}
use basiccoin.Hash.Digest.{Sha256, dhash_bytes}

-- An option that holds an error as `none`.
unfoldable pub or_err {ℓ} : {A : Type ℓ} → Option A → Error → Result A
or_err none e = err e
or_err (some a) e = ok a

-- `m[key]` of a Go map to uint64.
abbrev pub value_or_zero : Option ℕ → ℕ
value_or_zero none = 0
value_or_zero (some n) = n

abbrev pub head_or_panic : List HashT → Result HashT
head_or_panic [] = panic
head_or_panic (h ∷ hs) = ok h

-- The loop of `getBalanceAndRichestPkh` over a map of outputs to key hashes.
unfoldable pub gather_balances :
    {P : Type 0} → Map HashT P → Map Utxo HashT → ℕ → Map HashT ℕ → Result (ℕ × Map HashT ℕ)
gather_balances privs [] balance pkh_balances = ok (balance, pkh_balances)
gather_balances privs ((utxo, pkh) ∷ rest) balance pkh_balances = do
  guard (Map.has pkh privs) not_controlled_by_keys
  gather_balances privs rest (add64 balance utxo.value)
      (Map.insert pkh (add64 (value_or_zero (Map.lookup pkh pkh_balances)) utxo.value) pkh_balances)

-- `pkhs[0]` panics when there is none.
unfoldable pub get_balance_and_richest_pkh :
    {P : Type 0} → Map Utxo HashT → Map HashT P → Result (ℕ × HashT)
get_balance_and_richest_pkh utxo_pkhs privs = do
  (balance, pkh_balances) ← gather_balances privs utxo_pkhs 0 []
  let sorted : List HashT =
      sort
        (λ a b.
          ltb (value_or_zero (Map.lookup b pkh_balances))
            (value_or_zero (Map.lookup a pkh_balances)))
        (map_keys pkh_balances)
  richest ← head_or_panic sorted
  ok (balance, richest)

abbrev pub richer : Utxo → Utxo → Bool
richer a b = ltb b.value a.value

unfoldable pub sum_dests : Map HashT ℕ → ℕ → ℕ
sum_dests [] total = total
sum_dests ((pkh, val) ∷ rest) total = sum_dests rest (add64 total val)

abbrev pub to_outputs : Map HashT ℕ → List TxOut
to_outputs dests = map (λ dest. record { value = dest.1; public_key_hash = dest.0 }) dests

-- An input with the example key and signature.
abbrev pub placeholder : Utxo → TxIn
placeholder utxo = record {
  utxo = utxo;
  public_key = example_pub_der;
  signature = example_max_sig_asn;
}

abbrev pub with_input : Tx → Utxo → Tx
with_input tx utxo = record tx { inputs = tx.inputs ++ placeholder utxo ∷ [] }

module _ {F : Type 0} ⦃float : FloatOps F⦄ where
  -- The loop of `MakeOutboundTx` that adds inputs until they cover the outputs and the fee.
  -- Without outputs to take the loop ends at once.
  unfoldable pub add_until_covered : Params → F → ℕ → List Utxo → Tx → ℕ → Result (Tx × ℕ)
  add_until_covered params target_fee_rate total_out [] tx total_in = ok (tx, total_in)
  add_until_covered params target_fee_rate total_out (utxo ∷ rest) tx total_in = do
    let total : ℕ = add64 total_in utxo.value
    let tx' : Tx = with_input tx utxo
    guard (not (ltb params.max_tx_vsize (vsize tx'))) not_consolidated
    let next : Result (Tx × ℕ) = add_until_covered params target_fee_rate total_out rest tx' total
    elim (leb (add64 total_out (fee_from_rate tx' target_fee_rate)) total) [
      | true ↦ ok (tx', total)
      | false ↦ elim rest [ [] ↦ err insufficient_for_fee | _ ↦ next ]
    ]

-- The loop of `MakeConsolidateTx`, which stops at the first input that does not fit.
unfoldable pub add_while_fitting : Params → List Utxo → Tx → ℕ → Tx × ℕ
add_while_fitting params [] tx total_in = (tx, total_in)
add_while_fitting params (utxo ∷ rest) tx total_in =
    elim (ltb params.max_tx_vsize (add64 (vsize tx) (tx_in_vsize (placeholder utxo)))) [
      | true ↦ (tx, total_in)
      | false ↦ add_while_fitting params rest (with_input tx utxo) (add64 total_in utxo.value)
    ]

-- `tx.Outputs[0].Value = value`
abbrev pub set_first_value : ℕ → List TxOut → List TxOut
set_first_value value [] = []
set_first_value value (txo ∷ txos) = record txo { value = value } ∷ txos

module _ ⦃sha : Sha256⦄ ⦃ecdsa : Ecdsa⦄ where
  -- `getPkkPrivs`
  unfoldable pub get_pkh_privs :
      List ecdsa.PrivateKey → Map HashT ecdsa.PrivateKey → Result (Map HashT ecdsa.PrivateKey)
  get_pkh_privs [] out = ok out
  get_pkh_privs (priv ∷ privs) out = do
    pub_der ← or_err (ecdsa.marshal_pkix_public_key priv) bad_key
    get_pkh_privs privs (Map.insert (dhash_bytes pub_der) priv out)

  -- The loop that replaces the placeholders. The inputs stand in the order of the outputs spent.
  unfoldable pub sign_inputs :
      HashT → Map Utxo HashT → Map HashT ecdsa.PrivateKey → List TxIn → Result (List TxIn)
  sign_inputs pre_sig_hash utxo_pkhs privs [] = ok []
  sign_inputs pre_sig_hash utxo_pkhs privs (txi ∷ rest) = do
    pkh ← expect (Map.lookup txi.utxo utxo_pkhs)
    priv ← expect (Map.lookup pkh privs)
    pub_der ← or_err (ecdsa.marshal_pkix_public_key priv) bad_key
    sig ← or_err (ecdsa.sign_asn1 priv pre_sig_hash.bytes) signing_failed
    signed ← sign_inputs pre_sig_hash utxo_pkhs privs rest
    ok (record txi { public_key = pub_der; signature = sig } ∷ signed)

  module _ {F : Type 0} ⦃float : FloatOps F⦄ where
    unfoldable pub make_outbound_tx :
        Params → List ecdsa.PrivateKey → Map Utxo HashT → Map HashT ℕ → F → ℕ → Result Tx
    make_outbound_tx params private_keys utxo_pkhs dests target_fee_rate min_block = do
      privs ← get_pkh_privs private_keys []
      (balance, richest_pkh) ← get_balance_and_richest_pkh utxo_pkhs privs
      let total_out : ℕ = sum_dests dests 0
      guard (ltb total_out balance) insufficient_balance
      let base : Tx = record {
        is_coinbase = false;
        min_block = min_block;
        inputs = [];
        outputs = record { value = 0; public_key_hash = richest_pkh } ∷ to_outputs dests;
      }
      (tx, total_in) ←
          add_until_covered params target_fee_rate total_out (sort richer (map_keys utxo_pkhs)) base
            0
      let outputs : List TxOut =
          set_first_value (sub64 (sub64 total_in total_out) (fee_from_rate tx target_fee_rate))
            tx.outputs
      signed ← sign_inputs (tx_hash_pre_sig min_block outputs) utxo_pkhs privs tx.inputs
      ok (record tx { inputs = signed; outputs = outputs })

    unfoldable pub make_consolidate_tx :
        Params → List ecdsa.PrivateKey → Map Utxo HashT → F → ℕ → Result Tx
    make_consolidate_tx params private_keys utxo_pkhs target_fee_rate min_block = do
      guard (not (length utxo_pkhs == 0)) insufficient_balance
      guard (not (length utxo_pkhs == 1)) fully_consolidated
      privs ← get_pkh_privs private_keys []
      (balance, richest_pkh) ← get_balance_and_richest_pkh utxo_pkhs privs
      let base : Tx = record {
        is_coinbase = false;
        min_block = min_block;
        inputs = [];
        outputs = record { value = 0; public_key_hash = richest_pkh } ∷ [];
      }
      let (tx, total_in) = add_while_fitting params (sort richer (map_keys utxo_pkhs)) base 0
      let outputs : List TxOut =
          set_first_value (sub64 total_in (fee_from_rate tx target_fee_rate)) tx.outputs
      signed ← sign_inputs (tx_hash_pre_sig min_block outputs) utxo_pkhs privs tx.inputs
      ok (record tx { inputs = signed; outputs = outputs })
