-- ===== src/Core/Tx.antt =====
-- pkg/core/transaction.go. Values and sizes are uint64; a rate is a float64.
pub mod Values
use basiccoin.Base.{
  ℕ, ◌+◌, ◌<◌, ◌≡◌, ◌↔◌, refl, Bool, true, false, ◌&&◌, List, [], ◌∷◌, map, arith, ltb, length,
}
use basiccoin.Base.Eq.{Eq, ◌==◌, nat_eq}
use basiccoin.Base.Word.{add64}
use basiccoin.Hash.{HashT, eq, eq_iff, hash_eq, zero_hash}
use basiccoin.Hash.Digest.{Sha256, dhash_bytes, dhash_uint64, dhash_bool, dhash_hashes, dhash_list}

-- The float64 operations of the program, over an abstract type.
pub record FloatOps (F : Type 0) : Type 0 where
  pub of_uint64 : ℕ → F
  pub to_uint64 : F → ℕ
  pub sub : F → F → F
  pub mul : F → F → F
  pub div : F → F → F
  pub gt : F → F → Bool

pub record Utxo : Type 0 where
  pub tx_id : HashT
  pub ind : ℕ
  pub value : ℕ

pub record TxIn : Type 0 where
  pub utxo : Utxo
  pub public_key : List ℕ
  pub signature : List ℕ

pub record TxOut : Type 0 where
  pub value : ℕ
  pub public_key_hash : HashT

pub record Tx : Type 0 where
  pub is_coinbase : Bool
  pub min_block : ℕ
  pub inputs : List TxIn
  pub outputs : List TxOut

unfoldable pub utxo_beq : Utxo → Utxo → Bool
utxo_beq a b = a.tx_id == b.tx_id && (a.ind == b.ind && a.value == b.value)

pub utxo_beq_iff : (a b : Utxo) → (utxo_beq a b ≡ true) ↔ (a ≡ b)
unfolding utxo_beq
utxo_beq_iff a b = ground (arith, eq_iff a.tx_id b.tx_id)

instance abbrev pub utxo_eq : Eq Utxo
utxo_eq = record { beq = utxo_beq; beq_iff = utxo_beq_iff }

abbrev pub utxo_vsize : ℕ
utxo_vsize = 32 + 8 + 8

unfoldable pub tx_in_vsize : TxIn → ℕ
tx_in_vsize txi = add64 utxo_vsize (length txi.public_key + length txi.signature)

abbrev pub tx_out_vsize : ℕ
tx_out_vsize = 8 + 32

-- The loops of `InputsValue`, `OutputsValue` and `VSize`, from the total so far.
unfoldable pub add_inputs : ℕ → List TxIn → ℕ
add_inputs total [] = total
add_inputs total (txi ∷ rest) = add_inputs (add64 total txi.utxo.value) rest

unfoldable pub add_outputs : ℕ → List TxOut → ℕ
add_outputs total [] = total
add_outputs total (txo ∷ rest) = add_outputs (add64 total txo.value) rest

unfoldable pub add_input_sizes : ℕ → List TxIn → ℕ
add_input_sizes size [] = size
add_input_sizes size (txi ∷ rest) = add_input_sizes (add64 size (tx_in_vsize txi)) rest

unfoldable pub add_output_sizes : ℕ → List TxOut → ℕ
add_output_sizes size [] = size
add_output_sizes size (txo ∷ rest) = add_output_sizes (add64 size tx_out_vsize) rest

unfoldable pub inputs_value : Tx → ℕ
inputs_value tx = add_inputs 0 tx.inputs

unfoldable pub outputs_value : Tx → ℕ
outputs_value tx = add_outputs 0 tx.outputs

unfoldable pub vsize : Tx → ℕ
vsize tx = add_output_sizes (add_input_sizes (8 + 32 + 32) tx.inputs) tx.outputs

unfoldable pub has_surplus : Tx → Bool
has_surplus tx = ltb (outputs_value tx) (inputs_value tx)

unfoldable pub get_consumed_utxos : Tx → List Utxo
get_consumed_utxos tx = map (λ txi. txi.utxo) tx.inputs

module _ {F : Type 0} ⦃float : FloatOps F⦄ where
  unfoldable pub rate : Tx → F
  rate tx =
      float.div (float.sub (float.of_uint64 (inputs_value tx)) (float.of_uint64 (outputs_value tx)))
        (float.of_uint64 (vsize tx))

  unfoldable pub fee_from_rate : Tx → F → ℕ
  fee_from_rate tx target_fee_rate =
      float.to_uint64 (float.mul target_fee_rate (float.of_uint64 (vsize tx)))

module _ ⦃sha : Sha256⦄ where
  unfoldable pub utxo_hash : Utxo → HashT
  utxo_hash utxo = dhash_hashes (utxo.tx_id ∷ dhash_uint64 utxo.ind ∷ dhash_uint64 utxo.value ∷ [])

  unfoldable pub tx_in_hash : TxIn → HashT
  tx_in_hash txi =
      dhash_hashes
        (utxo_hash txi.utxo ∷ dhash_bytes txi.public_key ∷ dhash_bytes txi.signature ∷ [])

  unfoldable pub tx_out_hash : TxOut → HashT
  tx_out_hash txo = dhash_hashes (dhash_uint64 txo.value ∷ txo.public_key_hash ∷ [])

  unfoldable pub tx_hash : Tx → HashT
  tx_hash tx = dhash_hashes (
      dhash_bool tx.is_coinbase
      ∷ dhash_uint64 tx.min_block
      ∷ dhash_list tx_in_hash tx.inputs
      ∷ dhash_list tx_out_hash tx.outputs
      ∷ [])

  unfoldable pub tx_hash_pre_sig : ℕ → List TxOut → HashT
  tx_hash_pre_sig min_block outputs =
      dhash_hashes (dhash_uint64 min_block ∷ dhash_list tx_out_hash outputs ∷ [])
