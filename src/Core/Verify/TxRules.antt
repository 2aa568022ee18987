-- ===== src/Core/Verify/TxRules.antt =====
-- What `VerifyTx` accepts, as conditions on the transaction and on the outputs that it claims.
use basiccoin.Base.{◌<◌, ◌≤◌, ◌≡◌, Bool, true, false, some, length, All}
use basiccoin.Base.Eq.{nat_eq}
use basiccoin.Base.Result.{ok}
use basiccoin.Core.Crypto.{Ecdsa, ecdsa_verify}
use basiccoin.Core.Params.{Params}
use basiccoin.Core.Tx.{TxIn, TxOut, Tx, inputs_value, outputs_value, vsize, tx_hash_pre_sig}
use basiccoin.Core.Verify.{InvVerifier}
use basiccoin.Hash.{HashT, hash_eq}
use basiccoin.Hash.Digest.{Sha256, dhash_bytes}

-- The signature holds for the hash.
abbrev pub IsSigned : ⦃ecdsa : Ecdsa⦄ → HashT → TxIn → Type 0
IsSigned hash txi = ecdsa_verify txi.public_key hash txi.signature ≡ some true

-- The claimed output exists, belongs to the public key and has the claimed value.
abbrev pub IsOrigin : ⦃sha : Sha256⦄ → InvVerifier → TxIn → Type 0
IsOrigin inv txi =
    (origin : TxOut) × (inv.has_tx_out txi.utxo.tx_id txi.utxo.ind ≡ true)
    × (inv.get_tx_out txi.utxo.tx_id txi.utxo.ind ≡ ok origin)
    × (dhash_bytes txi.public_key ≡ origin.public_key_hash)
    × (txi.utxo.value ≡ origin.value)

-- A coinbase makes one output of at least the reward from nothing; any other pays a fee.
abbrev pub IsKind : Params → Tx → Bool → Type 0
IsKind params tx true =
    (length tx.inputs ≡ 0) × (length tx.outputs ≡ 1) × (params.block_reward ≤ outputs_value tx)
IsKind params tx false = outputs_value tx < inputs_value tx

pub record IsAcceptable ⦃sha : Sha256⦄ ⦃ecdsa : Ecdsa⦄ (params : Params) (inv : InvVerifier)
    (tx : Tx) : Type 0 where
  pub signed : All (IsSigned (tx_hash_pre_sig tx.min_block tx.outputs)) tx.inputs
  pub fits : vsize tx ≤ params.max_tx_vsize
  pub kind : IsKind params tx tx.is_coinbase
  pub origins : All (IsOrigin inv) tx.inputs
