-- ===== src/Core/Tx/Values.antt =====
-- The sums of a transaction of pkg/core/transaction.go against exact sums.
use basiccoin.Base.{
  ℕ, ◌+◌, ◌%◌, ◌^◌, ◌<◌, ◌≤◌, ◌≡◌, ◌↔◌, true, List, [], ◌∷◌, arith, ltb→lt, lt→ltb, ◌∙◌,
}
use basiccoin.Base.Word.{add64}
use basiccoin.Core.Tx.{
  TxIn, TxOut, Tx, add_inputs, add_outputs, inputs_value, outputs_value, has_surplus,
}

-- The value of the inputs and of the outputs in unbounded arithmetic.
abbrev pub exact_inputs : List TxIn → ℕ
exact_inputs [] = 0
exact_inputs (txi ∷ rest) = txi.utxo.value + exact_inputs rest

abbrev pub exact_outputs : List TxOut → ℕ
exact_outputs [] = 0
exact_outputs (txo ∷ rest) = txo.value + exact_outputs rest

add_inputs-mod :
    (txis : List TxIn) (total : ℕ)
    → total < 2 ^ 64
    → add_inputs total txis ≡ (total + exact_inputs txis) % 2 ^ 64
unfolding add_inputs
add_inputs-mod [] total h = omega arith
add_inputs-mod (txi ∷ rest) total h =
    add_inputs-mod rest (add64 total txi.utxo.value) (omega arith) ∙ omega arith

add_outputs-mod :
    (txos : List TxOut) (total : ℕ)
    → total < 2 ^ 64
    → add_outputs total txos ≡ (total + exact_outputs txos) % 2 ^ 64
unfolding add_outputs
add_outputs-mod [] total h = omega arith
add_outputs-mod (txo ∷ rest) total h =
    add_outputs-mod rest (add64 total txo.value) (omega arith) ∙ omega arith

pub inputs_value-mod : (tx : Tx) → inputs_value tx ≡ exact_inputs tx.inputs % 2 ^ 64
unfolding inputs_value
inputs_value-mod tx = add_inputs-mod tx.inputs 0 (omega arith) ∙ omega arith

pub outputs_value-mod : (tx : Tx) → outputs_value tx ≡ exact_outputs tx.outputs % 2 ^ 64
unfolding outputs_value
outputs_value-mod tx = add_outputs-mod tx.outputs 0 (omega arith) ∙ omega arith

-- `HasSurplus` holds exactly of the transactions whose inputs are worth more than their outputs,
-- when neither sum reaches 2^64.
has_surplus_exact :
    (tx : Tx)
    → exact_inputs tx.inputs < 2 ^ 64
    → exact_outputs tx.outputs < 2 ^ 64
    → (has_surplus tx ≡ true) ↔ (exact_outputs tx.outputs < exact_inputs tx.inputs)
unfolding has_surplus
has_surplus_exact tx hi ho = (
  λ e. omega (arith, ltb→lt _ _ e, inputs_value-mod tx, outputs_value-mod tx),
  λ less. lt→ltb _ _ (omega (arith, inputs_value-mod tx, outputs_value-mod tx)),
)

-- `HasSurplus` holds of a transaction whose outputs are worth more than its inputs, when the
-- inputs stay below 2^64 and the outputs reach 2^64 and exceed it by less than the inputs' value.
pub has_surplus_wraps :
    (tx : Tx)
    → exact_inputs tx.inputs < 2 ^ 64
    → 2 ^ 64 ≤ exact_outputs tx.outputs
    → exact_outputs tx.outputs < 2 ^ 64 + exact_inputs tx.inputs
    → (has_surplus tx ≡ true) × (exact_inputs tx.inputs < exact_outputs tx.outputs)
unfolding has_surplus
has_surplus_wraps tx small over near =
    (lt→ltb _ _ (omega (arith, inputs_value-mod tx, outputs_value-mod tx)), omega arith)
