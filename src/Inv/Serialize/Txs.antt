-- ===== src/Inv/Serialize/Txs.antt =====
-- internal/inv/serialize.go: the text of a transaction record, with keys and signatures in base64.
pub mod RoundTrip
use basiccoin.Base.{
  ℕ, zero, suc, ◌+◌, ◌*◌, ◌%◌, ◌^◌, Bool, true, false, List, [], ◌∷◌, ◌++◌, length, ltb,
  if◌then◌else◌,
}
use basiccoin.Base.Base64.{encode64, decode64}
use basiccoin.Base.Eq.{◌==◌, nat_eq, text_eq}
use basiccoin.Base.Result.{
  Result, ok, err, panic, ◌>>=◌, ◌>>◌, guard, assert, incorrect_rows, bad_number, number_too_large,
  bad_bool,
}
use basiccoin.Base.Text.{join, split, trim, format_uint, parse_uint}
use basiccoin.Core.Params.{codes}
use basiccoin.Core.Tx.{Tx, TxIn, TxOut}
use basiccoin.Hash.{string, new_hash_from_string}
use basiccoin.Inv.Records.{TxRecord}

-- `fmt.Sprintf("%t", b)`
unfoldable pub format_bool : Bool → List ℕ
format_bool true = codes "true"
format_bool false = codes "false"

unfoldable pub input_rows : List TxIn → List (List ℕ)
input_rows [] = []
input_rows (txi ∷ txis) =
    string txi.utxo.tx_id
    ∷ format_uint txi.utxo.ind
    ∷ format_uint txi.utxo.value
    ∷ encode64 txi.public_key
    ∷ encode64 txi.signature
    ∷ input_rows txis

unfoldable pub output_rows : List TxOut → List (List ℕ)
output_rows [] = []
output_rows (txo ∷ txos) = format_uint txo.value ∷ string txo.public_key_hash ∷ output_rows txos

unfoldable pub tx_record_string : TxRecord → List ℕ
tx_record_string t = join (
    format_uint t.vsize
    ∷ format_bool t.tx.is_coinbase
    ∷ format_uint t.tx.min_block
    ∷ format_uint (length t.tx.inputs)
    ∷ format_uint (length t.tx.outputs)
    ∷ (input_rows t.tx.inputs ++ output_rows t.tx.outputs))

-- A Go int, `plus` or less than 0 by `minus`.
pub record GoInt : Type 0 where
  pub plus : ℕ
  pub minus : ℕ

abbrev pub up_to_max : ℕ → Result GoInt
up_to_max n = if ltb n (2 ^ 63) then ok (record { plus = n; minus = 0 }) else err number_too_large

abbrev pub down_to_min : ℕ → Result GoInt
down_to_min n = if ltb (2 ^ 63) n then err number_too_large else ok (record { plus = 0; minus = n })

-- `strconv.Atoi`, for a text without a sign and with one.
unfoldable pub atoi : List ℕ → Result GoInt
atoi [] = err bad_number
atoi (c ∷ text) =
    if c == b'-'
    then parse_uint text >>= down_to_min
    else if c == b'+'
    then parse_uint text >>= up_to_max
    else parse_uint (c ∷ text) >>= up_to_max

unfoldable pub parse_bool : List ℕ → Result Bool
parse_bool row =
    if row == codes "true" then ok true else if row == codes "false" then ok false else err bad_bool

unfoldable pub read_inputs : ℕ → List (List ℕ) → Result (List TxIn × List (List ℕ))
read_inputs zero rows = ok ([], rows)
read_inputs (suc n) (row₀ ∷ row₁ ∷ row₂ ∷ row₃ ∷ row₄ ∷ rows) = do
  tx_id ← new_hash_from_string row₀
  ind ← parse_uint row₁
  value ← parse_uint row₂
  public_key ← decode64 row₃
  signature ← decode64 row₄
  (txis, rest) ← read_inputs n rows
  ok (
    record {
      utxo = record { tx_id = tx_id; ind = ind; value = value };
      public_key = public_key;
      signature = signature;
    }
        ∷ txis,
    rest,
  )
read_inputs (suc n) _ = panic

unfoldable pub read_outputs : ℕ → List (List ℕ) → Result (List TxOut)
read_outputs zero rows = ok []
read_outputs (suc n) (row₀ ∷ row₁ ∷ rows) = do
  value ← parse_uint row₀
  pkh ← new_hash_from_string row₁
  txos ← read_outputs n rows
  ok (record { value = value; public_key_hash = pkh } ∷ txos)
read_outputs (suc n) _ = panic

-- `len(rows) != expectRows`, in 64 bits.
unfoldable pub rows_expected : ℕ → GoInt → GoInt → Bool
rows_expected more num_inputs num_outputs =
    (5 + more + num_inputs.minus * 5 + num_outputs.minus * 2) % 2 ^ 64
    == (5 + num_inputs.plus * 5 + num_outputs.plus * 2) % 2 ^ 64

-- Counts that only wrap around to the number of rows are negative or too large for `make`.
unfoldable pub counts_fit : ℕ → GoInt → GoInt → Bool
counts_fit more num_inputs num_outputs =
    more + num_inputs.minus * 5 + num_outputs.minus * 2
    == num_inputs.plus * 5 + num_outputs.plus * 2

unfoldable pub tx_record_of_rows : List (List ℕ) → Result TxRecord
tx_record_of_rows (row₀ ∷ row₁ ∷ row₂ ∷ row₃ ∷ row₄ ∷ rows) = do
  vsize ← parse_uint row₀
  is_coinbase ← parse_bool row₁
  min_block ← parse_uint row₂
  num_inputs ← atoi row₃
  num_outputs ← atoi row₄
  guard (rows_expected (length rows) num_inputs num_outputs) incorrect_rows
  assert (counts_fit (length rows) num_inputs num_outputs)
  assert (num_inputs.minus == 0)
  assert (num_outputs.minus == 0)
  (inputs, rest) ← read_inputs num_inputs.plus rows
  outputs ← read_outputs num_outputs.plus rest
  ok (record {
    tx = record {
      is_coinbase = is_coinbase;
      min_block = min_block;
      inputs = inputs;
      outputs = outputs;
    };
    vsize = vsize;
  })
tx_record_of_rows _ = err incorrect_rows

unfoldable pub tx_record_from_string : List ℕ → Result TxRecord
tx_record_from_string raw = tx_record_of_rows (split (trim raw))
