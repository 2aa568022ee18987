-- ===== src/Inv/Serialize/Txs/RoundTrip.antt =====
-- Reading the text of a transaction record, in internal/inv/serialize.go.
use basiccoin.Base.{
  ℕ, ◌+◌, ◌*◌, ◌^◌, ◌<◌, ◌≡◌, ◌≢◌, refl, ap, ◌∙◌, Bool, true, false, List, [], ◌∷◌, ◌++◌, arith,
  All, All-append, length, length-append, lt→ltb,
}
use basiccoin.Base.Base64.{decode64-encode64, encode64-IsInLine}
use basiccoin.Base.Eq.{nat_eq, text_eq, list_beq}
use basiccoin.Base.Result.{ok, ◌>>=◌}
use basiccoin.Base.Text.{IsInLine, format_uint, parse_uint}
use basiccoin.Base.Text.Decimal.{format_uint-IsRow, format_uint-IsNotSign, parse_uint-format_uint}
use basiccoin.Base.Text.Lines.{EndsWell, append-EndsWell, split-trim-join}
use basiccoin.Core.Tx.{TxIn, TxOut}
use basiccoin.Hash.{IsHash}
use basiccoin.Hash.Hex.{new_hash-string}
use basiccoin.Inv.Records.{TxRecord}
use basiccoin.Inv.Serialize.RoundTrip.{string-IsRow}
use basiccoin.Inv.Serialize.Txs.{
  format_bool, input_rows, output_rows, tx_record_string, atoi, up_to_max, parse_bool, read_inputs,
  read_outputs, rows_expected, counts_fit, tx_record_of_rows, tx_record_from_string,
}

-- What the fields of Go's types hold.
pub record IsStoredIn (txi : TxIn) : Type 0 where
  pub tx_id : IsHash txi.utxo.tx_id
  pub ind : txi.utxo.ind < 2 ^ 64
  pub value : txi.utxo.value < 2 ^ 64
  pub public_key : All (λ b. b < 256) txi.public_key
  pub signature : All (λ b. b < 256) txi.signature

pub record IsStoredOut (txo : TxOut) : Type 0 where
  pub value : txo.value < 2 ^ 64
  pub public_key_hash : IsHash txo.public_key_hash

pub record IsStoredTx (t : TxRecord) : Type 0 where
  pub vsize : t.vsize < 2 ^ 64
  pub min_block : t.tx.min_block < 2 ^ 64
  pub num_inputs : length t.tx.inputs < 2 ^ 60
  pub num_outputs : length t.tx.outputs < 2 ^ 60
  pub inputs : All IsStoredIn t.tx.inputs
  pub outputs : All IsStoredOut t.tx.outputs

atoi-parse_uint :
    (text : List ℕ)
    → text ≢ []
    → All (λ c. 47 < c) text
    → atoi text ≡ (parse_uint text >>= up_to_max)
unfolding atoi
atoi-parse_uint [] some_text h = absurd (some_text refl)
atoi-parse_uint (c ∷ text) some_text h =
    let not_minus : nat_eq.beq c b'-' ≡ false = ground (arith, h.0) in
    let not_plus : nat_eq.beq c b'+' ≡ false = ground (arith, h.0) in rw (not_minus, not_plus) refl

atoi-format_uint : (n : ℕ) → n < 2 ^ 63 → atoi (format_uint n) ≡ ok (record { plus = n; minus = 0 })
atoi-format_uint n small =
    atoi-parse_uint (format_uint n) (format_uint-IsRow n).not_empty (format_uint-IsNotSign n)
    ∙ rw (parse_uint-format_uint n (omega arith), lt→ltb n (2 ^ 63) small) refl

parse_bool-format_bool : (b : Bool) → parse_bool (format_bool b) ≡ ok b
unfolding parse_bool format_bool list_beq
parse_bool-format_bool true = refl
parse_bool-format_bool false = refl

format_bool-IsInLine : (b : Bool) → IsInLine (format_bool b)
unfolding format_bool
format_bool-IsInLine true = ground arith
format_bool-IsInLine false = ground arith

input_rows-IsInLine : (txis : List TxIn) → All IsStoredIn txis → All IsInLine (input_rows txis)
unfolding input_rows
input_rows-IsInLine [] h = tt
input_rows-IsInLine (txi ∷ txis) (v, h) = (
  (string-IsRow _ v.tx_id).in_line,
  (
    (format_uint-IsRow txi.utxo.ind).in_line,
    (
      (format_uint-IsRow txi.utxo.value).in_line,
      (
        encode64-IsInLine _ v.public_key,
        (encode64-IsInLine _ v.signature, input_rows-IsInLine txis h),
      ),
    ),
  ),
)

output_rows-IsInLine : (txos : List TxOut) → All IsStoredOut txos → All IsInLine (output_rows txos)
unfolding output_rows
output_rows-IsInLine [] h = tt
output_rows-IsInLine (txo ∷ txos) (v, h) = (
  (format_uint-IsRow txo.value).in_line,
  ((string-IsRow _ v.public_key_hash).in_line, output_rows-IsInLine txos h),
)

output_rows-EndsWell :
    (txo : TxOut) (txos : List TxOut)
    → All IsStoredOut (txo ∷ txos)
    → EndsWell (output_rows (txo ∷ txos))
unfolding output_rows
output_rows-EndsWell txo [] (v, h) = string-IsRow _ v.public_key_hash
output_rows-EndsWell txo (next ∷ txos) (v, h) = output_rows-EndsWell next txos h

length-input_rows : (txis : List TxIn) → length (input_rows txis) ≡ length txis * 5
unfolding input_rows
length-input_rows [] = refl
length-input_rows (txi ∷ txis) = omega (arith, length-input_rows txis)

length-output_rows : (txos : List TxOut) → length (output_rows txos) ≡ length txos * 2
unfolding output_rows
length-output_rows [] = refl
length-output_rows (txo ∷ txos) = omega (arith, length-output_rows txos)

read_inputs-input_rows :
    (txis : List TxIn) (rest : List (List ℕ))
    → All IsStoredIn txis
    → read_inputs (length txis) (input_rows txis ++ rest) ≡ ok (txis, rest)
unfolding read_inputs input_rows
read_inputs-input_rows [] rest h = refl
read_inputs-input_rows (txi ∷ txis) rest (v, h) =
    rw
      (
        new_hash-string _ v.tx_id,
        parse_uint-format_uint _ v.ind,
        parse_uint-format_uint _ v.value,
        decode64-encode64 _ v.public_key,
        decode64-encode64 _ v.signature,
        read_inputs-input_rows txis rest h,
      )
      refl

read_outputs-output_rows :
    (txos : List TxOut)
    → All IsStoredOut txos
    → read_outputs (length txos) (output_rows txos) ≡ ok txos
unfolding read_outputs output_rows
read_outputs-output_rows [] h = refl
read_outputs-output_rows (txo ∷ txos) (v, h) =
    rw
      (
        parse_uint-format_uint _ v.value,
        new_hash-string _ v.public_key_hash,
        read_outputs-output_rows txos h,
      )
      refl

rows_expected-counts :
    (inputs outputs : ℕ)
    → rows_expected
        (inputs * 5 + outputs * 2)
        (record { plus = inputs; minus = 0 })
        (record { plus = outputs; minus = 0 })
      ≡ true
unfolding rows_expected
rows_expected-counts inputs outputs = ground arith

counts_fit-counts :
    (inputs outputs : ℕ)
    → counts_fit
        (inputs * 5 + outputs * 2)
        (record { plus = inputs; minus = 0 })
        (record { plus = outputs; minus = 0 })
      ≡ true
unfolding counts_fit
counts_fit-counts inputs outputs = ground arith

length-rows :
    (txis : List TxIn) (txos : List TxOut)
    → length (input_rows txis ++ output_rows txos) ≡ length txis * 5 + length txos * 2
length-rows txis txos =
    length-append (input_rows txis) (output_rows txos)
    ∙ ap (λ (n : ℕ). n + length (output_rows txos)) (length-input_rows txis)
    ∙ ap (λ (n : ℕ). length txis * 5 + n) (length-output_rows txos)

record_rows : TxRecord → List (List ℕ)
record_rows t =
    format_bool t.tx.is_coinbase
    ∷ format_uint t.tx.min_block
    ∷ format_uint (length t.tx.inputs)
    ∷ format_uint (length t.tx.outputs)
    ∷ (input_rows t.tx.inputs ++ output_rows t.tx.outputs)

record_rows-IsInLine : (t : TxRecord) → IsStoredTx t → All IsInLine (record_rows t)
unfolding record_rows
record_rows-IsInLine t h = (
  format_bool-IsInLine t.tx.is_coinbase,
  (
    (format_uint-IsRow t.tx.min_block).in_line,
    (
      (format_uint-IsRow (length t.tx.inputs)).in_line,
      (
        (format_uint-IsRow (length t.tx.outputs)).in_line,
        All-append IsInLine (input_rows t.tx.inputs) (output_rows t.tx.outputs)
            (input_rows-IsInLine t.tx.inputs h.inputs)
            (output_rows-IsInLine t.tx.outputs h.outputs),
      ),
    ),
  ),
)

output_rows-EndsWell-All :
    (txos : List TxOut) → txos ≢ [] → All IsStoredOut txos → EndsWell (output_rows txos)
output_rows-EndsWell-All [] some_output h = absurd (some_output refl)
output_rows-EndsWell-All (txo ∷ txos) some_output h = output_rows-EndsWell txo txos h

tx_record_of_rows-record_rows :
    (t : TxRecord) → IsStoredTx t → tx_record_of_rows (format_uint t.vsize ∷ record_rows t) ≡ ok t
unfolding tx_record_of_rows record_rows
tx_record_of_rows-record_rows t h =
    rw
      (
        parse_uint-format_uint _ h.vsize,
        parse_bool-format_bool t.tx.is_coinbase,
        parse_uint-format_uint _ h.min_block,
        atoi-format_uint (length t.tx.inputs) (omega (arith, h.num_inputs)),
        atoi-format_uint (length t.tx.outputs) (omega (arith, h.num_outputs)),
        length-rows t.tx.inputs t.tx.outputs,
        rows_expected-counts (length t.tx.inputs) (length t.tx.outputs),
        counts_fit-counts (length t.tx.inputs) (length t.tx.outputs),
        read_inputs-input_rows t.tx.inputs (output_rows t.tx.outputs) h.inputs,
        read_outputs-output_rows t.tx.outputs h.outputs,
      )
      refl

-- `TxRecordFromString` of the text that `String` gives of a transaction record with an output
-- returns the record, when its hashes have 32 bytes, its numbers are below 2^64, its keys and
-- signatures are of bytes, and it has fewer than 2^60 inputs and outputs.
pub tx_record_from_string_lem :
    (t : TxRecord)
    → IsStoredTx t
    → t.tx.outputs ≢ []
    → tx_record_from_string (tx_record_string t) ≡ ok t
unfolding tx_record_from_string tx_record_string record_rows
tx_record_from_string_lem t h some_output =
    ap tx_record_of_rows (
      split-trim-join (format_uint t.vsize) (record_rows t) (format_uint-IsRow t.vsize)
        (record_rows-IsInLine t h)
        (append-EndsWell
          (format_uint t.vsize
            ∷ format_bool t.tx.is_coinbase
            ∷ format_uint t.tx.min_block
            ∷ format_uint (length t.tx.inputs)
            ∷ format_uint (length t.tx.outputs)
            ∷ input_rows t.tx.inputs)
          (output_rows t.tx.outputs) (output_rows-EndsWell-All t.tx.outputs some_output h.outputs)))
    ∙ tx_record_of_rows-record_rows t h
