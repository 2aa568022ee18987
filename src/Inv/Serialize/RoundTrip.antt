-- ===== src/Inv/Serialize/RoundTrip.antt =====
-- Reading the text of a record, in internal/inv/serialize.go.
use basiccoin.Base.{
  ℕ, ◌^◌, ◌<◌, ◌≡◌, ◌≢◌, refl, ap, ◌∙◌, List, [], ◌∷◌, arith, All, length, ◌/◌, ◌%◌,
}
use basiccoin.Base.Result.{ok}
use basiccoin.Base.Text.{IsRow, newline}
use basiccoin.Base.Text.Decimal.{format_uint-IsRow, parse_uint-format_uint}
use basiccoin.Base.Text.Lines.{split-trim-join_rows}
use basiccoin.Hash.{HashT, IsHash, string, encode_hex, hex_digit}
use basiccoin.Hash.Hex.{new_hash-string}
use basiccoin.Inv.Records.{BlockRecord, MerkleRecord}
use basiccoin.Inv.Serialize.{
  block_record_string, block_record_from_string, block_record_of_rows, merkle_record_string,
  merkle_record_from_string, merkle_record_of_rows,
}

hex_digit_printed : (n : ℕ) → n < 16 → hex_digit n ≢ newline
unfolding hex_digit
hex_digit_printed n h = ground arith

encode_hex_in_line : (bs : List ℕ) → All (λ b. b < 256) bs → All (λ c. c ≢ newline) (encode_hex bs)
unfolding encode_hex
encode_hex_in_line [] h = tt
encode_hex_in_line (b ∷ bs) h = (
  hex_digit_printed (b / 16) (omega arith),
  (hex_digit_printed (b % 16) (omega arith), encode_hex_in_line bs h.1),
)

string_not_empty : (bs : List ℕ) → bs ≢ [] → encode_hex bs ≢ []
unfolding encode_hex
string_not_empty [] h = h
string_not_empty (b ∷ bs) h = λ e. cc

pub string-IsRow : (h : HashT) → IsHash h → IsRow (string h)
unfolding string
string-IsRow h v = record {
  not_empty = string_not_empty h.bytes (λ e. absurd (omega (arith, v.size, ap length e)));
  in_line = encode_hex_in_line h.bytes v.in_range;
}

-- What the fields of Go's types hold.
pub record IsStored (b : BlockRecord) : Type 0 where
  pub prev : IsHash b.block.prev_block_id
  pub root : IsHash b.block.merkle_root
  pub target : IsHash b.block.target
  pub noise : IsHash b.block.noise
  pub nonce : b.block.nonce < 2 ^ 64
  pub mined_time : b.block.mined_time < 2 ^ 64
  pub height : b.height < 2 ^ 64
  pub work : IsHash b.total_work

-- `BlockRecordFromString` of the text that `String` gives of a block record returns the record,
-- when its hashes have 32 bytes and its numbers are below 2^64.
pub block_record_from_string_lem :
    (b : BlockRecord) → IsStored b → block_record_from_string (block_record_string b) ≡ ok b
unfolding block_record_from_string block_record_string block_record_of_rows
block_record_from_string_lem b v =
    ap block_record_of_rows (
      split-trim-join_rows _ _ (
        string-IsRow _ v.prev,
        (
          string-IsRow _ v.root,
          (
            string-IsRow _ v.target,
            (
              string-IsRow _ v.noise,
              (
                format_uint-IsRow b.block.nonce,
                (
                  format_uint-IsRow b.block.mined_time,
                  (format_uint-IsRow b.height, (string-IsRow _ v.work, tt)),
                ),
              ),
            ),
          ),
        ),
      ))
    ∙ rw
        (
          new_hash-string _ v.prev,
          new_hash-string _ v.root,
          new_hash-string _ v.target,
          new_hash-string _ v.noise,
          parse_uint-format_uint b.block.nonce v.nonce,
          parse_uint-format_uint b.block.mined_time v.mined_time,
          parse_uint-format_uint b.height v.height,
          new_hash-string _ v.work,
        )
        refl

-- `MerkleRecordFromString` of the text that `String` gives of a merkle record returns the record,
-- when its hashes have 32 bytes and its size is below 2^64.
merkle_record_from_string_lem :
    (m : MerkleRecord)
    → IsHash m.merkle.l_child
    → IsHash m.merkle.r_child
    → m.vsize < 2 ^ 64
    → merkle_record_from_string (merkle_record_string m) ≡ ok m
unfolding merkle_record_from_string merkle_record_string merkle_record_of_rows
merkle_record_from_string_lem m l r small =
    ap merkle_record_of_rows (
      split-trim-join_rows _ _
        (string-IsRow _ l, (string-IsRow _ r, (format_uint-IsRow m.vsize, tt))))
    ∙ rw (new_hash-string _ l, new_hash-string _ r, parse_uint-format_uint m.vsize small) refl
