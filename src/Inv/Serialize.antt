-- ===== src/Inv/Serialize.antt =====
-- internal/inv/serialize.go: the text of a block record and of a merkle record; that of
-- a transaction record is in the module Txs. The wording of an
-- error is left out.
pub mod RoundTrip
pub mod Txs
use basiccoin.Base.{ℕ, List, [], ◌∷◌}
use basiccoin.Base.Result.{Result, ok, err, ◌>>=◌, incorrect_rows}
use basiccoin.Base.Text.{join, split, trim, format_uint, parse_uint}
use basiccoin.Hash.{string, new_hash_from_string}
use basiccoin.Inv.Records.{BlockRecord, MerkleRecord}

unfoldable pub block_record_string : BlockRecord → List ℕ
block_record_string b = join (
    string b.block.prev_block_id
    ∷ string b.block.merkle_root
    ∷ string b.block.target
    ∷ string b.block.noise
    ∷ format_uint b.block.nonce
    ∷ format_uint b.block.mined_time
    ∷ format_uint b.height
    ∷ string b.total_work
    ∷ [])

unfoldable pub block_record_of_rows : List (List ℕ) → Result BlockRecord
block_record_of_rows (row₀ ∷ row₁ ∷ row₂ ∷ row₃ ∷ row₄ ∷ row₅ ∷ row₆ ∷ row₇ ∷ []) = do
  prev_block_id ← new_hash_from_string row₀
  merkle_root ← new_hash_from_string row₁
  target ← new_hash_from_string row₂
  noise ← new_hash_from_string row₃
  nonce ← parse_uint row₄
  mined_time ← parse_uint row₅
  height ← parse_uint row₆
  total_work ← new_hash_from_string row₇
  ok (record {
    block = record {
      prev_block_id = prev_block_id;
      merkle_root = merkle_root;
      target = target;
      noise = noise;
      nonce = nonce;
      mined_time = mined_time;
    };
    height = height;
    total_work = total_work;
  })
block_record_of_rows _ = err incorrect_rows

unfoldable pub block_record_from_string : List ℕ → Result BlockRecord
block_record_from_string raw = block_record_of_rows (split (trim raw))

unfoldable pub merkle_record_string : MerkleRecord → List ℕ
merkle_record_string m =
    join (string m.merkle.l_child ∷ string m.merkle.r_child ∷ format_uint m.vsize ∷ [])

unfoldable pub merkle_record_of_rows : List (List ℕ) → Result MerkleRecord
merkle_record_of_rows (row₀ ∷ row₁ ∷ row₂ ∷ []) = do
  l_child ← new_hash_from_string row₀
  r_child ← new_hash_from_string row₁
  vsize ← parse_uint row₂
  ok (record { merkle = record { l_child = l_child; r_child = r_child }; vsize = vsize })
merkle_record_of_rows _ = err incorrect_rows

unfoldable pub merkle_record_from_string : List ℕ → Result MerkleRecord
merkle_record_from_string raw = merkle_record_of_rows (split (trim raw))
