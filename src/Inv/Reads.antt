-- ===== src/Inv/Reads.antt =====
-- What a read that succeeds says of the maps.
use basiccoin.Base.{ℕ, ◌≡◌, ◌≢◌, some, arith}
use basiccoin.Base.Eq.{beq_ne}
use basiccoin.Base.Result.{ok}
use basiccoin.Collections.Map as Map
use basiccoin.Core.Block.{Block}
use basiccoin.Hash.{HashT, hash_eq, eq_zero, zero_hash}
use basiccoin.Inv.{
  Inv, BlockRecord, get_block_record, get_block, get_block_height, get_block_total_work,
  get_block_parent_id,
}

module _ (inv : Inv) (id : HashT) where
  pub get_block-eq-ok :
      {b : Block}
      → get_block inv id ≡ ok b
      → (r : BlockRecord) × (Map.lookup id inv.blocks ≡ some r) × (r.block ≡ b)
  unfolding get_block get_block_record
  get_block-eq-ok e = ground arith

  pub get_block_height-eq-ok :
      {h : ℕ}
      → get_block_height inv id ≡ ok h
      → (r : BlockRecord) × (Map.lookup id inv.blocks ≡ some r) × (r.height ≡ h)
  unfolding get_block_height get_block_record
  get_block_height-eq-ok e = ground arith

  pub get_block_total_work-eq-ok :
      {w : HashT}
      → get_block_total_work inv id ≡ ok w
      → (r : BlockRecord) × (Map.lookup id inv.blocks ≡ some r) × (r.total_work ≡ w)
  unfolding get_block_total_work get_block_record
  get_block_total_work-eq-ok e = ground arith

  pub get_block_height_lem :
      {r : BlockRecord} → Map.lookup id inv.blocks ≡ some r → get_block_height inv id ≡ ok r.height
  unfolding get_block_height get_block_record
  get_block_height_lem e = rw e

  -- The parent of a stored block that is not the zero block.
  pub get_block_parent_id_lem :
      {r : BlockRecord}
      → id ≢ zero_hash
      → Map.lookup id inv.blocks ≡ some r
      → get_block_parent_id inv id ≡ ok r.block.prev_block_id
  unfolding get_block_parent_id get_block get_block_record eq_zero
  get_block_parent_id_lem ne e = rw (beq_ne id zero_hash ne, e)
