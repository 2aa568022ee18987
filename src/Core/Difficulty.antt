-- ===== src/Core/Difficulty.antt =====
-- pkg/core/difficulty.go: the target of the next block. What it logs is left out.
pub mod Bounds
use basiccoin.Base.{ℕ, ◌+◌, ◌-◌, ◌*◌, ◌/◌, ◌%◌, ◌^◌, Bool, not, ◌||◌, List, ltb, leb, if◌then◌else◌}
use basiccoin.Base.Eq.{◌==◌, nat_eq}
use basiccoin.Base.Result.{
  Result, ok, err, panic, out_of_fuel, ◌>>=◌, ◌>>◌, guard, too_soon_to_adjust, mined_before_first,
}
use basiccoin.Base.Word.{add64, sub64, mul64, mod64, div64}
use basiccoin.Core.Params.{Params}
use basiccoin.Core.Block.{Block}
use basiccoin.Hash.{
  HashT, eq_zero, lt, big_int, big_int2_256, new_hash_from_big_int, min_next_target,
  max_next_target,
}

-- The reading methods that the target needs.
pub record InvTargeter : Type 0 where
  pub get_block : HashT → Result Block
  pub get_block_height : HashT → Result ℕ
  pub get_block_specific_ancestor : HashT → ℕ → Result HashT

-- The actual and the desired time for the blocks of this period so far.
unfoldable pub expected_target_adjustment : Params → InvTargeter → HashT → Result (ℕ × ℕ)
expected_target_adjustment params inv head = do
  head_height ← inv.get_block_height head
  in_period ← if ltb head_height 2 then ok 0 else mod64 head_height params.difficulty_period
  guard (not (ltb head_height 2 || in_period == 0)) too_soon_to_adjust
  period ← div64 head_height params.difficulty_period
  let first_height : ℕ =
      if ltb head_height params.difficulty_period then 1 else mul64 period params.difficulty_period
  let num_blocks_measured : ℕ = sub64 head_height first_height
  head_block ← inv.get_block head
  period_first_id ← inv.get_block_specific_ancestor head num_blocks_measured
  first_block ← inv.get_block period_first_id
  guard (ltb first_block.mined_time head_block.mined_time) mined_before_first
  ok (
    sub64 head_block.mined_time first_block.mined_time,
    mul64 params.block_target_time num_blocks_measured,
  )

-- An error is turned into a panic.
unfoldable pub or_panic {ℓ} : {A : Type ℓ} → Result A → Result A
or_panic (ok a) = ok a
or_panic (err e) = panic
or_panic panic = panic
or_panic out_of_fuel = out_of_fuel

-- Keep the target within a factor of 4 of the last one: first the lower bound, then the upper.
unfoldable pub clamp_target : Params → HashT → HashT → Result HashT
clamp_target params prev_target target = do
  min_next ← min_next_target prev_target
  let raised : HashT = if lt target min_next then min_next else target
  max_next ← max_next_target params.max_target prev_target
  ok (if lt max_next raised then max_next else raised)

-- `big.Int.Div`, which panics on a zero divisor.
unfoldable pub adjusted : HashT → ℕ → ℕ → Result ℕ
adjusted prev_target actual desired =
    if desired == 0
    then panic
    else let quotient = big_int prev_target * actual / desired in
      ok (if ltb big_int2_256 quotient then big_int2_256 else quotient)

unfoldable pub next_target : Params → InvTargeter → HashT → Result HashT
next_target params inv prev_block_id =
    if eq_zero prev_block_id then ok params.original_target else do
      height ← inv.get_block_height prev_block_id
      r ← mod64 (add64 height 1) params.difficulty_period
      if not (r == 0) then (do prev ← inv.get_block prev_block_id; ok prev.target) else do
        times ← or_panic (expected_target_adjustment params inv prev_block_id)
        prev ← inv.get_block prev_block_id
        target_int ← adjusted prev.target times.0 times.1
        target ← new_hash_from_big_int target_int
        clamp_target params prev.target target
