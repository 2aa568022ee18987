-- ===== src/Core/Params.antt =====
-- pkg/core/params.go.
use basiccoin.Base.{ℕ, List, ltb, not}
use basiccoin.Base.Result.{Result, ok, panic, ◌>>=◌, ◌>>◌, assert}
use basiccoin.Hash.{HashT, lt, new_hash_from_string}
use Prim.Native.Char.{code}
use Prim.Native.String.{String}
use mathlib.Core.List.{[], ◌∷◌}

-- The bytes of an ASCII text.
abbrev pub codes : String → List ℕ
codes String.[] = []
codes (String.◌∷◌ c s) = code c ∷ codes s

pub record Params : Type 0 where
  pub block_reward : ℕ
  pub difficulty_period : ℕ
  pub block_target_time : ℕ
  pub max_block_vsize : ℕ
  pub max_tx_vsize : ℕ
  pub max_target : HashT
  pub original_target : HashT

-- `NewHashTFromStringAssert`
unfoldable pub new_hash_from_string_assert : List ℕ → Result HashT
new_hash_from_string_assert text = elim (new_hash_from_string text) [ ok h ↦ ok h | _ ↦ panic ]

unfoldable pub verify : Params → Result (Unit {0})
verify p = do
  max_allowed_max_target ←
      new_hash_from_string_assert
        (codes "3fffffffffffffffffffffffffffffffffffffffffffffffffffffffffffffff")
  assert (not (lt max_allowed_max_target p.max_target))
  assert (not (ltb p.difficulty_period 4))

unfoldable pub prod_net_params : Result Params
prod_net_params = do
  max_target ←
      new_hash_from_string_assert
        (codes "0000000fffffffffffffffffffffffffffffffffffffffffffffffffffffffff")
  original_target ←
      new_hash_from_string_assert
        (codes "0000000fffffffffffffffffffffffffffffffffffffffffffffffffffffffff")
  let params : Params = record {
    block_reward = 131072;
    difficulty_period = 128;
    block_target_time = 720;
    max_block_vsize = 1048576;
    max_tx_vsize = 16384;
    max_target = max_target;
    original_target = original_target;
  }
  verify params
  ok params

unfoldable pub dev_net_params : Result Params
dev_net_params = do
  max_target ←
      new_hash_from_string_assert
        (codes "000000ffffffffffffffffffffffffffffffffffffffffffffffffffffffffff")
  original_target ←
      new_hash_from_string_assert
        (codes "000000ffffffffffffffffffffffffffffffffffffffffffffffffffffffffff")
  let params : Params = record {
    block_reward = 1000;
    difficulty_period = 8;
    block_target_time = 10;
    max_block_vsize = 1048576;
    max_tx_vsize = 16384;
    max_target = max_target;
    original_target = original_target;
  }
  verify params
  ok params
