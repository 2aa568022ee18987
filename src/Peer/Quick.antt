-- ===== src/Peer/Quick.antt =====
-- `quickVerifyChain` of internal/peer/sync.go.
use basiccoin.Base.{Bool, true, ◌&&◌, List, [], ◌∷◌}
use basiccoin.Base.Eq.{◌==◌, nat_eq}
use basiccoin.Base.Result.{
  Result, Error, ok, err, panic, out_of_fuel, guard, assert, wrong_head, not_continuous,
  not_attached, not_more_work, misses_claimed_target,
}
use basiccoin.Base.Result as Result
use basiccoin.Core.Block.{Block, block_hash}
use basiccoin.Hash.{HashT, hash_eq, lt, work_append_target}
use basiccoin.Hash.Digest.{Sha256}
use basiccoin.Inv.{Inv, get_block_total_work}

module _ ⦃sha : Sha256⦄ where
  -- The loop of `quickVerifyChain` over neighbours.
  unfoldable pub is_continuous : List Block → Bool
  is_continuous [] = true
  is_continuous (b ∷ []) = true
  is_continuous (b ∷ next ∷ rest) =
      (b.prev_block_id == block_hash next) && is_continuous (next ∷ rest)

  unfoldable pub last_block : Block → List Block → Block
  last_block b [] = b
  last_block b (next ∷ rest) = last_block next rest

  unfoldable pub all_beat : List Block → Bool
  all_beat [] = true
  all_beat (b ∷ rest) = lt (block_hash b) b.target && all_beat rest

unfoldable pub append_targets : HashT → List Block → Result HashT
append_targets work [] = ok work
append_targets work (b ∷ rest) =
    Result.◌>>=◌ (work_append_target work b.target) (λ more. append_targets more rest)

module _ ⦃sha : Sha256⦄ where
  -- An empty list is an index out of range.
  unfoldable pub quick_verify_chain : Inv → HashT → HashT → HashT → List Block → Result (Unit {0})
  quick_verify_chain inv cur_head new_head lca_id [] = panic
  quick_verify_chain inv cur_head new_head lca_id (first ∷ rest) =
      Result.◌>>◌ (guard (block_hash first == new_head) wrong_head) (
        Result.◌>>◌ (guard (is_continuous (first ∷ rest)) not_continuous) (
          Result.◌>>◌ (guard ((last_block first rest).prev_block_id == lca_id) not_attached) (
            Result.◌>>=◌ (get_block_total_work inv lca_id) (λ lca_work.
              Result.◌>>=◌ (append_targets lca_work (first ∷ rest)) (λ new_work.
                Result.◌>>=◌ (get_block_total_work inv cur_head) (λ our_work.
                  Result.◌>>◌ (guard (lt our_work new_work) not_more_work)
                    (guard (all_beat (first ∷ rest)) misses_claimed_target)))))))
