-- ===== src/Peer/QuickVerify.antt =====
-- `quickVerifyChain` of internal/peer/sync.go, as conditions on the chain.
use basiccoin.Base.{◌+◌, ◌^◌, ◌<◌, ◌≡◌, true, List, [], ◌∷◌}
use basiccoin.Base.Result.{ok}
use basiccoin.Core.Block.{Block, block_hash}
use basiccoin.Hash.{HashT, big_int, hash_eq, lt}
use basiccoin.Hash.Digest.{Sha256}
use basiccoin.Inv.{Inv, get_block_total_work}
use basiccoin.Peer.Work.{claimed_work}

module _ ⦃sha : Sha256⦄ where
  -- A chain from the head down to the block above which it hangs, each block with its proof of work.
  abbrev pub IsProvenChain : HashT → HashT → List Block → Type 0
  IsProvenChain head lca [] = head ≡ lca
  IsProvenChain head lca (b ∷ bs) =
      (block_hash b ≡ head)
      × (lt (block_hash b) b.target ≡ true)
      × IsProvenChain b.prev_block_id lca bs

  -- The work of the common ancestor with the works that the blocks claim fits in a hash, and is more
  -- than that of our head.
  pub record HasMoreWork (inv : Inv) (cur_head lca : HashT) (blocks : List Block) : Type 0 where
    pub lca_work : HashT
    pub our_work : HashT
    pub lca_known : get_block_total_work inv lca ≡ ok lca_work
    pub our_known : get_block_total_work inv cur_head ≡ ok our_work
    pub fits : big_int lca_work + claimed_work blocks < 2 ^ 256
    pub more : big_int our_work < big_int lca_work + claimed_work blocks
