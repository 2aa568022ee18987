-- ===== src/Inv/Invariant.antt =====
-- The invariants of the inventory.
use basiccoin.Base.{ℕ, ◌+◌, ◌<◌, ◌≡◌, ◌≢◌, ◌⊎◌, true, some, length}
use basiccoin.Collections.Map as Map
use basiccoin.Collections.Map.{Map}
use basiccoin.Hash.{HashT, IsHash, hash_eq, zero_hash, big_int}
use basiccoin.Inv.{Inv, BlockRecord, MerkleRecord, TxRecord}

-- The parent of a stored block is stored, one lower and with less work.
abbrev pub HasParent : Map HashT BlockRecord → BlockRecord → Type 0
HasParent blocks r =
    (p : BlockRecord) × (Map.lookup r.block.prev_block_id blocks ≡ some p)
    × (r.height ≡ p.height + 1)
    × (big_int p.total_work < big_int r.total_work)

-- The stored blocks form a tree under the zero block, in which heights count the steps.
pub record IsBlockTree (blocks : Map HashT BlockRecord) : Type 0 where
  pub root : BlockRecord
  pub root_known : Map.lookup zero_hash blocks ≡ some root
  pub root_height : root.height ≡ 0
  pub parent :
      (id : HashT) (r : BlockRecord)
      → id ≢ zero_hash
      → Map.lookup id blocks ≡ some r
      → HasParent blocks r
  pub below :
      (id : HashT) (r : BlockRecord) → Map.lookup id blocks ≡ some r → r.height < length blocks
  pub work : (id : HashT) (r : BlockRecord) → Map.lookup id blocks ≡ some r → IsHash r.total_work

-- A child is a transaction, or a merkle node of a smaller rank.
abbrev pub IsChild : Map HashT MerkleRecord → Map HashT TxRecord → (HashT → ℕ) → ℕ → HashT → Type 0
IsChild merkles txs rank n c = (Map.has c txs ≡ true) ⊎ ((Map.has c merkles ≡ true) × (rank c < n))

-- The stored merkle nodes have their children stored, and no path of them is a cycle.
pub record IsForest (merkles : Map HashT MerkleRecord) (txs : Map HashT TxRecord) : Type 0 where
  pub rank : HashT → ℕ
  pub rank_bound : (id : HashT) → Map.has id merkles ≡ true → rank id < length merkles
  pub left :
      (id : HashT) (r : MerkleRecord)
      → Map.lookup id merkles ≡ some r
      → IsChild merkles txs rank (rank id) r.merkle.l_child
  pub right :
      (id : HashT) (r : MerkleRecord)
      → Map.lookup id merkles ≡ some r
      → IsChild merkles txs rank (rank id) r.merkle.r_child

pub record IsValid (inv : Inv) : Type 0 where
  pub tree : IsBlockTree inv.blocks
  pub forest : IsForest inv.merkles inv.txs
