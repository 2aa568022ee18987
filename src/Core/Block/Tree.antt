-- ===== src/Core/Block/Tree.antt =====
-- `MerkleFromTxIds` of pkg/core/block.go.
use basiccoin.Base.{ℕ, zero, suc, ◌+◌, ◌/◌, true, false, List, [], ◌∷◌, map, leb, length}
use basiccoin.Base.Result.{Result, ok, panic}
use basiccoin.Collections.Map as Map
use basiccoin.Collections.Map.{Map}
use basiccoin.Collections.Util.{flatten_lists}
use basiccoin.Core.Block.{MerkleNode, merkle_hash}
use basiccoin.Hash.{HashT, hash_eq}
use basiccoin.Hash.Digest.{Sha256}

-- `int(math.Ceil(math.Log2(float64(n))))`, which the source computes in float64: halve, rounding
-- up, until 1 is left.
unfoldable pub ceil_log2_from : ℕ → ℕ → ℕ
ceil_log2_from zero n = 0
ceil_log2_from (suc fuel) n = elim (leb n 1) [
  | true ↦ 0
  | false ↦ suc (ceil_log2_from fuel ((n + 1) / 2))
]

unfoldable pub ceil_log2 : ℕ → ℕ
unfolding ceil_log2_from
ceil_log2 n = ceil_log2_from n n

-- The nodes over one layer: a node for each pair, and one with the odd last item twice.
unfoldable pub pair_up : List HashT → List MerkleNode
pair_up [] = []
pair_up (a ∷ []) = record { l_child = a; r_child = a } ∷ []
pair_up (a ∷ b ∷ rest) = record { l_child = a; r_child = b } ∷ pair_up rest

module _ ⦃sha : Sha256⦄ where
  unfoldable pub put_nodes : List MerkleNode → Map HashT MerkleNode → Map HashT MerkleNode
  put_nodes [] m = m
  put_nodes (node ∷ nodes) m = put_nodes nodes (Map.insert (merkle_hash node) node m)

  -- The layers above the given one, lowest first.
  unfoldable pub layers_above : ℕ → List HashT → List (List MerkleNode)
  layers_above zero layer = []
  layers_above (suc n) layer = pair_up layer ∷ layers_above n (map merkle_hash (pair_up layer))

  -- The nodes by their ids, and the ids in the order of insertion; the last is the root.
  unfoldable pub merkle_from_tx_ids : List HashT → Result (Map HashT MerkleNode × List HashT)
  merkle_from_tx_ids [] = panic
  merkle_from_tx_ids (tx_id ∷ []) =
      let node : MerkleNode = record { l_child = tx_id; r_child = tx_id } in
      ok (Map.insert (merkle_hash node) node [], merkle_hash node ∷ [])
  merkle_from_tx_ids (a ∷ b ∷ rest) =
      let layers = layers_above (ceil_log2 (length (a ∷ b ∷ rest))) (a ∷ b ∷ rest) in
      ok (put_nodes (flatten_lists layers) [], flatten_lists (map (map merkle_hash) layers))
