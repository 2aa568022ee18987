-- ===== src/Inv/Merkles.antt =====
-- The reading methods of internal/inv/inv.go for merkle nodes and transactions.
use basiccoin.Base.{
  ℕ, zero, suc, ◌^◌, Bool, true, false, ◌||◌, List, [], ◌∷◌, ◌++◌, none, some, ltb, if◌then◌else◌,
  length, get_elem?,
}
use basiccoin.Base.Eq.{◌==◌}
use basiccoin.Base.Result.{Result, ok, panic, out_of_fuel, ◌>>=◌, expect}
use basiccoin.Collections.Map as Map
use basiccoin.Collections.Queue as Queue
use basiccoin.Collections.Queue.{Queue}
use basiccoin.Core.Tx.{Tx, TxOut}
use basiccoin.Core.Block.{MerkleNode}
use basiccoin.Hash.{HashT, hash_eq}
use basiccoin.Inv.Records.{Inv}

unfoldable pub has_merkle : Inv → HashT → Bool
has_merkle inv id = Map.has id inv.merkles

unfoldable pub get_merkle : Inv → HashT → Result MerkleNode
get_merkle inv id = do r ← Map.get id inv.merkles; ok r.merkle

unfoldable pub get_merkle_vsize : Inv → HashT → Result ℕ
get_merkle_vsize inv id = do r ← Map.get id inv.merkles; ok r.vsize

unfoldable pub has_tx : Inv → HashT → Bool
has_tx inv id = Map.has id inv.txs

unfoldable pub get_tx : Inv → HashT → Result Tx
get_tx inv id = do r ← Map.get id inv.txs; ok r.tx

unfoldable pub get_tx_vsize : Inv → HashT → Result ℕ
get_tx_vsize inv id = do r ← Map.get id inv.txs; ok r.vsize

-- The children that are pushed: a right child only if it is another one.
unfoldable pub children : MerkleNode → List HashT
children node =
    if node.r_child == node.l_child then node.l_child ∷ [] else node.l_child ∷ node.r_child ∷ []

-- The loop of `GetMerkleTxIds`, which takes ids off the queue until it is empty.
unfoldable pub collect_tx_ids : Inv → ℕ → Queue HashT → List HashT → Result (List HashT)
collect_tx_ids inv zero q out = out_of_fuel
collect_tx_ids inv (suc fuel) q out = elim (Queue.pop q) [
  | none ↦ ok out
  | some (next_id, rest) ↦ elim (has_tx inv next_id) [
    | true ↦ collect_tx_ids inv fuel rest (out ++ next_id ∷ [])
    | false ↦ elim (has_merkle inv next_id) [
      | true ↦ do
        node ← get_merkle inv next_id
        collect_tx_ids inv fuel (Queue.push (children node) rest) out
      | false ↦ panic
    ]
  ]
]

-- A tree over n merkle nodes has fewer than 2^(n+1) places.
abbrev pub tree_fuel : Inv → ℕ
tree_fuel inv = 2 ^ suc (length inv.merkles)

unfoldable pub get_merkle_tx_ids : Inv → HashT → Result (List HashT)
get_merkle_tx_ids inv root = collect_tx_ids inv (tree_fuel inv) (Queue.new_queue (root ∷ [])) []

unfoldable pub get_txs : Inv → List HashT → Result (List Tx)
get_txs inv [] = ok []
get_txs inv (id ∷ ids) = do tx ← get_tx inv id; txs ← get_txs inv ids; ok (tx ∷ txs)

unfoldable pub get_merkle_txs : Inv → HashT → Result (List Tx)
get_merkle_txs inv root = do ids ← get_merkle_tx_ids inv root; get_txs inv ids

-- False on an unknown transaction.
unfoldable pub has_tx_out : Inv → HashT → ℕ → Bool
has_tx_out inv id ind = elim (get_tx inv id) [ ok tx ↦ ltb ind (length tx.outputs) | _ ↦ false ]

unfoldable pub get_tx_out : Inv → HashT → ℕ → Result TxOut
get_tx_out inv id ind = do tx ← get_tx inv id; expect (get_elem? tx.outputs ind)

unfoldable pub has_entity : Inv → HashT → Bool
has_entity inv id = has_merkle inv id || has_tx inv id

unfoldable pub get_entity_vsize : Inv → HashT → Result ℕ
get_entity_vsize inv id = if has_merkle inv id then get_merkle_vsize inv id else get_tx_vsize inv id
