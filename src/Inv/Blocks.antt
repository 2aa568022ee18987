-- ===== src/Inv/Blocks.antt =====
-- The reading methods of internal/inv/inv.go for blocks, and the walks along the chain.
use basiccoin.Base.{
  ℕ, zero, suc, ◌-◌, Bool, true, false, not, ◌||◌, Option, none, some, List, [], ◌∷◌, ltb,
  if◌then◌else◌, length,
}
use basiccoin.Base.Eq.{◌==◌, nat_eq}
use basiccoin.Base.Result.{Result, ok, panic, out_of_fuel, ◌>>=◌, ◌>>◌, assert, expect}
use basiccoin.Base.Word.{add64}
use basiccoin.Collections.Map as Map
use basiccoin.Core.Block.{Block}
use basiccoin.Hash.{HashT, hash_eq, eq_zero}
use basiccoin.Inv.Records.{Inv, BlockRecord}

unfoldable pub has_block : Inv → HashT → Bool
has_block inv id = Map.has id inv.blocks

-- The first of the ids that is known.
unfoldable pub has_any_block : Inv → List HashT → Option HashT
has_any_block inv [] = none
has_any_block inv (id ∷ ids) = if has_block inv id then some id else has_any_block inv ids

unfoldable pub get_block_record : Inv → HashT → Result BlockRecord
get_block_record inv id = Map.get id inv.blocks

unfoldable pub get_block : Inv → HashT → Result Block
get_block inv id = do r ← get_block_record inv id; ok r.block

unfoldable pub get_block_height : Inv → HashT → Result ℕ
get_block_height inv id = do r ← get_block_record inv id; ok r.height

unfoldable pub get_block_total_work : Inv → HashT → Result HashT
get_block_total_work inv id = do r ← get_block_record inv id; ok r.total_work

unfoldable pub get_block_parent_id : Inv → HashT → Result HashT
get_block_parent_id inv id = do assert (not (eq_zero id)); b ← get_block inv id; ok b.prev_block_id

-- The loop of `GetBlockAncestors`, by the rounds left.
unfoldable pub ancestors_from : Inv → ℕ → HashT → Result (List HashT)
ancestors_from inv zero next = ok []
ancestors_from inv (suc rounds) next = do
  parent ← get_block_parent_id inv next
  let rest : Result (List HashT) = ancestors_from inv rounds parent
  elim (eq_zero parent) [ true ↦ ok (parent ∷ []) | false ↦ do ids ← rest; ok (parent ∷ ids) ]

unfoldable pub get_block_ancestors : Inv → HashT → ℕ → Result (List HashT)
get_block_ancestors inv id max_len = do assert (not (eq_zero id)); ancestors_from inv max_len id

unfoldable pub last_item : List HashT → Result HashT
last_item [] = panic
last_item (h ∷ []) = ok h
last_item (h ∷ g ∷ hs) = last_item (g ∷ hs)

unfoldable pub get_block_specific_ancestor : Inv → HashT → ℕ → Result HashT
get_block_specific_ancestor inv id depth =
    if depth == 0 || eq_zero id
    then ok id
    else do ancestor_ids ← get_block_ancestors inv id depth; last_item ancestor_ids

-- A walk towards the root makes fewer steps than there are blocks.
abbrev pub walk_fuel : Inv → ℕ
walk_fuel inv = suc (length inv.blocks)

-- The loop of `GetBlockAncestorDepth`: the depth, if the ancestor is found.
unfoldable pub depth_from : Inv → ℕ → HashT → HashT → ℕ → Result (Option ℕ)
depth_from inv zero id ancestor_id depth = out_of_fuel
depth_from inv (suc fuel) id ancestor_id depth = elim (id == ancestor_id) [
  | true ↦ ok (some depth)
  | false ↦ elim (eq_zero id) [
    | true ↦ ok none
    | false ↦ do
      parent ← get_block_parent_id inv id
      depth_from inv fuel parent ancestor_id (add64 depth 1)
  ]
]

unfoldable pub get_block_ancestor_depth : Inv → HashT → HashT → Result (Option ℕ)
get_block_ancestor_depth inv id ancestor_id = depth_from inv (walk_fuel inv) id ancestor_id 0

-- The loop of `GetBlockAncestorsUntil`: the ids, and the block where it stops.
unfoldable pub ancestors_until_from : Inv → ℕ → HashT → HashT → Result (List HashT × HashT)
ancestors_until_from inv zero id until_id = ok ([], id)
ancestors_until_from inv (suc rounds) id until_id = do
  assert (not (eq_zero id || id == until_id))
  parent ← get_block_parent_id inv id
  (ids, last) ← ancestors_until_from inv rounds parent until_id
  ok (parent ∷ ids, last)

unfoldable pub get_block_ancestors_until : Inv → HashT → HashT → Result (List HashT)
get_block_ancestors_until inv id until_id = do
  found ← get_block_ancestor_depth inv id until_id
  depth ← expect found
  if ltb 1 depth
      then (do
        (ids, last) ← ancestors_until_from inv (depth - 1) id until_id
        parent ← get_block_parent_id inv last
        assert (parent == until_id)
        ok ids)
      else ok []

-- The first two loops of `GetBlockLCA`: move a block down to the height of the other.
unfoldable pub lower_to : Inv → ℕ → HashT → HashT → Result HashT
lower_to inv zero id other_id = out_of_fuel
lower_to inv (suc fuel) id other_id = do
  height ← get_block_height inv id
  other_height ← get_block_height inv other_id
  elim (ltb other_height height) [
    | false ↦ ok id
    | true ↦ do parent ← get_block_parent_id inv id; lower_to inv fuel parent other_id
  ]

-- The last loop of `GetBlockLCA`.
unfoldable pub step_both : Inv → ℕ → HashT → HashT → Result HashT
step_both inv zero id other_id = out_of_fuel
step_both inv (suc fuel) id other_id = elim (id == other_id) [
  | true ↦ ok id
  | false ↦ do
    parent ← get_block_parent_id inv id
    other_parent ← get_block_parent_id inv other_id
    step_both inv fuel parent other_parent
]

unfoldable pub get_block_lca : Inv → HashT → HashT → Result HashT
get_block_lca inv id other_id = do
  lowered ← lower_to inv (walk_fuel inv) id other_id
  other_lowered ← lower_to inv (walk_fuel inv) other_id lowered
  step_both inv (walk_fuel inv) lowered other_lowered
