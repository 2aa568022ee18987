-- ===== src/Inv/Walks.antt =====
-- The walks along the chain in internal/inv/inv.go, and `GetBlockAncestorDepth`.
use mathlib.Core.Path.{subst}
use basiccoin.Base.{
  ℕ, zero, suc, ◌+◌, ◌^◌, ◌<◌, ◌≡◌, ◌≢◌, ◌⊎◌, refl, sym, ◌∙◌, ap, true, false, some, none, arith,
  inl, inr, length, Bool-cases, Option,
}
use basiccoin.Base.Eq.{◌==◌}
use basiccoin.Base.Result.{Result, ok}
use basiccoin.Base.Word.{add64}
use basiccoin.Collections.Map as Map
use basiccoin.Collections.Map.{Map}
use basiccoin.Hash.{HashT, hash_eq, eq_iff, eq_zero, zero_hash}
use basiccoin.Inv.{Inv, BlockRecord, depth_from, get_block_ancestor_depth}
use basiccoin.Inv.Reads.{get_block_parent_id_lem}
use basiccoin.Inv.Invariant.{IsBlockTree}

-- `Above blocks n a b`: block `a` is `n` parents above block `b`.
pub data Above (blocks : Map HashT BlockRecord) : ℕ → HashT → HashT → Type 0 where
  here : {id : HashT} → Above blocks zero id id
  up :
      {n : ℕ} {a id : HashT} (r : BlockRecord)
      → id ≢ zero_hash
      → Map.lookup id blocks ≡ some r
      → Above blocks n a r.block.prev_block_id
      → Above blocks (suc n) a id

pub eq_zero→eq : (id : HashT) → eq_zero id ≡ true → id ≡ zero_hash
unfolding eq_zero
eq_zero→eq id h = (eq_iff id zero_hash).0 h

pub ne_zero : (id : HashT) → eq_zero id ≡ false → id ≢ zero_hash
unfolding eq_zero
ne_zero id h e = absurd (ground (arith, eq_iff id zero_hash))

-- A block has no block above it but itself, or it is above its parent too.
pub Above-cases :
    {blocks : Map HashT BlockRecord} {n : ℕ} {a id : HashT}
    → Above blocks n a id
    → ((n ≡ 0) × (a ≡ id))
      ⊎ ((m : ℕ) × (r : BlockRecord) × (n ≡ suc m)
          × (id ≢ zero_hash)
          × (Map.lookup id blocks ≡ some r)
          × Above blocks m a r.block.prev_block_id)
Above-cases here = inl (refl, refl)
Above-cases (up {n = m} r ne found above) = inr (m, r, refl, ne, found, above)

abbrev pub Finds : Inv → HashT → HashT → ℕ → Result (Option ℕ) → Type 0
Finds inv a id depth result =
    ((n : ℕ) × Above inv.blocks n a id × (result ≡ ok (some (depth + n))))
    ⊎ (((n : ℕ) → ¬ Above inv.blocks n a id) × (result ≡ ok none))

module _ (inv : Inv) (t : IsBlockTree inv.blocks) where
  root_has_none : (a : HashT) → a ≢ zero_hash → (n : ℕ) → ¬ Above inv.blocks n a zero_hash
  root_has_none a ne n h = elim (Above-cases h) [
    | inl (_, same) ↦ ne same
    | inr (_, _, _, root, _, _) ↦ root refl
  ]

  -- What the walk finds from the parent it finds from the block.
  Finds-up :
      (id a : HashT) (depth : ℕ) (r : BlockRecord) (result : Result (Option ℕ))
      → Map.lookup id inv.blocks ≡ some r
      → id ≢ zero_hash
      → id ≢ a
      → Finds inv a r.block.prev_block_id (depth + 1) result
      → Finds inv a id depth result
  Finds-up id a depth r result found ne other (inl (n, above, e)) =
      inl (suc n, up r ne found above, e ∙ ap (λ k. ok (some k)) (omega arith))
  Finds-up id a depth r result found ne other (inr (absent, e)) = inr (no_path, e)
    where
      no_path : (n : ℕ) → ¬ Above inv.blocks n a id
      no_path n h = elim (Above-cases h) [
        | inl (_, same) ↦ other (sym same)
        | inr (m, w, _, _, found', above) ↦
            let same : w ≡ r = cc in
            absent m
              (subst (λ (x : BlockRecord). Above inv.blocks m a x.block.prev_block_id) same above)
      ]

  depth_from_lem :
      (fuel : ℕ) (id a : HashT) (depth : ℕ) (r : BlockRecord)
      → Map.lookup id inv.blocks ≡ some r
      → r.height < fuel
      → depth + r.height < 2 ^ 64
      → Finds inv a id depth (depth_from inv fuel id a depth)
  unfolding depth_from
  depth_from_lem zero id a depth r found enough small = absurd (omega arith)
  depth_from_lem (suc fuel) id a depth r found enough small = elim (Bool-cases (id == a)) [
    | inl same ↦
        inl (0, subst (λ x. Above inv.blocks 0 x id) ((eq_iff id a).0 same) here, at_ancestor same)
    | inr other ↦ elim (Bool-cases (eq_zero id)) [
      | inl root ↦
          let zero_id : id ≡ zero_hash = eq_zero→eq id root in
          let ne : a ≢ zero_hash = λ e. absurd (ground (arith, eq_iff id a)) in
          inr (
            subst (λ x. (n : ℕ) → ¬ Above inv.blocks n a x) (sym zero_id) (root_has_none a ne),
            at_root other root,
          )
      | inr deep ↦
          let ne : id ≢ zero_hash = ne_zero id deep in
          let (p, known, higher, _) = t.parent id r ne found in
          let next =
            depth_from_lem fuel r.block.prev_block_id a (depth + 1) p known (omega arith)
              (omega arith) in
          rw (step other deep ne (omega arith))
            (Finds-up id a depth r _ found ne (λ e. absurd (ground (arith, eq_iff id a))) next)
    ]
  ]
    where
      at_ancestor : (id == a) ≡ true → depth_from inv (suc fuel) id a depth ≡ ok (some (depth + 0))
      at_ancestor same = rw (same, depth_from) (ap (λ k. ok (some k)) (omega arith))

      at_root :
          (id == a) ≡ false → eq_zero id ≡ true → depth_from inv (suc fuel) id a depth ≡ ok none
      at_root other root = rw (other, root, depth_from)

      step :
          (id == a) ≡ false
          → eq_zero id ≡ false
          → id ≢ zero_hash
          → 0 < r.height
          → depth_from inv (suc fuel) id a depth
            ≡ depth_from inv fuel r.block.prev_block_id a (depth + 1)
      step other deep ne pos =
          let exact : add64 depth 1 ≡ depth + 1 = omega arith in
          rw (other, deep, get_block_parent_id_lem inv id ne found, exact, depth_from)

  -- For a stored block of a block tree of fewer than 2^64 blocks, `GetBlockAncestorDepth` ends
  -- within the fuel: it gives a number of steps that lead up to the ancestor, or reports none
  -- when no number of steps does.
  pub get_block_ancestor_depth_lem :
      (id a : HashT) (r : BlockRecord)
      → Map.lookup id inv.blocks ≡ some r
      → length inv.blocks < 2 ^ 64
      → Finds inv a id 0 (get_block_ancestor_depth inv id a)
  unfolding get_block_ancestor_depth
  get_block_ancestor_depth_lem id a r found few =
      depth_from_lem (suc (length inv.blocks)) id a 0 r found (omega (arith, t.below id r found))
        (omega (arith, t.below id r found))
