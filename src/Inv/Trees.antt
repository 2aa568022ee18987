-- ===== src/Inv/Trees.antt =====
-- The walk over a merkle tree, `GetMerkleTxIds` of internal/inv/inv.go.
use native.Mathlib.Numerals.{add-one}
use native.Mathlib.Nat.{pow-suc, pow-le-pow_right, one-le-pow}
use basiccoin.Base.{
  ℕ, zero, suc, ◌+◌, ◌-◌, ◌^◌, ◌<◌, ◌≤◌, ◌≡◌, ◌⊎◌, refl, ap, true, false, some, List, [], ◌∷◌, ◌++◌,
  arith, inl, inr, length, Bool-cases, if◌then◌else◌, All, All-append,
}
use basiccoin.Base.Eq.{◌==◌}
use basiccoin.Base.Result.{ok, ◌>>=◌}
use basiccoin.Collections.Map as Map
use basiccoin.Collections.Map.{Map, lookup_of_has}
use basiccoin.Hash.{HashT, hash_eq}
use basiccoin.Inv.{
  Inv, MerkleRecord, collect_tx_ids, get_merkle_tx_ids, children, has_tx, has_merkle, get_merkle,
}
use basiccoin.Inv.Invariant.{IsForest, IsChild}

-- The item is known as a transaction or as a merkle node.
abbrev pub IsEntity : Inv → HashT → Type 0
IsEntity inv id = (has_tx inv id ≡ true) ⊎ (has_merkle inv id ≡ true)

pow-double : (k : ℕ) → 2 ^ (k + 1) ≡ 2 ^ k + 2 ^ k
pow-double k = rw (add-one, pow-suc) (omega arith)

pow-pos : (k : ℕ) → 1 ≤ 2 ^ k
pow-pos k = one-le-pow k 2 (omega arith)

pow_mono : (k n : ℕ) → k ≤ n → 2 ^ k ≤ 2 ^ n
pow_mono k n h = pow-le-pow_right (omega arith) h

module _ (inv : Inv) (f : IsForest inv.merkles inv.txs) where
  -- More rounds than the walk spends on an item and on all under it.
  cost : HashT → ℕ
  cost id = if has_tx inv id then 1 else 2 ^ (f.rank id + 2) - 1

  queue_cost : List HashT → ℕ
  queue_cost [] = 0
  queue_cost (id ∷ ids) = cost id + queue_cost ids

  queue_cost-append : (xs ys : List HashT) → queue_cost (xs ++ ys) ≡ queue_cost xs + queue_cost ys
  unfolding queue_cost
  queue_cost-append [] ys = omega arith
  queue_cost-append (x ∷ xs) ys = omega (arith, queue_cost-append xs ys)

  cost-pos : (id : HashT) → 0 < cost id
  unfolding cost
  cost-pos id = elim (Bool-cases (has_tx inv id)) [
    | inl tx ↦ rw tx (omega arith)
    | inr node ↦ rw node (
        let two : f.rank id + 2 ≡ f.rank id + 1 + 1 = omega arith in
        rw two (omega (arith, pow-double (f.rank id + 1), pow-pos (f.rank id + 1))))
  ]

  -- A child costs less than half of its parent.
  child-cost :
      (n : ℕ) (c : HashT) → IsChild inv.merkles inv.txs f.rank n c → cost c + 1 ≤ 2 ^ (n + 1)
  unfolding cost has_tx
  child-cost n c h = elim (Bool-cases (Map.has c inv.txs)) [
    | inl tx ↦ rw tx (omega (arith, pow-double n, pow-pos n))
    | inr node ↦
        rw node
          (omega (arith, pow_mono (f.rank c + 2) (n + 1) (low node h), pow-pos (f.rank c + 2)))
  ]
    where
      low :
          Map.has c inv.txs ≡ false → IsChild inv.merkles inv.txs f.rank n c → f.rank c + 2 ≤ n + 1
      low node (inl tx) = absurd (ground arith)
      low node (inr (_, less)) = omega arith

  children-cost :
      (id : HashT) (r : MerkleRecord)
      → Map.lookup id inv.merkles ≡ some r
      → has_tx inv id ≡ false
      → queue_cost (children r.merkle) < cost id
  unfolding cost children queue_cost
  children-cost id r found node = rw (top node) (
      omega (
        arith,
        both,
        child-cost (f.rank id) r.merkle.l_child (f.left id r found),
        child-cost (f.rank id) r.merkle.r_child (f.right id r found),
        pow-double (f.rank id + 1),
      ))
    where
      top : has_tx inv id ≡ false → cost id ≡ 2 ^ (f.rank id + 1 + 1) - 1
      top e = rw e (ap (λ k. 2 ^ k - 1) (omega arith))

      both : queue_cost (children r.merkle) ≤ cost r.merkle.l_child + cost r.merkle.r_child
      both = elim (Bool-cases (r.merkle.r_child == r.merkle.l_child)) [
        | inl same ↦ rw same (omega (arith, cost-pos r.merkle.r_child))
        | inr other ↦ rw other (omega arith)
      ]

  children-IsEntity :
      (id : HashT) (r : MerkleRecord)
      → Map.lookup id inv.merkles ≡ some r
      → All (IsEntity inv) (children r.merkle)
  unfolding children has_tx has_merkle
  children-IsEntity id r found = elim (Bool-cases (r.merkle.r_child == r.merkle.l_child)) [
    | inl same ↦ rw same (entity (f.rank id) r.merkle.l_child (f.left id r found), tt)
    | inr other ↦ rw other (
      entity (f.rank id) r.merkle.l_child (f.left id r found),
      (entity (f.rank id) r.merkle.r_child (f.right id r found), tt),
    )
  ]
    where
      entity : (n : ℕ) (c : HashT) → IsChild inv.merkles inv.txs f.rank n c → IsEntity inv c
      entity n c (inl tx) = inl tx
      entity n c (inr (node, _)) = inr node

  abbrev IsStored : HashT → Type 0
  IsStored id = has_tx inv id ≡ true

  get_merkle_lem :
      (id : HashT)
      → has_merkle inv id ≡ true
      → (r : MerkleRecord) × (Map.lookup id inv.merkles ≡ some r)
        × (get_merkle inv id ≡ ok r.merkle)
  unfolding has_merkle get_merkle
  get_merkle_lem id h = let (r, found) = lookup_of_has id inv.merkles h in (r, found, rw found)

  collect_tx_ids_lem :
      (fuel : ℕ) (q out : List HashT)
      → queue_cost q < fuel
      → All (IsEntity inv) q
      → All IsStored out
      → (ids : List HashT) × (collect_tx_ids inv fuel q out ≡ ok ids) × All IsStored ids
  unfolding queue_cost collect_tx_ids
  collect_tx_ids_lem zero q out enough known stored = absurd (omega arith)
  collect_tx_ids_lem (suc fuel) [] out enough known stored = (out, refl, stored)
  collect_tx_ids_lem (suc fuel) (id ∷ q) out enough known stored =
      elim (Bool-cases (has_tx inv id)) [
        | inl tx ↦
            let (ids, e, all) =
              collect_tx_ids_lem fuel q (out ++ id ∷ []) (omega (arith, cost-pos id)) known.1
                (All-append IsStored out (id ∷ []) stored (tx, tt)) in
            (ids, rw (tx, collect_tx_ids) e, all)
        | inr node ↦
            let merkle = is_merkle id known.0 node in
            let (r, found, got) = get_merkle_lem id merkle in
            let (ids, e, all) =
              collect_tx_ids_lem fuel (q ++ children r.merkle) out
                (omega
                  (arith, queue_cost-append q (children r.merkle), children-cost id r found node))
                (All-append (IsEntity inv) q (children r.merkle) known.1
                  (children-IsEntity id r found))
                stored in
            (ids, rw (node, merkle, got, ◌>>=◌, collect_tx_ids) e, all)
      ]
    where
      is_merkle : (id : HashT) → IsEntity inv id → has_tx inv id ≡ false → has_merkle inv id ≡ true
      is_merkle id (inl tx) node = absurd (ground arith)
      is_merkle id (inr merkle) node = merkle

  -- When the merkle nodes form a forest, `GetMerkleTxIds` ends within the fuel on every stored
  -- node, and gives ids of stored transactions only.
  pub get_merkle_tx_ids_lem :
      (root : HashT)
      → has_merkle inv root ≡ true
      → (ids : List HashT) × (get_merkle_tx_ids inv root ≡ ok ids)
        × All (λ id. has_tx inv id ≡ true) ids
  unfolding get_merkle_tx_ids queue_cost has_merkle
  get_merkle_tx_ids_lem root known =
      collect_tx_ids_lem (2 ^ suc (length inv.merkles)) (root ∷ []) [] enough (inr known, tt) tt
    where
      child : cost root + 1 ≤ 2 ^ (length inv.merkles + 1)
      child = child-cost (length inv.merkles) root (inr (known, f.rank_bound root known))

      grown : 2 ^ (length inv.merkles + 1) ≡ 2 ^ suc (length inv.merkles)
      grown = ap (λ k. 2 ^ k) (omega arith)

      enough : cost root + 0 < 2 ^ suc (length inv.merkles)
      enough = omega (arith, child, grown)
