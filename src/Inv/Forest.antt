-- ===== src/Inv/Forest.antt =====
-- `StoreMerkle` and `StoreTx` of internal/inv/inv.go on the forest of merkle nodes, and `NewInv`.
use mathlib.Core.Path.{subst}
use basiccoin.Base.{
  ℕ, ◌<◌, ◌≤◌, ◌≡◌, ◌⊎◌, refl, sym, ap, true, not, some, none, arith, inl, inr, length, Bool-cases,
  if◌then◌else◌,
}
use basiccoin.Base.Eq.{◌==◌, beq_refl}
use basiccoin.Base.Result.{ok, >>=-eq-ok, guard-eq-ok}
use basiccoin.Base.Word.{add64}
use basiccoin.Collections.Map as Map
use basiccoin.Collections.Map.{
  Map, lookup-insert, has-insert, has_of_lookup, lookup_of_has, lookup_of_not_has,
  length-insert_new, lookup-insert_old, lookup-insert_cases, has-insert_old,
}
use basiccoin.Core.Block.{MerkleNode, merkle_hash, zero_block}
use basiccoin.Core.Crypto.{Ecdsa}
use basiccoin.Core.Params.{Params}
use basiccoin.Core.Tx.{Tx, tx_hash, vsize}
use basiccoin.Core.Verify.{verify_merkle, verify_right_child, verify_tx}
use basiccoin.Hash.{HashT, IsHash, hash_eq, eq_iff, zero_hash}
use basiccoin.Hash.Value.{zero_hash-IsHash}
use basiccoin.Hash.Digest.{Sha256}
use basiccoin.Inv.{
  Inv, BlockRecord, MerkleRecord, TxRecord, new_inv, store_merkle, store_tx, verifier_view,
  add_right_size, get_entity_vsize, has_merkle, has_tx, has_entity,
}
use basiccoin.Inv.Invariant.{IsForest, IsValid, IsChild}

abbrev root_record : BlockRecord
root_record = record { block = zero_block; height = 0; total_work = zero_hash }

-- The only block of a new inventory.
only_root :
    (params : Params) (id : HashT) (r : BlockRecord)
    → Map.lookup id (new_inv params).blocks ≡ some r
    → (zero_hash ≡ id) × (root_record ≡ r)
unfolding new_inv Map.lookup Map.insert
only_root params id r found = ground (arith, eq_iff zero_hash id)

-- `NewInv` is valid: it holds the zero block alone.
pub new_inv-IsValid : (params : Params) → IsValid (new_inv params)
unfolding new_inv Map.lookup Map.insert Map.has
new_inv-IsValid params = record {
  tree = record {
    root = root_record;
    root_known = rw (beq_refl zero_hash);
    root_height = refl;
    parent = λ id r ne found. absurd (ne (sym (only_root params id r found).0));
    below = λ id r found.
        omega (arith, ap (λ (x : BlockRecord). x.height) (only_root params id r found).1);
    work = λ id r found.
        subst (λ x. IsHash x.total_work) (only_root params id r found).1 zero_hash-IsHash;
  };
  forest = record {
    rank = λ id. 0;
    rank_bound = λ id h. absurd (ground arith);
    left = λ id r h. absurd (ground arith);
    right = λ id r h. absurd (ground arith);
  };
}

abbrev IsKnown : Map HashT MerkleRecord → Map HashT TxRecord → HashT → Type 0
IsKnown merkles txs c = (Map.has c txs ≡ true) ⊎ (Map.has c merkles ≡ true)

module _ (merkles : Map HashT MerkleRecord) (txs : Map HashT TxRecord) (f : IsForest merkles txs)
    (id : HashT) (r : MerkleRecord) (new : Map.lookup id merkles ≡ none) where
  -- The new node ranks above all others.
  grown_rank : HashT → ℕ
  grown_rank j = if id == j then length merkles else f.rank j

  grown_rank-new : grown_rank id ≡ length merkles
  unfolding grown_rank
  grown_rank-new = rw (beq_refl id)

  grown_rank-old : (c : HashT) → Map.has c merkles ≡ true → grown_rank c ≡ f.rank c
  unfolding grown_rank Map.has
  grown_rank-old c known = ground (arith, eq_iff id c)

  keep-IsChild :
      (n m : ℕ) (c : HashT)
      → n ≤ m
      → IsChild merkles txs f.rank n c
      → IsChild (Map.insert id r merkles) txs grown_rank m c
  keep-IsChild n m c le (inl tx) = inl tx
  keep-IsChild n m c le (inr (known, low)) =
      inr (has-insert_old id c r merkles known, omega (arith, grown_rank-old c known))

  new-IsChild :
      (c : HashT)
      → IsKnown merkles txs c
      → IsChild (Map.insert id r merkles) txs grown_rank (grown_rank id) c
  new-IsChild c (inl tx) = inl tx
  new-IsChild c (inr known) = inr (
    has-insert_old id c r merkles known,
    omega (arith, grown_rank-old c known, grown_rank-new, f.rank_bound c known),
  )

  grown_rank-bound :
      (j : HashT)
      → Map.has j (Map.insert id r merkles) ≡ true
      → grown_rank j < length (Map.insert id r merkles)
  unfolding grown_rank
  grown_rank-bound j h = elim (Bool-cases (id == j)) [
    | inl here ↦ rw here (omega (arith, length-insert_new id r merkles new))
    | inr other ↦ rw other (
        omega (
          arith,
          f.rank_bound j (ground (arith, has-insert id j r merkles)),
          length-insert_new id r merkles new,
        ))
  ]

  -- A child of any node, where `side` picks the left or the right one.
  grown-IsChild :
      (side : MerkleNode → HashT)
      → IsKnown merkles txs (side r.merkle)
      → ((j : HashT) (w : MerkleRecord)
          → Map.lookup j merkles ≡ some w
          → IsChild merkles txs f.rank (f.rank j) (side w.merkle))
      → (j : HashT) (w : MerkleRecord) → Map.lookup j (Map.insert id r merkles) ≡ some w
      → IsChild (Map.insert id r merkles) txs grown_rank (grown_rank j) (side w.merkle)
  grown-IsChild side known keep j w found = elim (lookup-insert_cases id j r w merkles found) [
    | inl (here, same) ↦
        subst
          (λ (x : MerkleRecord).
            IsChild (Map.insert id r merkles) txs grown_rank (grown_rank j) (side x.merkle))
          same
          (subst
            (λ x. IsChild (Map.insert id r merkles) txs grown_rank (grown_rank x) (side r.merkle))
            here (new-IsChild (side r.merkle) known))
    | inr old ↦
        keep-IsChild (f.rank j) (grown_rank j) (side w.merkle)
          (omega (arith, grown_rank-old j (has_of_lookup j w merkles old))) (keep j w old)
  ]

  pub insert-IsForest :
      IsKnown merkles txs r.merkle.l_child
      → IsKnown merkles txs r.merkle.r_child
      → IsForest (Map.insert id r merkles) txs
  insert-IsForest l_known r_known = record {
    rank = grown_rank;
    rank_bound = grown_rank-bound;
    left = grown-IsChild (λ node. node.l_child) l_known f.left;
    right = grown-IsChild (λ node. node.r_child) r_known f.right;
  }

-- What `HasEntity` says.
entity-IsKnown : (inv : Inv) (c : HashT) → has_entity inv c ≡ true → IsKnown inv.merkles inv.txs c
unfolding has_entity has_merkle has_tx
entity-IsKnown inv c h = ground arith

-- `VerifyMerkle` accepts a node only over known children.
right-IsKnown :
    (inv : Inv) (node : MerkleNode) (size : ℕ) {total : ℕ}
    → IsKnown inv.merkles inv.txs node.l_child
    → verify_right_child (verifier_view inv) node size ≡ ok total
    → IsKnown inv.merkles inv.txs node.r_child
unfolding verify_right_child
right-IsKnown inv node size l_known e = elim (Bool-cases (node.r_child == node.l_child)) [
  | inl same ↦
      subst (IsKnown inv.merkles inv.txs) (sym ((eq_iff node.r_child node.l_child).0 same)) l_known
  | inr other ↦
      let e₁ = rw other at e in
      entity-IsKnown inv node.r_child (guard-eq-ok (has_entity inv node.r_child) _ _ e₁).0
]

verify_merkle-IsKnown :
    (params : Params) (inv : Inv) (node : MerkleNode)
    → verify_merkle params (verifier_view inv) node ≡ ok tt
    → IsKnown inv.merkles inv.txs node.l_child × IsKnown inv.merkles inv.txs node.r_child
unfolding verify_merkle
verify_merkle-IsKnown params inv node e =
    let (known, e₁) = guard-eq-ok (has_entity inv node.l_child) _ _ e in
    let (l_size, _, e₂) = >>=-eq-ok (get_entity_vsize inv node.l_child) _ e₁ in
    let (total, right, _) =
      >>=-eq-ok (verify_right_child (verifier_view inv) node (add64 0 l_size)) _ e₂ in
    let l_known = entity-IsKnown inv node.l_child known in
    (l_known, right-IsKnown inv node (add64 0 l_size) l_known right)

-- If `StoreMerkle` succeeds on a valid inventory, the inventory stays valid: the children of
-- every stored node are stored, and no path of nodes is a cycle.
pub store_merkle-IsValid :
    ⦃sha : Sha256⦄ (inv : Inv) (node : MerkleNode) {inv' : Inv}
    → IsValid inv
    → store_merkle inv node ≡ ok inv'
    → IsValid inv'
unfolding store_merkle has_merkle
store_merkle-IsValid inv node {inv'} v e =
    let (fresh, e₁) = guard-eq-ok (not (has_merkle inv (merkle_hash node))) _ _ e in
    let (_, checked, e₂) =
      >>=-eq-ok (verify_merkle inv.core_params (verifier_view inv) node) _ e₁ in
    let (l_size, _, e₃) = >>=-eq-ok (get_entity_vsize inv node.l_child) _ e₂ in
    let (total, _, e₄) = >>=-eq-ok (add_right_size inv node l_size) _ e₃ in
    let new : Map.lookup (merkle_hash node) inv.merkles ≡ none =
      lookup_of_not_has (merkle_hash node) inv.merkles (ground arith) in
    let (l_known, r_known) = verify_merkle-IsKnown inv.core_params inv node checked in
    let stored : MerkleRecord = record { merkle = node; vsize = total } in
    let done : record inv { merkles = Map.insert (merkle_hash node) stored inv.merkles } ≡ inv' =
      cc in
    subst IsValid done (record {
      tree = v.tree;
      forest =
          insert-IsForest inv.merkles inv.txs v.forest (merkle_hash node) stored new l_known
            r_known;
    })

more_txs-IsForest :
    (merkles : Map HashT MerkleRecord) (txs : Map HashT TxRecord) (id : HashT) (r : TxRecord)
    → IsForest merkles txs
    → IsForest merkles (Map.insert id r txs)
more_txs-IsForest merkles txs id r f = record {
  rank = f.rank;
  rank_bound = f.rank_bound;
  left = λ j w found. kept (f.rank j) w.merkle.l_child (f.left j w found);
  right = λ j w found. kept (f.rank j) w.merkle.r_child (f.right j w found);
}
  where
    kept :
        (n : ℕ) (c : HashT)
        → IsChild merkles txs f.rank n c
        → IsChild merkles (Map.insert id r txs) f.rank n c
    kept n c (inl tx) = inl (has-insert_old id c r txs tx)
    kept n c (inr node) = inr node

-- If `StoreTx` succeeds on a valid inventory, the inventory stays valid.
pub store_tx-IsValid :
    ⦃sha : Sha256⦄ ⦃ecdsa : Ecdsa⦄ (inv : Inv) (tx : Tx) {inv' : Inv}
    → IsValid inv
    → store_tx inv tx ≡ ok inv'
    → IsValid inv'
unfolding store_tx
store_tx-IsValid inv tx {inv'} v e =
    let (fresh, e₁) = guard-eq-ok (not (has_tx inv (tx_hash tx))) _ _ e in
    let (_, checked, e₂) = >>=-eq-ok (verify_tx inv.core_params (verifier_view inv) tx) _ e₁ in
    let stored : TxRecord = record { tx = tx; vsize = vsize tx } in
    let done : record inv { txs = Map.insert (tx_hash tx) stored inv.txs } ≡ inv' = cc in
    subst IsValid done (record {
      tree = v.tree;
      forest = more_txs-IsForest inv.merkles inv.txs (tx_hash tx) stored v.forest;
    })
