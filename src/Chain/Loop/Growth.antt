-- ===== src/Chain/Loop/Growth.antt =====
-- What the stores of internal/inv/inv.go bring to the chain's inventory.
use basiccoin.Base.{ℕ, ◌<◌, ◌^◌, ◌≡◌, refl, sym, ◌∙◌, ap, not, length, arith, some, none, inl, inr}
use basiccoin.Base.Result as Result
use basiccoin.Base.Result.{Result, ok, >>=-eq-ok, guard-eq-ok, ok-injective}
use basiccoin.Base.Word.{add64}
use basiccoin.Chain.Loop.Sound.{Grows}
use basiccoin.Chain.State.Index.Moves.{IsKeyed}
use basiccoin.Collections.Map as Map
use basiccoin.Collections.Map.{
  has-insert_old, length-insert_new, lookup-insert_old, lookup-insert_cases, lookup_of_not_has,
}
use basiccoin.Core.Block.{Block, MerkleNode, block_hash, merkle_hash}
use basiccoin.Core.Crypto.{Ecdsa}
use basiccoin.Core.Tx.{Tx, tx_hash, vsize}
use basiccoin.Core.Verify.{verify_tx, verify_merkle}
use basiccoin.Hash.{HashT, IsHash, hash_eq}
use basiccoin.Hash.Digest.{Sha256}
use basiccoin.Inv.{
  Inv, BlockRecord, has_block, has_merkle, has_tx, get_tx, TxRecord, store_tx, store_merkle,
  store_block, get_entity_vsize, add_right_size, verifier_view,
}
use basiccoin.Inv.Forest.{store_tx-IsValid, store_merkle-IsValid}
use basiccoin.Inv.Invariant.{IsValid}
use basiccoin.Inv.Store.{store_block-IsValid, store_block-eq-ok}

get_tx-found :
    (inv : Inv) (id : HashT) (tx : Tx)
    → get_tx inv id ≡ ok tx
    → (r : TxRecord) × (Map.lookup id inv.txs ≡ some r) × (r.tx ≡ tx)
unfolding get_tx
get_tx-found inv id tx e = ground arith

found-get_tx :
    (inv : Inv) (id : HashT) (r : TxRecord)
    → Map.lookup id inv.txs ≡ some r
    → get_tx inv id ≡ ok r.tx
unfolding get_tx
found-get_tx inv id r e = rw e refl

same_txs-get_tx :
    (inv inv' : Inv) (id : HashT) → inv'.txs ≡ inv.txs → get_tx inv' id ≡ get_tx inv id
unfolding get_tx
same_txs-get_tx inv inv' id same =
    ap (λ m. Result.◌>>=◌ (Map.get id m) (λ (r : TxRecord). ok r.tx)) same

module _ ⦃sha : Sha256⦄ where
  same_txs-IsKeyed : (inv inv' : Inv) → inv'.txs ≡ inv.txs → IsKeyed inv → IsKeyed inv'
  same_txs-IsKeyed inv inv' same keyed id tx found =
      keyed id tx (sym (same_txs-get_tx inv inv' id same) ∙ found)

  pub store_tx-Grows :
      ⦃ecdsa : Ecdsa⦄ (inv : Inv) (tx : Tx) (inv' : Inv)
      → IsValid inv
      → IsKeyed inv
      → store_tx inv tx ≡ ok inv'
      → Grows 0 inv inv'
  unfolding store_tx has_tx has_block
  store_tx-Grows inv tx inv' v keyed e =
      let (fresh, e₁) = guard-eq-ok (not (has_tx inv (tx_hash tx))) _ _ e in
      let (_, _, e₂) = >>=-eq-ok (verify_tx inv.core_params (verifier_view inv) tx) _ e₁ in
      let r : TxRecord = record { tx = tx; vsize = vsize tx } in
      let same : record inv { txs = Map.insert (tx_hash tx) r inv.txs } ≡ inv' =
        ok-injective _ inv' e₂ in
      let new : Map.lookup (tx_hash tx) inv.txs ≡ none =
        lookup_of_not_has (tx_hash tx) inv.txs (ground arith) in
      let txs : Map.insert (tx_hash tx) r inv.txs ≡ inv'.txs = ap (λ (i : Inv). i.txs) same in
      record {
        valid = store_tx-IsValid inv tx v e;
        blocks = omega (arith, ap (λ (i : Inv). length i.blocks) same);
        kept = λ id old. ap (λ (i : Inv). has_block i id) (sym same) ∙ old;
        keyed = λ id tx' found.
            let (w, at, w_tx) = get_tx-found inv' id tx' found in
            elim (lookup-insert_cases (tx_hash tx) id r w inv.txs (ap (Map.lookup id) txs ∙ at)) [
              | inl (here, stored) ↦
                  ap tx_hash (sym w_tx) ∙ ap (λ (x : TxRecord). tx_hash x.tx) (sym stored) ∙ here
              | inr old ↦ keyed id tx' (found-get_tx inv id w old ∙ ap ok w_tx)
            ];
        txs_kept = λ id tx' found.
            let (w, at, w_tx) = get_tx-found inv id tx' found in
            let still : Map.lookup id inv'.txs ≡ some w =
              ap (Map.lookup id) (sym txs) ∙ lookup-insert_old (tx_hash tx) id r w inv.txs new at in
            found-get_tx inv' id w still ∙ ap ok w_tx;
      }

  pub store_merkle-Grows :
      (inv : Inv) (node : MerkleNode) (inv' : Inv)
      → IsValid inv
      → IsKeyed inv
      → store_merkle inv node ≡ ok inv'
      → Grows 0 inv inv'
  unfolding store_merkle has_block
  store_merkle-Grows inv node inv' v keyed e =
      let (_, e₁) = guard-eq-ok (not (has_merkle inv (merkle_hash node))) _ _ e in
      let (_, _, e₂) = >>=-eq-ok (verify_merkle inv.core_params (verifier_view inv) node) _ e₁ in
      let (l_size, _, e₃) = >>=-eq-ok (get_entity_vsize inv node.l_child) _ e₂ in
      let (total, _, e₄) = >>=-eq-ok (add_right_size inv node l_size) _ e₃ in
      let txs : inv'.txs ≡ inv.txs = ap (λ (i : Inv). i.txs) (sym (ok-injective _ inv' e₄)) in
      let blocks : inv'.blocks ≡ inv.blocks =
        ap (λ (i : Inv). i.blocks) (sym (ok-injective _ inv' e₄)) in
      record {
        valid = store_merkle-IsValid inv node v e;
        blocks = omega (arith, ap length blocks);
        kept = λ id old. ap (Map.has id) blocks ∙ old;
        keyed = same_txs-IsKeyed inv inv' txs keyed;
        txs_kept = λ id tx found. same_txs-get_tx inv inv' id txs ∙ found;
      }

  -- A block more.
  pub store_block-Grows :
      (now : ℕ) (inv : Inv) (b : Block) (inv' : Inv)
      → IsValid inv
      → IsKeyed inv
      → IsHash b.target
      → length inv.blocks < 2 ^ 64
      → store_block now inv b ≡ ok inv'
      → Grows 1 inv inv'
  unfolding has_block
  store_block-Grows now inv b inv' v keyed vt few e =
      let (p, total_work, new, _, _, _, done) = store_block-eq-ok now inv b v.tree vt e in
      let r : BlockRecord = record {
        block = b;
        height = add64 p.height 1;
        total_work = total_work;
      } in
      let blocks : Map.insert (block_hash b) r inv.blocks ≡ inv'.blocks =
        ap (λ (i : Inv). i.blocks) done in
      let txs : inv'.txs ≡ inv.txs = ap (λ (i : Inv). i.txs) (sym done) in
      record {
        valid = store_block-IsValid now inv b v vt few e;
        blocks = omega (arith, length-insert_new (block_hash b) r inv.blocks new, ap length blocks);
        kept = λ id old.
            ap (Map.has id) (sym blocks) ∙ has-insert_old (block_hash b) id r inv.blocks old;
        keyed = same_txs-IsKeyed inv inv' txs keyed;
        txs_kept = λ id tx found. same_txs-get_tx inv inv' id txs ∙ found;
      }
