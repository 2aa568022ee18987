-- ===== src/Inv/Store.antt =====
-- `StoreBlock` of internal/inv/inv.go on the tree of blocks.
use mathlib.Core.Path.{subst}
use basiccoin.Base.{
  ℕ, ◌+◌, ◌^◌, ◌<◌, ◌≡◌, ◌≢◌, sym, ◌∙◌, ap, true, not, some, none, arith, inl, inr, length,
}
use basiccoin.Base.Result.{ok, >>=-eq-ok, guard-eq-ok}
use basiccoin.Base.Word.{add64}
use basiccoin.Collections.Map as Map
use basiccoin.Collections.Map.{
  Map, lookup-insert, has-insert, has_of_lookup, lookup_of_has, lookup_of_not_has,
  length-insert_new, lookup-insert_old, lookup-insert_cases,
}
use basiccoin.Core.Block.{Block, block_hash}
use basiccoin.Core.Verify.{verify_block}
use basiccoin.Core.Verify.BlockRules.{verify_block_sound}
use basiccoin.Hash.{HashT, IsHash, hash_eq, zero_hash, big_int, work_append_target, lt}
use basiccoin.Hash.Digest.{Sha256, dhash_hashes, dhash_bytes-IsHash}
use basiccoin.Hash.Value.{lt→big_int-lt, big_int-zero_hash}
use basiccoin.Hash.Target.{work_append_target-lt}
use basiccoin.Inv.{
  Inv, BlockRecord, store_block, verifier_view, get_block_total_work, get_block_height, has_block,
}
use basiccoin.Inv.Reads.{get_block_total_work-eq-ok, get_block_height-eq-ok}
use basiccoin.Inv.Invariant.{IsBlockTree, IsValid, HasParent}

-- A block under a new id, above a stored parent, keeps the tree.
insert-IsBlockTree :
    (blocks : Map HashT BlockRecord) (id : HashT) (r p : BlockRecord)
    → IsBlockTree blocks
    → Map.lookup id blocks ≡ none
    → Map.lookup r.block.prev_block_id blocks ≡ some p
    → r.height ≡ p.height + 1
    → IsHash r.total_work
    → big_int p.total_work < big_int r.total_work
    → IsBlockTree (Map.insert id r blocks)
insert-IsBlockTree blocks id r p t new known up v more = record {
  root = t.root;
  root_known = lookup-insert_old id zero_hash r t.root blocks new t.root_known;
  root_height = t.root_height;
  parent = λ j w ne found. elim (lookup-insert_cases id j r w blocks found) [
    | inl (_, same) ↦ subst (HasParent (Map.insert id r blocks)) same (kept r (p, known, up, more))
    | inr old ↦ kept w (t.parent j w ne old)
  ];
  below = λ j w found. elim (lookup-insert_cases id j r w blocks found) [
    | inl (_, same) ↦ omega (
      arith,
      ap (λ (x : BlockRecord). x.height) same,
      t.below r.block.prev_block_id p known,
      length-insert_new id r blocks new,
    )
    | inr old ↦ omega (arith, t.below j w old, length-insert_new id r blocks new)
  ];
  work = λ j w found. elim (lookup-insert_cases id j r w blocks found) [
    | inl (_, same) ↦ subst (λ x. IsHash x.total_work) same v
    | inr old ↦ t.work j w old
  ];
}
  where
    kept : (w : BlockRecord) → HasParent blocks w → HasParent (Map.insert id r blocks) w
    kept w (q, found, high, heavy) =
        (q, lookup-insert_old id w.block.prev_block_id r q blocks new found, high, heavy)

pub target_nonzero :
    ⦃sha : Sha256⦄ (b : Block)
    → IsHash b.target
    → lt (block_hash b) b.target ≡ true
    → b.target ≢ zero_hash
unfolding block_hash dhash_hashes
target_nonzero b vt beats e =
    let less = lt→big_int-lt (block_hash b) b.target (dhash_bytes-IsHash _) vt beats in
    absurd (omega (arith, less, ap big_int e, big_int-zero_hash))

-- What a stored block adds.
pub store_block-eq-ok :
    ⦃sha : Sha256⦄ (now : ℕ) (inv : Inv) (b : Block) {inv' : Inv}
    → IsBlockTree inv.blocks
    → IsHash b.target
    → store_block now inv b ≡ ok inv'
    → (p : BlockRecord) × (total_work : HashT) × (Map.lookup (block_hash b) inv.blocks ≡ none)
      × (Map.lookup b.prev_block_id inv.blocks ≡ some p)
      × IsHash total_work
      × (big_int p.total_work < big_int total_work)
      × (record inv {
        blocks =
            Map.insert
              (block_hash b)
              (record { block = b; height = add64 p.height 1; total_work = total_work })
              inv.blocks;
      }
          ≡ inv')
unfolding store_block has_block
store_block-eq-ok now inv b {inv'} t vt e =
    let (fresh, e₁) = guard-eq-ok (not (has_block inv (block_hash b))) _ _ e in
    let (_, checked, e₂) =
      >>=-eq-ok (verify_block inv.core_params (verifier_view inv) now b) _ e₁ in
    let (prev_work, work_ok, e₃) = >>=-eq-ok (get_block_total_work inv b.prev_block_id) _ e₂ in
    let (prev_height, height_ok, e₄) = >>=-eq-ok (get_block_height inv b.prev_block_id) _ e₃ in
    let (total_work, total_ok, e₅) = >>=-eq-ok (work_append_target prev_work b.target) _ e₄ in
    let (p, known, same_work) = get_block_total_work-eq-ok inv b.prev_block_id work_ok in
    let (q, known', same_height) = get_block_height-eq-ok inv b.prev_block_id height_ok in
    let same : q ≡ p = cc in
    let beats =
      (verify_block_sound inv.core_params (verifier_view inv) now b checked).beats_target in
    let (v, more) =
      work_append_target-lt prev_work b.target total_work vt (target_nonzero b vt beats) total_ok in
    let height : prev_height ≡ p.height =
      sym same_height ∙ ap (λ (x : BlockRecord). x.height) same in
    (
      p,
      total_work,
      lookup_of_not_has (block_hash b) inv.blocks (ground arith),
      known,
      v,
      subst (λ w. big_int w < big_int total_work) (sym same_work) more,
      subst
          (λ h.
            record inv {
              blocks =
                  Map.insert (block_hash b)
                    (record { block = b; height = add64 h 1; total_work = total_work }) inv.blocks;
            }
            ≡ inv')
          height (cc),
    )

-- If `StoreBlock` succeeds on a valid inventory with fewer than 2^64 blocks and a target of 32
-- bytes, the inventory stays valid: the blocks are a tree under the zero block in which the
-- height of a block is one more than its parent's and its total work is larger, and no path of
-- merkle nodes is a cycle.
pub store_block-IsValid :
    ⦃sha : Sha256⦄ (now : ℕ) (inv : Inv) (b : Block) {inv' : Inv}
    → IsValid inv
    → IsHash b.target
    → length inv.blocks < 2 ^ 64
    → store_block now inv b ≡ ok inv'
    → IsValid inv'
store_block-IsValid now inv b v vt few e =
    let (p, total_work, new, known, vw, more, done) = store_block-eq-ok now inv b v.tree vt e in
    let stored : BlockRecord = record {
      block = b;
      height = add64 p.height 1;
      total_work = total_work;
    } in
    subst IsValid done (record {
      tree =
          insert-IsBlockTree inv.blocks (block_hash b) stored p v.tree new known
            (omega (arith, v.tree.below b.prev_block_id p known)) vw more;
      forest = v.forest;
    })
