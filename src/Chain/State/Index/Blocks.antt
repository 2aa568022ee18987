-- ===== src/Chain/State/Index/Blocks.antt =====
-- Blocks that internal/chain/state.go adds and takes back, on the index.
use mathlib.Core.Path.{subst}
use basiccoin.Base.{ℕ, zero, suc, ◌≡◌, ◌∙◌, ap, refl, Bool, not, List, [], ◌∷◌, All}
use basiccoin.Base.Eq.{◌==◌}
use basiccoin.Base.Result.{ok, expect, >>=-eq-ok, guard-eq-ok, assert-eq-ok, ok-injective}
use basiccoin.Chain.State.{
  State, advance_tx, advance_txs, advance, rewind_tx, rewind_txs, rewind, rewind_times,
  rewind_until,
}
use basiccoin.Chain.State.Index.{IsIndexed}
use basiccoin.Chain.State.Index.Moves.{
  IsHeld, IsKeyed, same-IsIndexed, advance_tx-IsIndexed, rewind_tx-IsIndexed,
}
use basiccoin.Core.Tx.{Tx, FloatOps}
use basiccoin.Hash.{HashT, hash_eq, eq_zero}
use basiccoin.Hash.Digest.{Sha256}
use basiccoin.Inv.{
  Inv, has_block, get_block, get_block_ancestor_depth, get_merkle_txs, get_merkle_tx_ids, get_tx,
  get_txs,
}

module _ ⦃sha : Sha256⦄ (inv : Inv) (keyed : IsKeyed inv) where
  get_txs-IsHeld :
      (ids : List HashT) (txs : List Tx) → get_txs inv ids ≡ ok txs → All (IsHeld inv) txs
  unfolding get_txs
  get_txs-IsHeld [] txs e = subst (All (IsHeld inv)) (ok-injective [] txs e) tt
  get_txs-IsHeld (id ∷ ids) txs e =
      let (tx, found, e₁) = >>=-eq-ok (get_tx inv id) _ e in
      let (rest, others, e₂) = >>=-eq-ok (get_txs inv ids) _ e₁ in
      subst (All (IsHeld inv)) (ok-injective (tx ∷ rest) txs e₂)
        (ap (get_tx inv) (keyed id tx found) ∙ found, get_txs-IsHeld ids rest others)

  get_merkle_txs-IsHeld :
      (root : HashT) (txs : List Tx) → get_merkle_txs inv root ≡ ok txs → All (IsHeld inv) txs
  unfolding get_merkle_txs
  get_merkle_txs-IsHeld root txs e =
      let (ids, _, e₁) = >>=-eq-ok (get_merkle_tx_ids inv root) _ e in get_txs-IsHeld ids txs e₁

  module _ {F : Type 0} ⦃float : FloatOps F⦄ where
    advance_txs-IsIndexed :
        (block_id : HashT) (auto : Bool) (txs : List Tx) (s s' : State F)
        → All (IsHeld inv) txs
        → IsIndexed inv s
        → advance_txs inv block_id auto txs s ≡ ok s'
        → IsIndexed inv s'
    unfolding advance_txs
    advance_txs-IsIndexed block_id auto [] s s' held h e =
        subst (IsIndexed inv) (ok-injective s s' e) h
    advance_txs-IsIndexed block_id auto (tx ∷ txs) s s' held h e =
        let (t, done, e₁) = >>=-eq-ok (advance_tx inv block_id auto tx s) _ e in
        advance_txs-IsIndexed block_id auto txs t s' held.1
          (advance_tx-IsIndexed inv block_id auto tx s t held.0 h done) e₁

    pub advance-IsIndexed :
        (block_id : HashT) (auto : Bool) (s s' : State F)
        → IsIndexed inv s
        → advance inv block_id auto s ≡ ok s'
        → IsIndexed inv s'
    unfolding advance
    advance-IsIndexed block_id auto s s' h e =
        let (_, e₁) = guard-eq-ok (has_block inv block_id) _ _ e in
        let (b, _, e₂) = >>=-eq-ok (get_block inv block_id) _ e₁ in
        let (txs, tree, e₃) = >>=-eq-ok (get_merkle_txs inv b.merkle_root) _ e₂ in
        let (_, e₄) = guard-eq-ok (b.prev_block_id == s.head) _ _ e₃ in
        let (t, done, e₅) = >>=-eq-ok (advance_txs inv block_id auto txs s) _ e₄ in
        let held : All (IsHeld inv) txs = get_merkle_txs-IsHeld b.merkle_root txs tree in
        subst (IsIndexed inv) (ok-injective _ s' e₅) (
          same-IsIndexed inv t _ refl refl
            (advance_txs-IsIndexed block_id auto txs s t held h done))

    rewind_txs-IsIndexed :
        (txs : List Tx) (s s' : State F)
        → All (IsHeld inv) txs
        → IsIndexed inv s
        → rewind_txs inv txs s ≡ ok s'
        → IsIndexed inv s'
    unfolding rewind_txs
    rewind_txs-IsIndexed [] s s' held h e = subst (IsIndexed inv) (ok-injective s s' e) h
    rewind_txs-IsIndexed (tx ∷ txs) s s' held h e =
        let (t, done, e₁) = >>=-eq-ok (rewind_tx inv tx s) _ e in
        rewind_txs-IsIndexed txs t s' held.1 (rewind_tx-IsIndexed inv tx s t held.0 h done) e₁

    rewind-IsIndexed : (s s' : State F) → IsIndexed inv s → rewind inv s ≡ ok s' → IsIndexed inv s'
    unfolding rewind
    rewind-IsIndexed s s' h e =
        let (_, e₁) = assert-eq-ok (not (eq_zero s.head)) _ e in
        let (b, _, e₂) = >>=-eq-ok (get_block inv s.head) _ e₁ in
        let (txs, tree, e₃) = >>=-eq-ok (get_merkle_txs inv b.merkle_root) _ e₂ in
        let (t, done, e₄) = >>=-eq-ok (rewind_txs inv txs s) _ e₃ in
        let held : All (IsHeld inv) txs = get_merkle_txs-IsHeld b.merkle_root txs tree in
        subst (IsIndexed inv) (ok-injective _ s' e₄)
          (same-IsIndexed inv t _ refl refl (rewind_txs-IsIndexed txs s t held h done))

    rewind_times-IsIndexed :
        (n : ℕ) (s s' : State F) → IsIndexed inv s → rewind_times inv n s ≡ ok s' → IsIndexed inv s'
    unfolding rewind_times
    rewind_times-IsIndexed zero s s' h e = subst (IsIndexed inv) (ok-injective s s' e) h
    rewind_times-IsIndexed (suc n) s s' h e =
        let (t, done, e₁) = >>=-eq-ok (rewind inv s) _ e in
        rewind_times-IsIndexed n t s' (rewind-IsIndexed s t h done) e₁

    pub rewind_until-IsIndexed :
        (id : HashT) (s s' : State F)
        → IsIndexed inv s
        → rewind_until inv id s ≡ ok s'
        → IsIndexed inv s'
    unfolding rewind_until
    rewind_until-IsIndexed id s s' h e =
        let (found, _, e₁) = >>=-eq-ok (get_block_ancestor_depth inv s.head id) _ e in
        let (depth, _, e₂) = >>=-eq-ok (expect found) _ e₁ in
        let (t, done, e₃) = >>=-eq-ok (rewind_times inv depth s) _ e₂ in
        let (_, e₄) = assert-eq-ok (t.head == id) _ e₃ in
        subst (IsIndexed inv) (ok-injective t s' e₄) (rewind_times-IsIndexed depth s t h done)
