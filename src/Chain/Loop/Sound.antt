-- ===== src/Chain/Loop/Sound.antt =====
-- What holds of the chain of internal/chain/chain.go between its turns.
use mathlib.Core.Path.{subst}
use basiccoin.Base.{
  ℕ, ◌+◌, ◌^◌, ◌<◌, ◌≤◌, ◌≡◌, refl, sym, ◌∙◌, ap, true, ◌&&◌, length, arith, inl, inr, Bool-cases,
}
use basiccoin.Base.Eq.{◌==◌}
use basiccoin.Base.Result.{ok, >>=-eq-ok}
use basiccoin.Chain.Handlers.{Chain}
use basiccoin.Chain.State.{State}
use basiccoin.Chain.State.Included.{OnlyStored}
use basiccoin.Chain.State.Index.{IsIndexed, owner, owner_lem}
use basiccoin.Chain.State.Index.Moves.{IsKeyed, same-IsIndexed}
use basiccoin.Chain.State.Ledger.{SameLedger}
use basiccoin.Collections.Map as Map
use basiccoin.Collections.Set as Set
use basiccoin.Collections.Map.{has-insert_old, has_of_lookup, length-insert_new}
use basiccoin.Hash.{HashT, hash_eq}
use basiccoin.Core.Tx.{Utxo, Tx, TxOut, utxo_eq}
use basiccoin.Hash.Digest.{Sha256}
use basiccoin.Inv.{Inv, has_block, get_tx, get_tx_out}
use basiccoin.Inv.Invariant.{IsValid}

-- The inventory is valid with room for so many more blocks, the head is stored, and every block in
-- which a transaction is recorded is stored; every transaction is stored under its hash, and the
-- index of the unspent outputs is right.
pub record IsSound {F : Type 0} ⦃sha : Sha256⦄ (room : ℕ) (c : Chain F) : Type 0 where
  pub valid : IsValid c.inv
  pub fits : length c.inv.blocks + room < 2 ^ 64
  pub head_stored : has_block c.inv c.state.head ≡ true
  pub included : OnlyStored c.inv c.state
  pub keyed : IsKeyed c.inv
  pub indexed : IsIndexed c.inv c.state

-- What a change of the inventory brings.
pub record Grows ⦃sha : Sha256⦄ (n : ℕ) (inv inv' : Inv) : Type 0 where
  pub valid : IsValid inv'
  pub blocks : length inv'.blocks ≤ length inv.blocks + n
  pub kept : (id : HashT) → has_block inv id ≡ true → has_block inv' id ≡ true
  pub keyed : IsKeyed inv'
  pub txs_kept : (id : HashT) (tx : Tx) → get_tx inv id ≡ ok tx → get_tx inv' id ≡ ok tx

tx_out-kept :
    (inv inv' : Inv) (id : HashT) (ind : ℕ) (txo : TxOut)
    → ((tx : Tx) → get_tx inv id ≡ ok tx → get_tx inv' id ≡ ok tx)
    → get_tx_out inv id ind ≡ ok txo
    → get_tx_out inv' id ind ≡ ok txo
unfolding get_tx_out
tx_out-kept inv inv' id ind txo kept e =
    let (tx, found, e₁) = >>=-eq-ok (get_tx inv id) _ e in rw (kept tx found) e₁

grown-IsIndexed :
    {F : Type 0} (inv inv' : Inv) (s : State F)
    → ((id : HashT) (tx : Tx) → get_tx inv id ≡ ok tx → get_tx inv' id ≡ ok tx)
    → IsIndexed inv s
    → IsIndexed inv' s
grown-IsIndexed inv inv' s kept h = record {
  known = λ u there.
      let (txo, found) = h.known u there in
      (txo, tx_out-kept inv inv' u.tx_id u.ind txo (kept u.tx_id) found);
  index = λ pkh u. h.index pkh u ∙ same_owner pkh u;
  once = h.once;
}
  where
    same_owner :
        (pkh : HashT) (u : Utxo)
        → (Set.includes u s.utxos && (owner inv u == pkh))
          ≡ (Set.includes u s.utxos && (owner inv' u == pkh))
    same_owner pkh u = elim (Bool-cases (Set.includes u s.utxos)) [
      | inl there ↦
          let (txo, found) = h.known u there in
          let found' = tx_out-kept inv inv' u.tx_id u.ind txo (kept u.tx_id) found in
          ap (λ (k : HashT). Set.includes u s.utxos && (k == pkh))
            (owner_lem inv u txo found ∙ sym (owner_lem inv' u txo found'))
      | inr gone ↦ rw gone refl
    ]

module _ {F : Type 0} ⦃sha : Sha256⦄ where
  pub less_room :
      (before room : ℕ) (c : Chain F) → room ≤ before → IsSound before c → IsSound room c
  less_room before room c le s = record {
    valid = s.valid;
    fits = omega (arith, s.fits);
    head_stored = s.head_stored;
    included = s.included;
    keyed = s.keyed;
    indexed = s.indexed;
  }

  pub set_inv-IsSound :
      (n before room : ℕ) (c : Chain F) (inv : Inv)
      → room + n ≤ before
      → IsSound before c
      → Grows n c.inv inv
      → IsSound room (record c { inv = inv })
  set_inv-IsSound n before room c inv le s g = record {
    valid = g.valid;
    fits = omega (arith, s.fits, g.blocks);
    head_stored = g.kept c.state.head s.head_stored;
    included = λ tx_id block_id found. g.kept block_id (s.included tx_id block_id found);
    keyed = g.keyed;
    indexed = grown-IsIndexed c.inv inv c.state g.txs_kept s.indexed;
  }

  pub set_state-IsSound :
      (room : ℕ) (c : Chain F) (state : State F)
      → IsSound room c
      → has_block c.inv state.head ≡ true
      → OnlyStored c.inv state
      → IsIndexed c.inv state
      → IsSound room (record c { state = state })
  set_state-IsSound room c state s head included indexed = record {
    valid = s.valid;
    fits = s.fits;
    head_stored = head;
    included = included;
    keyed = s.keyed;
    indexed = indexed;
  }

  pub SameLedger-IsSound :
      (room : ℕ) (c : Chain F) (state : State F)
      → IsSound room c
      → SameLedger c.state state
      → IsSound room (record c { state = state })
  SameLedger-IsSound room c state s same =
      set_state-IsSound room c state s (ap (has_block c.inv) same.head ∙ s.head_stored)
        (λ tx_id block_id found.
          s.included tx_id block_id (ap (Map.lookup tx_id) (sym same.included) ∙ found))
        (same-IsIndexed c.inv c.state state same.utxos same.balances s.indexed)

  pub same_parts-IsSound :
      (room : ℕ) (c d : Chain F)
      → d.inv ≡ c.inv
      → d.state ≡ c.state
      → IsSound room c
      → IsSound room d
  same_parts-IsSound room c d inv state s = record {
    valid = subst IsValid (sym inv) s.valid;
    fits = subst (λ (i : Inv). length i.blocks + room < 2 ^ 64) (sym inv) s.fits;
    head_stored =
        ap (λ (i : Inv). has_block i d.state.head) inv
        ∙ ap (λ (t : State F). has_block c.inv t.head) state
        ∙ s.head_stored;
    included =
        subst (λ (i : Inv). OnlyStored i d.state) (sym inv)
          (subst (OnlyStored c.inv) (sym state) s.included);
    keyed = subst IsKeyed (sym inv) s.keyed;
    indexed =
        subst (λ (i : Inv). IsIndexed i d.state) (sym inv)
          (subst (IsIndexed c.inv) (sym state) s.indexed);
  }
