-- ===== src/Chain/State/Ledger.antt =====
-- `Advance` and `Rewind` of internal/chain/state.go, one transaction at a time, as operations on
-- the set of unspent outputs.
use basiccoin.Base.{
  ◌≡◌, refl, sym, ◌∙◌, ap, Bool, true, false, not, ◌&&◌, ◌||◌, Option, none, some, arith, inl, inr,
  Bool-cases, ltb,
}
use basiccoin.Base.Eq.{◌==◌}
use basiccoin.Base.Result.{ok, expect, >>=-eq-ok, guard-eq-ok, assert-eq-ok, ok-injective}
use basiccoin.Base.Word.{add64}
use basiccoin.Chain.State.{
  State, ensure_in_mempool, verify_tx_includable, advance_tx, rewind_tx, all_included,
  add_mempool_tx, to_mempool, remove_spends, consume_inputs, add_outputs, return_inputs,
  remove_outputs,
}
use basiccoin.Chain.State.Utxos.{
  outputs_from, consume_inputs-eq-ok, add_outputs_lem, return_inputs-eq-ok, remove_outputs-eq-ok,
}
use basiccoin.Collections.Map as Map
use basiccoin.Collections.Set as Set
use basiccoin.Collections.Set.{contains}
use basiccoin.Core.Tx.{Utxo, Tx, FloatOps, utxo_eq, tx_hash, get_consumed_utxos}
use basiccoin.Hash.{HashT, hash_eq}
use basiccoin.Hash.Digest.{Sha256}
use basiccoin.Inv.{Inv, get_tx, get_block_height, has_tx}

not-eq-true : (b : Bool) → not b ≡ true → b ≡ false
not-eq-true true h = sym h
not-eq-true false h = refl

expect-eq-ok {ℓ} : {A : Type ℓ} (o : Option A) {a : A} → expect o ≡ ok a → o ≡ some a
expect-eq-ok none h = absurd cc
expect-eq-ok (some a) h = cc

undo :
    (out in_ before mid after : Bool)
    → (in_ ≡ true → before ≡ true)
    → (out ≡ true → in_ || before ≡ false)
    → mid ≡ out || (before && not in_)
    → after ≡ (in_ || mid) && not out
    → after ≡ before
undo out in_ before mid after h₁ h₂ h₃ h₄ = ground arith

module _ {F : Type 0} where
  -- Only the mempool may differ.
  pub record SameLedger (s s' : State F) : Type 0 where
    pub utxos : s'.utxos ≡ s.utxos
    pub head : s'.head ≡ s.head
    pub included : s'.included_tx_blocks ≡ s.included_tx_blocks
    pub balances : s'.pkh_utxos ≡ s.pkh_utxos

  pub SameLedger-of :
      (s s' : State F) (t : State F)
      → t.utxos ≡ s.utxos
      → t.head ≡ s.head
      → t.included_tx_blocks ≡ s.included_tx_blocks
      → t.pkh_utxos ≡ s.pkh_utxos
      → s' ≡ t
      → SameLedger s s'
  SameLedger-of s s' t h₁ h₂ h₃ h₄ e = record {
    utxos = ap (λ (t : State F). t.utxos) e ∙ h₁;
    head = ap (λ (t : State F). t.head) e ∙ h₂;
    included = ap (λ (t : State F). t.included_tx_blocks) e ∙ h₃;
    balances = ap (λ (t : State F). t.pkh_utxos) e ∙ h₄;
  }

module _ {F : Type 0} ⦃float : FloatOps F⦄ where
  ensure_in_mempool-eq-ok :
      (inv : Inv) (tx_id : HashT) (auto : Bool) (s s' : State F)
      → ensure_in_mempool inv tx_id auto s ≡ ok s'
      → SameLedger s s'
  unfolding ensure_in_mempool add_mempool_tx to_mempool
  ensure_in_mempool-eq-ok inv tx_id auto s s' e = elim (Bool-cases (Set.includes tx_id s.mempool)) [
    | inl there ↦
        let e₁ = rw there at e in
        SameLedger-of s s' s refl refl refl refl (sym (ok-injective _ _ e₁))
    | inr out ↦ elim (Bool-cases auto) [
      | inl may ↦
          let e₁ = rw (out, may) at e in
          let (tx, _, e₂) = >>=-eq-ok (get_tx inv tx_id) _ e₁ in
          SameLedger-of s s' (to_mempool tx_id tx s) refl refl refl refl (sym (ok-injective _ _ e₂))
      | inr forbidden ↦ let e₁ = rw (out, forbidden) at e in absurd cc
    ]
  ]

  pub verify_tx_includable-eq-ok :
      (inv : Inv) (tx_id : HashT) (auto : Bool) (s s' : State F)
      → verify_tx_includable inv tx_id auto s ≡ ok s'
      → SameLedger s s'
  unfolding verify_tx_includable
  verify_tx_includable-eq-ok inv tx_id auto s s' e =
      let (_, e₁) = guard-eq-ok (has_tx inv tx_id) _ _ e in
      let (tx, _, e₂) = >>=-eq-ok (get_tx inv tx_id) _ e₁ in
      let (height, _, e₃) = >>=-eq-ok (get_block_height inv s.head) _ e₂ in
      let (_, e₄) = guard-eq-ok (not (ltb (add64 height 1) tx.min_block)) _ _ e₃ in
      let (s₁, added, e₅) = >>=-eq-ok (ensure_in_mempool inv tx_id auto s) _ e₄ in
      let (_, e₆) = guard-eq-ok (all_included (get_consumed_utxos tx) s₁.utxos) _ _ e₅ in
      ensure_in_mempool-eq-ok inv tx_id auto s s' (added ∙ e₆)

  -- What `advance_tx` has done when it succeeds: the inputs were unspent, the outputs are.
  pub record Advanced ⦃sha : Sha256⦄ (tx : Tx) (s s' : State F) : Type 0 where
    pub inputs :
        (u : Utxo) → contains u (get_consumed_utxos tx) ≡ true → Set.includes u s.utxos ≡ true
    pub utxos :
        (u : Utxo)
        → Set.includes u s'.utxos
          ≡ contains u (outputs_from (tx_hash tx) 0 tx.outputs)
            || (Set.includes u s.utxos && not (contains u (get_consumed_utxos tx)))
    pub head : s'.head ≡ s.head
    pub included : Map.has (tx_hash tx) s.included_tx_blocks ≡ false

  -- What `rewind_tx` has done when it succeeds.
  pub record Rewound ⦃sha : Sha256⦄ (tx : Tx) (s s' : State F) : Type 0 where
    pub outputs :
        (u : Utxo)
        → contains u (outputs_from (tx_hash tx) 0 tx.outputs) ≡ true
        → contains u (get_consumed_utxos tx) || Set.includes u s.utxos ≡ true
    pub utxos :
        (u : Utxo)
        → Set.includes u s'.utxos
          ≡ (contains u (get_consumed_utxos tx) || Set.includes u s.utxos)
            && not (contains u (outputs_from (tx_hash tx) 0 tx.outputs))
    pub head : s'.head ≡ s.head
    pub included : Map.lookup (tx_hash tx) s.included_tx_blocks ≡ some s.head

  -- If the loop body of `Advance` accepts a transaction, every input was unspent before;
  -- afterwards the unspent outputs are the transaction's outputs and those from before that are
  -- not its inputs; the head is the same, and the transaction was in no block before.
  pub advance_tx-Advanced :
      ⦃sha : Sha256⦄ (inv : Inv) (block_id : HashT) (auto : Bool) (tx : Tx) (s s' : State F)
      → advance_tx inv block_id auto tx s ≡ ok s'
      → Advanced tx s s'
  unfolding advance_tx
  advance_tx-Advanced inv block_id auto tx s s' e =
      let tx_id : HashT = tx_hash tx in
      let (s₁, includable, e₁) = >>=-eq-ok (verify_tx_includable inv tx_id auto s) _ e in
      let (height, _, e₂) = >>=-eq-ok (get_block_height inv block_id) _ e₁ in
      let (_, e₃) = guard-eq-ok (not (ltb height tx.min_block)) _ _ e₂ in
      let (_, e₄) = guard-eq-ok (Set.includes tx_id s₁.mempool) _ _ e₃ in
      let (spends, _, e₅) =
        >>=-eq-ok (remove_spends tx_id (get_consumed_utxos tx) s₁.mempool_utxo_spends) _ e₄ in
      let out : State F = record s₁ {
        mempool = (Set.remove tx_id s₁.mempool).0;
        mempool_rates = Map.delete tx_id s₁.mempool_rates;
        mempool_utxo_spends = spends;
      } in
      let (s₂, consumed, e₆) = >>=-eq-ok (consume_inputs inv (get_consumed_utxos tx) out) _ e₅ in
      let s₃ : State F = add_outputs tx_id 0 tx.outputs s₂ in
      let (fresh, e₇) = guard-eq-ok (not (Map.has tx_id s₃.included_tx_blocks)) _ _ e₆ in
      let same : SameLedger s s₁ = verify_tx_includable-eq-ok inv tx_id auto s s₁ includable in
      let (frame₁, gone, was) = consume_inputs-eq-ok inv (get_consumed_utxos tx) out s₂ consumed in
      let (frame₂, grown) = add_outputs_lem tx_id 0 tx.outputs s₂ in
      let kept : s'.utxos ≡ s₃.utxos = ap (λ (t : State F). t.utxos) (sym (ok-injective _ _ e₇)) in
      let kept_head : s'.head ≡ s₃.head =
        ap (λ (t : State F). t.head) (sym (ok-injective _ _ e₇)) in
      record {
        inputs = λ u h. ap (Set.includes u) (sym same.utxos) ∙ was u h;
        utxos = λ u.
            ap (Set.includes u) kept
            ∙ grown u
            ∙ ap (λ b. contains u (outputs_from tx_id 0 tx.outputs) || b)
                (gone u
                  ∙ ap (λ us. Set.includes u us && not (contains u (get_consumed_utxos tx)))
                      same.utxos);
        head = kept_head ∙ frame₂.head ∙ frame₁.head ∙ same.head;
        included =
            ap (Map.has tx_id) (sym (frame₂.included ∙ frame₁.included ∙ same.included))
            ∙ not-eq-true _ fresh;
      }

  -- If the loop body of `Rewind` returns, every output of the transaction was unspent or one of
  -- its own inputs; afterwards the unspent outputs are its inputs and those from before, less its
  -- outputs; the head is the same, and the transaction was recorded in the block at the head.
  pub rewind_tx-Rewound :
      ⦃sha : Sha256⦄ (inv : Inv) (tx : Tx) (s s' : State F)
      → rewind_tx inv tx s ≡ ok s'
      → Rewound tx s s'
  unfolding rewind_tx to_mempool
  rewind_tx-Rewound inv tx s s' e =
      let tx_id : HashT = tx_hash tx in
      let (s₁, returned, e₁) =
        >>=-eq-ok (return_inputs inv (get_consumed_utxos tx) (to_mempool tx_id tx s)) _ e in
      let (s₂, removed, e₂) = >>=-eq-ok (remove_outputs tx_id 0 tx.outputs s₁) _ e₁ in
      let (block_id, found, e₃) =
        >>=-eq-ok (expect (Map.lookup tx_id s₂.included_tx_blocks)) _ e₂ in
      let (here, e₄) = assert-eq-ok (block_id == s₂.head) _ e₃ in
      let (frame₁, back) =
        return_inputs-eq-ok inv (get_consumed_utxos tx) (to_mempool tx_id tx s) s₁ returned in
      let (frame₂, gone, was) = remove_outputs-eq-ok tx_id 0 tx.outputs s₁ s₂ removed in
      let kept : s'.utxos ≡ s₂.utxos = ap (λ (t : State F). t.utxos) (sym (ok-injective _ _ e₄)) in
      let kept_head : s'.head ≡ s₂.head =
        ap (λ (t : State F). t.head) (sym (ok-injective _ _ e₄)) in
      record {
        outputs = λ u h. sym (back u) ∙ was u h;
        utxos = λ u.
            ap (Set.includes u) kept
            ∙ gone u
            ∙ ap (λ b. b && not (contains u (outputs_from tx_id 0 tx.outputs))) (back u);
        head = kept_head ∙ frame₂.head ∙ frame₁.head;
        included =
            ap (Map.lookup tx_id) (sym (frame₂.included ∙ frame₁.included))
            ∙ expect-eq-ok _ found
            ∙ ap some ((hash_eq.beq_iff block_id s₂.head).0 here ∙ frame₂.head ∙ frame₁.head);
      }

  -- If `Advance` includes a transaction and `Rewind` takes it out of a state with the same
  -- unspent outputs, then the same outputs are unspent as before the two, when no output of the
  -- transaction was unspent before or is among its own inputs.
  pub advance_tx-rewind_tx :
      ⦃sha : Sha256⦄ (inv : Inv) (block_id : HashT) (auto : Bool) (tx : Tx) (s s₁ s₂ s₃ : State F)
      → advance_tx inv block_id auto tx s ≡ ok s₁
      → s₂.utxos ≡ s₁.utxos
      → rewind_tx inv tx s₂ ≡ ok s₃
      → ((u : Utxo)
          → contains u (outputs_from (tx_hash tx) 0 tx.outputs) ≡ true
          → contains u (get_consumed_utxos tx) || Set.includes u s.utxos ≡ false)
      → (u : Utxo) → Set.includes u s₃.utxos ≡ Set.includes u s.utxos
  advance_tx-rewind_tx inv block_id auto tx s s₁ s₂ s₃ e same e' fresh u =
      let a : Advanced tx s s₁ = advance_tx-Advanced inv block_id auto tx s s₁ e in
      let r : Rewound tx s₂ s₃ = rewind_tx-Rewound inv tx s₂ s₃ e' in
      undo (contains u (outputs_from (tx_hash tx) 0 tx.outputs))
        (contains u (get_consumed_utxos tx)) (Set.includes u s.utxos) (Set.includes u s₁.utxos)
        (Set.includes u s₃.utxos) (a.inputs u) (fresh u) (a.utxos u)
        (r.utxos u
          ∙ ap
              (λ us.
                (contains u (get_consumed_utxos tx) || Set.includes u us)
                && not (contains u (outputs_from (tx_hash tx) 0 tx.outputs)))
              same)
