-- ===== src/Chain/State/Index/Moves.antt =====
-- `Advance` and `Rewind` of internal/chain/state.go on the index.
use mathlib.Core.Path.{subst}
use basiccoin.Base.{
  ℕ, suc, ◌+◌, ◌≡◌, refl, sym, ◌&&◌, ◌∙◌, ap, Bool, not, some, List, [], ◌∷◌, get_elem?, ltb, arith,
}
use basiccoin.Base.Eq.{◌==◌}
use basiccoin.Base.Result.{
  Result, ok, err, panic, out_of_fuel, expect, >>=-eq-ok, guard-eq-ok, assert-eq-ok, ok-injective,
}
use basiccoin.Chain.State.{
  State, advance_tx, rewind_tx, must, output_utxo, verify_tx_includable, remove_spends,
  credit_balance, debit_balance, consume_inputs, add_outputs, return_inputs, remove_outputs,
  to_mempool,
}
use basiccoin.Chain.State.Index.{IsIndexed, owner, under, debit-IsIndexed, credit-IsIndexed}
use basiccoin.Chain.State.Ledger.{SameLedger, verify_tx_includable-eq-ok}
use basiccoin.Collections.Map as Map
use basiccoin.Collections.Map.{Map}
use basiccoin.Collections.Set as Set
use basiccoin.Collections.Set.Distinct.{IsOnce}
use basiccoin.Core.Tx.{Utxo, Tx, TxOut, FloatOps, utxo_eq, tx_hash, get_consumed_utxos}
use basiccoin.Hash.{HashT, hash_eq}
use basiccoin.Hash.Digest.{Sha256}
use basiccoin.Inv.{Inv, get_block_height, get_tx, get_tx_out}

must-eq-ok : {A : Type 0} (r : Result A) (a : A) → must r ≡ ok a → r ≡ ok a
must-eq-ok (ok b) a e = e
must-eq-ok (err why) a e = absurd cc
must-eq-ok panic a e = absurd cc
must-eq-ok out_of_fuel a e = absurd cc

-- The inventory has these outputs from an index on.
abbrev HasOutputs : Inv → HashT → ℕ → List TxOut → Type 0
HasOutputs inv tx_id i [] = Unit
HasOutputs inv tx_id i (txo ∷ txos) =
    (get_tx_out inv tx_id i ≡ ok txo) × HasOutputs inv tx_id (suc i) txos

outputs_of-HasOutputs :
    (inv : Inv) (tx_id : HashT) (i : ℕ) (txos : List TxOut)
    → ((k : ℕ) (txo : TxOut) → get_elem? txos k ≡ some txo → get_tx_out inv tx_id (k + i) ≡ ok txo)
    → HasOutputs inv tx_id i txos
outputs_of-HasOutputs inv tx_id i [] h = tt
outputs_of-HasOutputs inv tx_id i (txo ∷ txos) h =
    let first : 0 + i ≡ i = omega arith in
    (
      subst (λ (n : ℕ). get_tx_out inv tx_id n ≡ ok txo) first (h 0 txo refl),
      outputs_of-HasOutputs inv tx_id (suc i) txos (λ k out e.
          let next : suc k + i ≡ k + suc i = omega arith in
          subst (λ (n : ℕ). get_tx_out inv tx_id n ≡ ok out) next (h (suc k) out e)),
    )

get_tx-HasOutputs :
    (inv : Inv) (tx_id : HashT) (tx : Tx)
    → get_tx inv tx_id ≡ ok tx
    → HasOutputs inv tx_id 0 tx.outputs
unfolding get_tx_out
get_tx-HasOutputs inv tx_id tx stored = outputs_of-HasOutputs inv tx_id 0 tx.outputs (λ k txo e.
    let same : k + 0 ≡ k = omega arith in
    subst (λ (n : ℕ). get_tx_out inv tx_id n ≡ ok txo) (sym same) (rw (stored, e) refl))

module _ {F : Type 0} (inv : Inv) where
  pub same-IsIndexed :
      (s t : State F)
      → t.utxos ≡ s.utxos
      → t.pkh_utxos ≡ s.pkh_utxos
      → IsIndexed inv s
      → IsIndexed inv t
  same-IsIndexed s t utxos balances h = record {
    known = λ u there. h.known u (ap (Set.includes u) (sym utxos) ∙ there);
    index = λ pkh u.
        ap (λ (m : Map HashT (Set.Set Utxo)). Set.includes u (under pkh m)) balances
        ∙ h.index pkh u
        ∙ ap (λ (us : Set.Set Utxo). Set.includes u us && (owner inv u == pkh)) (sym utxos);
    once = λ pkh.
        subst (λ (m : Map HashT (Set.Set Utxo)). IsOnce (under pkh m)) (sym balances) (h.once pkh);
  }

  consume_inputs-IsIndexed :
      (us : List Utxo) (s s' : State F)
      → IsIndexed inv s
      → consume_inputs inv us s ≡ ok s'
      → IsIndexed inv s'
  unfolding consume_inputs
  consume_inputs-IsIndexed [] s s' h e = subst (IsIndexed inv) (ok-injective s s' e) h
  consume_inputs-IsIndexed (x ∷ us) s s' h e =
      let (_, e₁) = guard-eq-ok (Set.includes x s.utxos) _ _ e in
      let (txo, found, e₂) = >>=-eq-ok (get_tx_out inv x.tx_id x.ind) _ e₁ in
      let (balances, debited, e₃) =
        >>=-eq-ok (debit_balance txo.public_key_hash x s.pkh_utxos) _ e₂ in
      consume_inputs-IsIndexed us
        (record s { utxos = (Set.remove x s.utxos).0; pkh_utxos = balances }) s'
        (debit-IsIndexed inv s h x txo found balances debited) e₃

  return_inputs-IsIndexed :
      (us : List Utxo) (s s' : State F)
      → IsIndexed inv s
      → return_inputs inv us s ≡ ok s'
      → IsIndexed inv s'
  unfolding return_inputs
  return_inputs-IsIndexed [] s s' h e = subst (IsIndexed inv) (ok-injective s s' e) h
  return_inputs-IsIndexed (x ∷ us) s s' h e =
      let (txo, found, e₁) = >>=-eq-ok (get_tx_out inv x.tx_id x.ind) _ e in
      return_inputs-IsIndexed us
        (record s {
          utxos = Set.add x s.utxos;
          pkh_utxos = credit_balance txo.public_key_hash x s.pkh_utxos;
        })
        s' (credit-IsIndexed inv s h x txo found) e₁

  add_outputs-IsIndexed :
      (tx_id : HashT) (i : ℕ) (txos : List TxOut) (s : State F)
      → HasOutputs inv tx_id i txos
      → IsIndexed inv s
      → IsIndexed inv (add_outputs tx_id i txos s)
  unfolding add_outputs
  add_outputs-IsIndexed tx_id i [] s outs h = h
  add_outputs-IsIndexed tx_id i (txo ∷ txos) s (found, outs) h =
      let x : Utxo = output_utxo tx_id i txo in
      add_outputs-IsIndexed tx_id (suc i) txos
        (record s {
          utxos = Set.add x s.utxos;
          pkh_utxos = credit_balance txo.public_key_hash x s.pkh_utxos;
        })
        outs (credit-IsIndexed inv s h x txo found)

  remove_outputs-IsIndexed :
      (tx_id : HashT) (i : ℕ) (txos : List TxOut) (s s' : State F)
      → HasOutputs inv tx_id i txos
      → IsIndexed inv s
      → remove_outputs tx_id i txos s ≡ ok s'
      → IsIndexed inv s'
  unfolding remove_outputs
  remove_outputs-IsIndexed tx_id i [] s s' outs h e = subst (IsIndexed inv) (ok-injective s s' e) h
  remove_outputs-IsIndexed tx_id i (txo ∷ txos) s s' (found, outs) h e =
      let x : Utxo = output_utxo tx_id i txo in
      let (_, e₁) = assert-eq-ok (Set.includes x s.utxos) _ e in
      let (balances, debited, e₂) =
        >>=-eq-ok (must (debit_balance txo.public_key_hash x s.pkh_utxos)) _ e₁ in
      remove_outputs-IsIndexed tx_id (suc i) txos
        (record s { utxos = (Set.remove x s.utxos).0; pkh_utxos = balances }) s' outs
        (debit-IsIndexed inv s h x txo found balances (must-eq-ok _ balances debited)) e₂

-- A transaction that the inventory holds under its hash.
abbrev pub IsHeld : ⦃sha : Sha256⦄ → Inv → Tx → Type 0
IsHeld inv tx = get_tx inv (tx_hash tx) ≡ ok tx

-- Every transaction is stored under its hash.
abbrev pub IsKeyed : ⦃sha : Sha256⦄ → Inv → Type 0
IsKeyed inv = (id : HashT) (tx : Tx) → get_tx inv id ≡ ok tx → tx_hash tx ≡ id

module _ {F : Type 0} ⦃float : FloatOps F⦄ ⦃sha : Sha256⦄ (inv : Inv) where
  pub advance_tx-IsIndexed :
      (block_id : HashT) (auto : Bool) (tx : Tx) (s s' : State F)
      → IsHeld inv tx
      → IsIndexed inv s
      → advance_tx inv block_id auto tx s ≡ ok s'
      → IsIndexed inv s'
  unfolding advance_tx
  advance_tx-IsIndexed block_id auto tx s s' held h e =
      let tx_id : HashT = tx_hash tx in
      let (s₁, includable, e₁) = >>=-eq-ok (verify_tx_includable inv tx_id auto s) _ e in
      let (height, _, e₂) = >>=-eq-ok (get_block_height inv block_id) _ e₁ in
      let (_, e₃) = guard-eq-ok (not (ltb height tx.min_block)) _ _ e₂ in
      let (_, e₄) = guard-eq-ok (Set.includes tx_id s₁.mempool) _ _ e₃ in
      let (spends, _, e₅) =
        >>=-eq-ok (remove_spends tx_id (get_consumed_utxos tx) s₁.mempool_utxo_spends) _ e₄ in
      let out : State F = record s₁ {
        mempool = (Set.remove tx_id s₁.mempool).0;
        mempool_rates = Map.delete tx_id s₁.mempool_rates;
        mempool_utxo_spends = spends;
      } in
      let (s₂, consumed, e₆) = >>=-eq-ok (consume_inputs inv (get_consumed_utxos tx) out) _ e₅ in
      let s₃ : State F = add_outputs tx_id 0 tx.outputs s₂ in
      let (_, e₇) = guard-eq-ok (not (Map.has tx_id s₃.included_tx_blocks)) _ _ e₆ in
      let same : SameLedger s s₁ = verify_tx_includable-eq-ok inv tx_id auto s s₁ includable in
      let h₁ : IsIndexed inv out = same-IsIndexed inv s out same.utxos same.balances h in
      let h₂ : IsIndexed inv s₂ =
        consume_inputs-IsIndexed inv (get_consumed_utxos tx) out s₂ h₁ consumed in
      let h₃ : IsIndexed inv s₃ =
        add_outputs-IsIndexed inv tx_id 0 tx.outputs s₂ (get_tx-HasOutputs inv tx_id tx held) h₂ in
      subst (IsIndexed inv) (ok-injective _ s' e₇) (same-IsIndexed inv s₃ _ refl refl h₃)

  pub rewind_tx-IsIndexed :
      (tx : Tx) (s s' : State F)
      → IsHeld inv tx
      → IsIndexed inv s
      → rewind_tx inv tx s ≡ ok s'
      → IsIndexed inv s'
  unfolding rewind_tx to_mempool
  rewind_tx-IsIndexed tx s s' held h e =
      let tx_id : HashT = tx_hash tx in
      let (s₁, returned, e₁) =
        >>=-eq-ok (return_inputs inv (get_consumed_utxos tx) (to_mempool tx_id tx s)) _ e in
      let (s₂, removed, e₂) = >>=-eq-ok (remove_outputs tx_id 0 tx.outputs s₁) _ e₁ in
      let (block_id, _, e₃) = >>=-eq-ok (expect (Map.lookup tx_id s₂.included_tx_blocks)) _ e₂ in
      let (_, e₄) = assert-eq-ok (block_id == s₂.head) _ e₃ in
      let h₀ : IsIndexed inv (to_mempool tx_id tx s) =
        same-IsIndexed inv s (to_mempool tx_id tx s) refl refl h in
      let h₁ : IsIndexed inv s₁ =
        return_inputs-IsIndexed inv (get_consumed_utxos tx) (to_mempool tx_id tx s) s₁ h₀
          returned in
      let h₂ : IsIndexed inv s₂ =
        remove_outputs-IsIndexed inv tx_id 0 tx.outputs s₁ s₂ (get_tx-HasOutputs inv tx_id tx held)
          h₁ removed in
      subst (IsIndexed inv) (ok-injective _ s' e₄) (same-IsIndexed inv s₂ _ refl refl h₂)
