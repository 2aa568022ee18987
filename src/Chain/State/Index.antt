-- ===== src/Chain/State/Index.antt =====
-- The index of internal/chain/state.go from key hashes to unspent outputs.
pub mod Moves
pub mod Blocks
use mathlib.Core.Path.{subst}
use basiccoin.Base.{
  ℕ, zero, suc, ◌≡◌, refl, sym, ◌∙◌, ap, Bool, true, false, ◌&&◌, not, Option, none, some, List, [],
  ◌∷◌, length, arith, inl, inr, Bool-cases, Option-cases, if◌then◌else◌,
}
use basiccoin.Base.Eq.{◌==◌, beq_refl, nat_eq}
use basiccoin.Base.Result.{
  Result, ok, err, panic, out_of_fuel, >>=-eq-ok, guard-eq-ok, ok-injective, no_utxos,
  not_controlled,
}
use basiccoin.Chain.State.{State, credit_balance, debit_balance, put_or_delete, set_or_new}
use basiccoin.Collections.Map as Map
use basiccoin.Collections.Map.{Map, lookup-insert, lookup-delete}
use basiccoin.Collections.Set as Set
use basiccoin.Collections.Set.Distinct.{IsOnce, add-IsOnce, remove-IsOnce}
use basiccoin.Collections.Set.{includes-add, includes-remove}
use basiccoin.Core.Tx.{Utxo, TxOut, utxo_eq}
use basiccoin.Hash.{HashT, hash_eq, zero_hash}
use basiccoin.Inv.{Inv, get_tx_out}

abbrev pub pkh_of : Result TxOut → HashT
pkh_of (ok txo) = txo.public_key_hash
pkh_of (err e) = zero_hash
pkh_of panic = zero_hash
pkh_of out_of_fuel = zero_hash

-- The key hash that an output is for, by the inventory.
unfoldable pub owner : Inv → Utxo → HashT
owner inv u = pkh_of (get_tx_out inv u.tx_id u.ind)

-- The outputs under a key hash.
unfoldable pub under : HashT → Map HashT (Set.Set Utxo) → Set.Set Utxo
under pkh m = set_or_new (Map.lookup pkh m)

-- The outputs under a key hash are the unspent ones that are for it, and the inventory has those.
pub record IsIndexed {F : Type 0} (inv : Inv) (s : State F) : Type 0 where
  pub known :
      (u : Utxo)
      → Set.includes u s.utxos ≡ true
      → (txo : TxOut) × (get_tx_out inv u.tx_id u.ind ≡ ok txo)
  pub index :
      (pkh : HashT) (u : Utxo)
      → Set.includes u (under pkh s.pkh_utxos) ≡ (Set.includes u s.utxos && (owner inv u == pkh))
  pub once : (pkh : HashT) → IsOnce (under pkh s.pkh_utxos)

credit_balance-IsOnce :
    (pkh p : HashT) (x : Utxo) (m : Map HashT (Set.Set Utxo))
    → ((k : HashT) → IsOnce (under k m))
    → IsOnce (under p (credit_balance pkh x m))
unfolding credit_balance under
credit_balance-IsOnce pkh p x m h = elim (Bool-cases (pkh == p)) [
  | inl here ↦
      rw (lookup-insert pkh p (Set.add x (set_or_new (Map.lookup pkh m))) m, here)
        (add-IsOnce x (set_or_new (Map.lookup pkh m)) (h pkh))
  | inr other ↦ rw (lookup-insert pkh p (Set.add x (set_or_new (Map.lookup pkh m))) m, other) (h p)
]

put_or_delete-IsOnce :
    (pkh p : HashT) (utxos : Set.Set Utxo) (m : Map HashT (Set.Set Utxo))
    → IsOnce utxos
    → ((k : HashT) → IsOnce (under k m))
    → IsOnce (under p (put_or_delete pkh utxos m))
unfolding put_or_delete under
put_or_delete-IsOnce pkh p [] m once h = elim (Bool-cases (pkh == p)) [
  | inl here ↦ rw (lookup-delete pkh p m, here) tt
  | inr other ↦ rw (lookup-delete pkh p m, other) (h p)
]
put_or_delete-IsOnce pkh p (x ∷ utxos) m once h =
    let some_left : nat_eq.beq (Set.size (x ∷ utxos)) 0 ≡ false = ground arith in
    elim (Bool-cases (pkh == p)) [
      | inl here ↦ rw (some_left, lookup-insert pkh p (x ∷ utxos) m, here) once
      | inr other ↦ rw (some_left, lookup-insert pkh p (x ∷ utxos) m, other) (h p)
    ]

includes-credit_balance :
    (pkh p : HashT) (x u : Utxo) (m : Map HashT (Set.Set Utxo))
    → Set.includes u (under p (credit_balance pkh x m)) ≡ (
        if pkh == p
        then (if x == u then true else Set.includes u (under p m))
        else Set.includes u (under p m))
unfolding credit_balance under
includes-credit_balance pkh p x u m = elim (Bool-cases (pkh == p)) [
  | inl here ↦
      let same : pkh ≡ p = (hash_eq.beq_iff pkh p).0 here in
      rw (lookup-insert pkh p (Set.add x (set_or_new (Map.lookup pkh m))) m, here)
        (includes-add x u (set_or_new (Map.lookup pkh m))
          ∙ ap
              (λ (k : HashT). if x == u then true else Set.includes u (set_or_new (Map.lookup k m)))
              same)
  | inr other ↦ rw (lookup-insert pkh p (Set.add x (set_or_new (Map.lookup pkh m))) m, other) refl
]

includes-put_or_delete :
    (pkh p : HashT) (u : Utxo) (utxos : Set.Set Utxo) (m : Map HashT (Set.Set Utxo))
    → Set.includes u (under p (put_or_delete pkh utxos m))
      ≡ (if pkh == p then Set.includes u utxos else Set.includes u (under p m))
unfolding put_or_delete under
includes-put_or_delete pkh p u [] m = elim (Bool-cases (pkh == p)) [
  | inl here ↦ rw (lookup-delete pkh p m, here) refl
  | inr other ↦ rw (lookup-delete pkh p m, other) refl
]
includes-put_or_delete pkh p u (x ∷ utxos) m =
    let some_left : nat_eq.beq (Set.size (x ∷ utxos)) 0 ≡ false = ground arith in
    elim (Bool-cases (pkh == p)) [
      | inl here ↦ rw (some_left, lookup-insert pkh p (x ∷ utxos) m, here) refl
      | inr other ↦ rw (some_left, lookup-insert pkh p (x ∷ utxos) m, other) refl
    ]

under_found :
    (pkh : HashT) (utxos : Set.Set Utxo) (m : Map HashT (Set.Set Utxo))
    → Map.lookup pkh m ≡ some utxos
    → under pkh m ≡ utxos
unfolding under
under_found pkh utxos m found = rw found refl

includes-debit_balance :
    (pkh p : HashT) (x u : Utxo) (m m' : Map HashT (Set.Set Utxo))
    → debit_balance pkh x m ≡ ok m'
    → Set.includes u (under p m') ≡ (
        if pkh == p
        then (if x == u then false else Set.includes u (under p m))
        else Set.includes u (under p m))
unfolding debit_balance
includes-debit_balance pkh p x u m m' e = elim (Option-cases (Map.lookup pkh m)) [
  | inl out ↦ let e₁ = rw (out, debit_balance) at e in absurd cc
  | inr (utxos, found) ↦
      let e₁ = rw (found, debit_balance) at e in
      let (_, e₂) = guard-eq-ok (Set.includes x utxos) not_controlled _ e₁ in
      let left : Set.Set Utxo = (Set.remove x utxos).0 in
      ap (λ (k : Map HashT (Set.Set Utxo)). Set.includes u (under p k)) (sym (ok-injective _ m' e₂))
      ∙ includes-put_or_delete pkh p u left m
      ∙ elim (Bool-cases (pkh == p)) [
        | inl here ↦
            let same : pkh ≡ p = (hash_eq.beq_iff pkh p).0 here in
            let at_p : under p m ≡ utxos =
              ap (λ (k : HashT). under k m) (sym same) ∙ under_found pkh utxos m found in
            rw (here, at_p) (includes-remove x u utxos).1
        | inr other ↦ rw other refl
      ]
]

debit_balance-IsOnce :
    (pkh p : HashT) (x : Utxo) (m m' : Map HashT (Set.Set Utxo))
    → ((k : HashT) → IsOnce (under k m))
    → debit_balance pkh x m ≡ ok m'
    → IsOnce (under p m')
unfolding debit_balance
debit_balance-IsOnce pkh p x m m' h e = elim (Option-cases (Map.lookup pkh m)) [
  | inl out ↦ let e₁ = rw (out, debit_balance) at e in absurd cc
  | inr (utxos, found) ↦
      let e₁ = rw (found, debit_balance) at e in
      let (_, e₂) = guard-eq-ok (Set.includes x utxos) not_controlled _ e₁ in
      let once : IsOnce utxos = subst IsOnce (under_found pkh utxos m found) (h pkh) in
      subst (λ (k : Map HashT (Set.Set Utxo)). IsOnce (under p k)) (ok-injective _ m' e₂)
        (put_or_delete-IsOnce pkh p (Set.remove x utxos).0 m (remove-IsOnce x utxos once) h)
]

pub owner_lem :
    (inv : Inv) (x : Utxo) (txo : TxOut)
    → get_tx_out inv x.tx_id x.ind ≡ ok txo
    → owner inv x ≡ txo.public_key_hash
unfolding owner
owner_lem inv x txo e = rw e refl

module _ {F : Type 0} (inv : Inv) (s : State F) (h : IsIndexed inv s) (x : Utxo) (txo : TxOut)
    (found : get_tx_out inv x.tx_id x.ind ≡ ok txo) where
  owner_eq : (u : Utxo) → (x == u) ≡ true → owner inv u ≡ txo.public_key_hash
  owner_eq u same = ap (owner inv) (sym ((utxo_eq.beq_iff x u).0 same)) ∙ owner_lem inv x txo found

  -- An output is spent.
  pub debit-IsIndexed :
      (balances : Map HashT (Set.Set Utxo))
      → debit_balance txo.public_key_hash x s.pkh_utxos ≡ ok balances
      → IsIndexed inv (record s { utxos = (Set.remove x s.utxos).0; pkh_utxos = balances })
  debit-IsIndexed balances e = record {
    known = λ u there. h.known u (ground (arith, (includes-remove x u s.utxos).1, there));
    index = λ pkh u.
        includes-debit_balance txo.public_key_hash pkh x u s.pkh_utxos balances e
        ∙ ground (arith, (includes-remove x u s.utxos).1, h.index pkh u, owner_eq u);
    once = λ pkh. debit_balance-IsOnce txo.public_key_hash pkh x s.pkh_utxos balances h.once e;
  }

  -- An output is unspent.
  pub credit-IsIndexed : IsIndexed inv (record s {
    utxos = Set.add x s.utxos;
    pkh_utxos = credit_balance txo.public_key_hash x s.pkh_utxos;
  })
  credit-IsIndexed = record {
    known = λ u there. elim (Bool-cases (x == u)) [
      | inl same ↦ (
        txo,
        subst (λ (y : Utxo). get_tx_out inv y.tx_id y.ind ≡ ok txo) ((utxo_eq.beq_iff x u).0 same)
            found,
      )
      | inr other ↦ h.known u (ground (arith, includes-add x u s.utxos, there))
    ];
    index = λ pkh u.
        includes-credit_balance txo.public_key_hash pkh x u s.pkh_utxos
        ∙ ground (arith, includes-add x u s.utxos, h.index pkh u, owner_eq u);
    once = λ pkh. credit_balance-IsOnce txo.public_key_hash pkh x s.pkh_utxos h.once;
  }
