-- ===== src/Chain/Target/Fits.antt =====
-- The selection loop of `CreateMiningTarget` in internal/chain/target.go.
use basiccoin.Base.{
  ℕ, ◌+◌, ◌<◌, ◌≡◌, ◌≤◌, ◌^◌, refl, sym, ◌∙◌, ap, Bool, true, false, ◌||◌, some, List, [], ◌∷◌,
  ◌++◌, All, arith, inl, inr, Bool-cases, ltb, ltb-false→le,
}
use mathlib.Core.Path.{subst, fun_ext}
use mathlib.Core.List.{append_assoc, append-nil}
use basiccoin.Base.Result.{ok, >>=-eq-ok, ok-injective}
use basiccoin.Base.Word.{sub64}
use basiccoin.Collections.Map as Map
use basiccoin.Collections.Map.{Map}
use basiccoin.Collections.Set as Set
use basiccoin.Chain.Target.{Selection, start_selection, include, skips, select_txs}
use basiccoin.Core.Block.{coinbase_vsize, min_non_coinbase_vsize}
use basiccoin.Core.Tx.{Utxo, Tx, utxo_eq, vsize, get_consumed_utxos}
use basiccoin.Hash.{HashT, hash_eq}
use basiccoin.Inv.{Inv, TxRecord, get_tx, get_txs}

-- The sum of the sizes, as a number.
abbrev pub total_vsize : List Tx → ℕ
total_vsize [] = 0
total_vsize (tx ∷ txs) = vsize tx + total_vsize txs

-- No transaction claims an output that is taken, or that one before it claims.
abbrev pub AreApart : (Utxo → Bool) → List Tx → Type 0
AreApart taken [] = Unit {0}
AreApart taken (tx ∷ txs) =
    ((u : Utxo) → Set.contains u (get_consumed_utxos tx) ≡ true → taken u ≡ false)
    × AreApart (λ u. Set.contains u (get_consumed_utxos tx) || taken u) txs

abbrev pub HasSmallTx : HashT × TxRecord → Type 0
HasSmallTx entry = vsize entry.1.tx < 2 ^ 63

-- The selected transactions are stored, fit in a block with a coinbase, and claim no output twice.
pub record IsPacked (inv : Inv) (sel : Selection) : Type 0 where
  pub txs : List Tx
  pub known : get_txs inv sel.tx_ids ≡ ok txs
  pub fits : coinbase_vsize + total_vsize txs ≤ inv.core_params.max_block_vsize
  pub apart : AreApart (λ u. false) txs

-- What the loop adds to a selection.
record Extends (inv : Inv) (sel sel' : Selection) : Type 0 where
  more_ids : List HashT
  more_txs : List Tx
  ids : sel'.tx_ids ≡ sel.tx_ids ++ more_ids
  known : get_txs inv more_ids ≡ ok more_txs
  size : sel'.total_size ≡ sel.total_size + total_vsize more_txs
  fits : sel'.total_size ≤ inv.core_params.max_block_vsize
  apart : AreApart (λ u. Set.includes u sel.consumed_utxos) more_txs

lookup-HasSmallTx :
    (id : HashT) (txs : Map HashT TxRecord) (r : TxRecord)
    → All HasSmallTx txs
    → Map.lookup id txs ≡ some r
    → vsize r.tx < 2 ^ 63
unfolding Map.lookup
lookup-HasSmallTx id [] r small e = ground arith
lookup-HasSmallTx id ((k, r') ∷ txs) r small e = ground (arith, lookup-HasSmallTx id txs r)

get_tx-small :
    (inv : Inv) (id : HashT) (tx : Tx)
    → All HasSmallTx inv.txs
    → get_tx inv id ≡ ok tx
    → vsize tx < 2 ^ 63
unfolding get_tx
get_tx-small inv id tx small e =
    let (r, e₁, e₂) = >>=-eq-ok (Map.get id inv.txs) _ e in
    let same : r.tx ≡ tx = ok-injective _ _ e₂ in
    subst (λ (t : Tx). vsize t < 2 ^ 63) same (lookup-HasSmallTx id inv.txs r small (ground arith))

includes_any-false :
    (keys : List Utxo) (s : Set.Set Utxo) (u : Utxo)
    → Set.includes_any keys s ≡ false
    → Set.contains u keys ≡ true
    → Set.includes u s ≡ false
unfolding Set.includes_any
includes_any-false [] s u none_in u_in = ground arith
includes_any-false (k ∷ keys) s u none_in u_in =
    ground (arith, includes_any-false keys s u, utxo_eq.beq_iff k u)

Extends-stop :
    (inv : Inv) (sel : Selection)
    → sel.total_size ≤ inv.core_params.max_block_vsize
    → Extends inv sel sel
unfolding get_txs
Extends-stop inv sel fits = record {
  more_ids = [];
  more_txs = [];
  ids = sym (append-nil sel.tx_ids);
  known = refl;
  size = omega arith;
  fits = fits;
  apart = tt;
}

-- A transaction that is not passed over comes first of what is added.
Extends-include :
    (inv : Inv) (tx_id : HashT) (tx : Tx) (sel sel' : Selection)
    → inv.core_params.max_block_vsize < 2 ^ 63
    → vsize tx < 2 ^ 63
    → sel.total_size ≤ inv.core_params.max_block_vsize
    → skips inv.core_params.max_block_vsize tx sel ≡ false
    → get_tx inv tx_id ≡ ok tx
    → Extends inv (include tx_id tx sel) sel'
    → Extends inv sel sel'
unfolding skips include get_txs
Extends-include inv tx_id tx sel sel' max small fits take_it found x = record {
  more_ids = tx_id ∷ x.more_ids;
  more_txs = tx ∷ x.more_txs;
  ids = x.ids ∙ append_assoc sel.tx_ids (tx_id ∷ []) x.more_ids;
  known = rw (found, x.known);
  size = omega (arith, x.size, x.fits);
  fits = x.fits;
  apart = (
    (λ u. includes_any-false (get_consumed_utxos tx) sel.consumed_utxos u (ground arith)),
    subst (λ taken. AreApart taken x.more_txs)
        (fun_ext (λ u. Set.includes-add_all u (get_consumed_utxos tx) sel.consumed_utxos)) x.apart,
  );
}

include-fits :
    (max : ℕ) (tx_id : HashT) (tx : Tx) (sel : Selection)
    → skips max tx sel ≡ false
    → (include tx_id tx sel).total_size ≤ max
unfolding skips include
include-fits max tx_id tx sel h = ltb-false→le _ _ (ground arith)

select_txs-Extends :
    (inv : Inv) (ids : List HashT) (sel sel' : Selection)
    → inv.core_params.max_block_vsize < 2 ^ 63
    → All HasSmallTx inv.txs
    → sel.total_size ≤ inv.core_params.max_block_vsize
    → select_txs inv ids sel ≡ ok sel'
    → Extends inv sel sel'
unfolding select_txs
select_txs-Extends inv [] sel sel' max small fits e =
    subst (Extends inv sel) (ok-injective _ _ e) (Extends-stop inv sel fits)
select_txs-Extends inv (tx_id ∷ rest) sel sel' max small fits e =
    let (tx, found, e₁) = >>=-eq-ok (get_tx inv tx_id) _ e in
    elim (Bool-cases (skips inv.core_params.max_block_vsize tx sel)) [
      | inl skip ↦ let e₂ = rw skip at e₁ in select_txs-Extends inv rest sel sel' max small fits e₂
      | inr take_it ↦
          let e₂ = rw take_it at e₁ in
          let ok_now = include-fits inv.core_params.max_block_vsize tx_id tx sel take_it in
          Extends-include inv tx_id tx sel sel' max (get_tx-small inv tx_id tx small found) fits
            take_it found
            (elim (Bool-cases (
              ltb (sub64 inv.core_params.max_block_vsize min_non_coinbase_vsize)
                (include tx_id tx sel).total_size)) [
                  | inl full ↦
                      let e₃ = rw full at e₂ in
                      subst (Extends inv (include tx_id tx sel)) (ok-injective _ _ e₃)
                        (Extends-stop inv (include tx_id tx sel) ok_now)
                  | inr room ↦
                      let e₃ = rw room at e₂ in
                      select_txs-Extends inv rest (include tx_id tx sel) sel' max small ok_now e₃
                ])
    ]

-- The transactions that the loop of `CreateMiningTarget` selects from any candidates are stored,
-- their sizes with that of a coinbase add up, as numbers, to no more than the limit of a block,
-- and none of them claims an output that another claims before it, when the limit leaves room for
-- a coinbase and the limit and the size of every stored transaction are below 2^63.
pub select_txs-IsPacked :
    (inv : Inv) (ids : List HashT) (sel : Selection)
    → coinbase_vsize ≤ inv.core_params.max_block_vsize
    → inv.core_params.max_block_vsize < 2 ^ 63
    → All HasSmallTx inv.txs
    → select_txs inv ids start_selection ≡ ok sel
    → IsPacked inv sel
select_txs-IsPacked inv ids sel coinbase max small e =
    let x = select_txs-Extends inv ids start_selection sel max small coinbase e in
    record {
      txs = x.more_txs;
      known = ap (get_txs inv) x.ids ∙ x.known;
      fits = omega (arith, x.size, x.fits);
      apart =
          subst (λ taken. AreApart taken x.more_txs) (fun_ext (λ u. Set.includes-new_set u))
            x.apart;
    }
