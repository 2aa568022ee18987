-- ===== src/Chain/Refinement.antt =====
-- The state of internal/chain as an abstract ledger: a head and the set of unspent outputs. Blocks
-- extend it and are undone.
use mathlib.Core.Path.{subst}
use basiccoin.Base.{
  ℕ, zero, suc, ◌≡◌, refl, sym, ◌∙◌, ap, Bool, true, not, ◌&&◌, ◌||◌, List, [], ◌∷◌,
}
use basiccoin.Base.Eq.{◌==◌}
use basiccoin.Base.Result.{ok, expect, >>=-eq-ok, guard-eq-ok, assert-eq-ok, ok-injective}
use basiccoin.Chain.Handlers.{advance_all, reorganise}
use basiccoin.Chain.State.{
  State, advance_tx, advance_txs, advance, rewind_tx, rewind_txs, rewind, rewind_times,
  rewind_until,
}
use basiccoin.Chain.State.Utxos.{outputs_from}
use basiccoin.Chain.State.Ledger.{Advanced, Rewound, advance_tx-Advanced, rewind_tx-Rewound}
use basiccoin.Collections.Set as Set
use basiccoin.Collections.Set.{contains}
use basiccoin.Core.Block.{Block}
use basiccoin.Core.Tx.{Utxo, Tx, FloatOps, utxo_eq, tx_hash, get_consumed_utxos}
use basiccoin.Hash.{HashT, hash_eq, eq_zero}
use basiccoin.Hash.Digest.{Sha256}
use basiccoin.Inv.{
  Inv, has_block, get_block, get_merkle_txs, get_block_lca, get_block_ancestor_depth,
  get_block_ancestors_until,
}

-- A set of outputs, whatever the order that they were added in.
abbrev pub Coins : Type 0
Coins = Utxo → Bool

pub record Ledger : Type 0 where
  pub head : HashT
  pub unspent : Coins

abbrev pub ledger_of : {F : Type 0} → State F → Ledger
ledger_of s = record { head = s.head; unspent = λ u. Set.includes u s.utxos }

module _ ⦃sha : Sha256⦄ where
  abbrev pub claims : Tx → Coins
  claims tx u = contains u (get_consumed_utxos tx)

  abbrev pub makes : Tx → Coins
  makes tx u = contains u (outputs_from (tx_hash tx) 0 tx.outputs)

  -- A transaction spends its inputs and makes its outputs; undone, it is the other way round.
  abbrev pub spend : Tx → Coins → Coins
  spend tx coins u = makes tx u || (coins u && not (claims tx u))

  abbrev pub unspend : Tx → Coins → Coins
  unspend tx coins u = (claims tx u || coins u) && not (makes tx u)

  -- The transactions one after the other, each with all of its inputs unspent.
  abbrev pub Pays : List Tx → Coins → Coins → Type 0
  Pays [] coins coins' = coins ≡ coins'
  Pays (tx ∷ txs) coins coins' =
      ((u : Utxo) → claims tx u ≡ true → coins u ≡ true) × Pays txs (spend tx coins) coins'

  -- The transactions undone one after the other, each with all of its outputs unspent or its own inputs.
  abbrev pub Unpays : List Tx → Coins → Coins → Type 0
  Unpays [] coins coins' = coins ≡ coins'
  Unpays (tx ∷ txs) coins coins' =
      ((u : Utxo) → makes tx u ≡ true → (claims tx u || coins u) ≡ true)
      × Unpays txs (unspend tx coins) coins'

  pub record Extends (inv : Inv) (l m : Ledger) : Type 0 where
    pub block : Block
    pub txs : List Tx
    pub stored : get_block inv m.head ≡ ok block
    pub tree : get_merkle_txs inv block.merkle_root ≡ ok txs
    pub parent : block.prev_block_id ≡ l.head
    pub paid : Pays txs l.unspent m.unspent

  pub record Undoes (inv : Inv) (l m : Ledger) : Type 0 where
    pub block : Block
    pub txs : List Tx
    pub stored : get_block inv l.head ≡ ok block
    pub tree : get_merkle_txs inv block.merkle_root ≡ ok txs
    pub parent : block.prev_block_id ≡ m.head
    pub unpaid : Unpays txs l.unspent m.unspent

  -- Blocks undone, from the head down.
  pub data Back (inv : Inv) : Ledger → Ledger → Type 0 where
    here : (l : Ledger) → Back inv l l
    undo : (l m k : Ledger) → Undoes inv l m → Back inv m k → Back inv l k

  -- Blocks added, these up to the new head.
  pub data Forth (inv : Inv) : List HashT → Ledger → Ledger → Type 0 where
    start : (l : Ledger) → Forth inv [] l l
    extend :
        (ids : List HashT) (l m k : Ledger)
        → Forth inv ids l m
        → Extends inv m k
        → Forth inv (k.head ∷ ids) l k

module _ {F : Type 0} ⦃float : FloatOps F⦄ ⦃sha : Sha256⦄ (inv : Inv) where
  advance_txs-Pays :
      (id : HashT) (auto : Bool) (txs : List Tx) (s s' : State F)
      → advance_txs inv id auto txs s ≡ ok s'
      → Pays txs (ledger_of s).unspent (ledger_of s').unspent × (s'.head ≡ s.head)
  unfolding advance_txs
  advance_txs-Pays id auto [] s s' e =
      let same : s ≡ s' = ok-injective s s' e in
      (ap (λ (t : State F). (ledger_of t).unspent) same, ap (λ (t : State F). t.head) (sym same))
  advance_txs-Pays id auto (tx ∷ txs) s s' e =
      let (t, done, e₁) = >>=-eq-ok (advance_tx inv id auto tx s) _ e in
      let a : Advanced tx s t = advance_tx-Advanced inv id auto tx s t done in
      let (paid, head) = advance_txs-Pays id auto txs t s' e₁ in
      let after : (ledger_of t).unspent ≡ spend tx (ledger_of s).unspent = λ i u. a.utxos u i in
      (
        (a.inputs, subst (λ (c : Coins). Pays txs c (ledger_of s').unspent) after paid),
        head ∙ a.head,
      )

  rewind_txs-Unpays :
      (txs : List Tx) (s s' : State F)
      → rewind_txs inv txs s ≡ ok s'
      → Unpays txs (ledger_of s).unspent (ledger_of s').unspent × (s'.head ≡ s.head)
  unfolding rewind_txs
  rewind_txs-Unpays [] s s' e =
      let same : s ≡ s' = ok-injective s s' e in
      (ap (λ (t : State F). (ledger_of t).unspent) same, ap (λ (t : State F). t.head) (sym same))
  rewind_txs-Unpays (tx ∷ txs) s s' e =
      let (t, done, e₁) = >>=-eq-ok (rewind_tx inv tx s) _ e in
      let r : Rewound tx s t = rewind_tx-Rewound inv tx s t done in
      let (unpaid, head) = rewind_txs-Unpays txs t s' e₁ in
      let after : (ledger_of t).unspent ≡ unspend tx (ledger_of s).unspent = λ i u. r.utxos u i in
      (
        (r.outputs, subst (λ (c : Coins). Unpays txs c (ledger_of s').unspent) after unpaid),
        head ∙ r.head,
      )

  -- `Advance` and `Rewind` of one block.
  advance-Extends :
      (id : HashT) (auto : Bool) (s s' : State F)
      → advance inv id auto s ≡ ok s'
      → Extends inv (ledger_of s) (ledger_of s') × (s'.head ≡ id)
  unfolding advance
  advance-Extends id auto s s' e =
      let (_, e₁) = guard-eq-ok (has_block inv id) _ _ e in
      let (b, stored, e₂) = >>=-eq-ok (get_block inv id) _ e₁ in
      let (txs, tree, e₃) = >>=-eq-ok (get_merkle_txs inv b.merkle_root) _ e₂ in
      let (on_head, e₄) = guard-eq-ok (b.prev_block_id == s.head) _ _ e₃ in
      let (t, done, e₅) = >>=-eq-ok (advance_txs inv id auto txs s) _ e₄ in
      let same : record t { head = id } ≡ s' = ok-injective (record t { head = id }) s' e₅ in
      let (paid, _) = advance_txs-Pays id auto txs s t done in
      let extended : Extends inv (ledger_of s) (ledger_of (record t { head = id })) = record {
        block = b;
        txs = txs;
        stored = stored;
        tree = tree;
        parent = (hash_eq.beq_iff b.prev_block_id s.head).0 on_head;
        paid = paid;
      } in
      (
        subst (λ (t : State F). Extends inv (ledger_of s) (ledger_of t)) same extended,
        ap (λ (t : State F). t.head) (sym same),
      )

  rewind-Undoes : (s s' : State F) → rewind inv s ≡ ok s' → Undoes inv (ledger_of s) (ledger_of s')
  unfolding rewind
  rewind-Undoes s s' e =
      let (_, e₁) = assert-eq-ok (not (eq_zero s.head)) _ e in
      let (b, stored, e₂) = >>=-eq-ok (get_block inv s.head) _ e₁ in
      let (txs, tree, e₃) = >>=-eq-ok (get_merkle_txs inv b.merkle_root) _ e₂ in
      let (t, done, e₄) = >>=-eq-ok (rewind_txs inv txs s) _ e₃ in
      let (unpaid, _) = rewind_txs-Unpays txs s t done in
      let undone : Undoes inv (ledger_of s) (ledger_of (record t { head = b.prev_block_id })) =
        record {
          block = b;
          txs = txs;
          stored = stored;
          tree = tree;
          parent = refl;
          unpaid = unpaid;
        } in
      subst (λ (t : State F). Undoes inv (ledger_of s) (ledger_of t)) (ok-injective _ s' e₄) undone

  rewind_times-Back :
      (n : ℕ) (s s' : State F)
      → rewind_times inv n s ≡ ok s'
      → Back inv (ledger_of s) (ledger_of s')
  unfolding rewind_times
  rewind_times-Back zero s s' e =
      subst (λ (t : State F). Back inv (ledger_of s) (ledger_of t)) (ok-injective s s' e)
        (here (ledger_of s))
  rewind_times-Back (suc n) s s' e =
      let (t, done, e₁) = >>=-eq-ok (rewind inv s) _ e in
      undo (ledger_of s) (ledger_of t) (ledger_of s') (rewind-Undoes s t done)
        (rewind_times-Back n t s' e₁)

  rewind_until-Back :
      (id : HashT) (s s' : State F)
      → rewind_until inv id s ≡ ok s'
      → Back inv (ledger_of s) (ledger_of s') × (s'.head ≡ id)
  unfolding rewind_until
  rewind_until-Back id s s' e =
      let (found, _, e₁) = >>=-eq-ok (get_block_ancestor_depth inv s.head id) _ e in
      let (depth, _, e₂) = >>=-eq-ok (expect found) _ e₁ in
      let (t, done, e₃) = >>=-eq-ok (rewind_times inv depth s) _ e₂ in
      let (at, e₄) = assert-eq-ok (t.head == id) _ e₃ in
      let same : t ≡ s' = ok-injective t s' e₄ in
      (
        subst (λ (x : State F). Back inv (ledger_of s) (ledger_of x)) same
            (rewind_times-Back depth s t done),
        ap (λ (x : State F). x.head) (sym same) ∙ (hash_eq.beq_iff t.head id).0 at,
      )

  advance_all-Forth :
      (auto : Bool) (ids : List HashT) (s s' : State F)
      → advance_all inv auto ids s ≡ ok s'
      → Forth inv ids (ledger_of s) (ledger_of s')
  unfolding advance_all
  advance_all-Forth auto [] s s' e =
      subst (λ (t : State F). Forth inv [] (ledger_of s) (ledger_of t)) (ok-injective s s' e)
        (start (ledger_of s))
  advance_all-Forth auto (id ∷ ids) s s' e =
      let (t, done, e₁) = >>=-eq-ok (advance_all inv auto ids s) _ e in
      let (extended, head) = advance-Extends id auto t s' e₁ in
      subst (λ (x : HashT). Forth inv (x ∷ ids) (ledger_of s) (ledger_of s')) head
        (extend ids (ledger_of s) (ledger_of t) (ledger_of s') (advance_all-Forth auto ids s t done)
          extended)

  -- If the change of the head in `handleCandidateHead` (rewind to the last common ancestor, then
  -- advance to the candidate) returns a state, then as a ledger, a head with a set of unspent
  -- outputs, the old state is taken back block by block to a ledger at the last common ancestor,
  -- and from there forth through the ancestors that the inventory lists and the candidate, each
  -- block on the head before it, to the new state; a block added has each of its transactions, in
  -- order, spend inputs that are unspent and make its outputs, and a block taken back undoes its
  -- transactions in order, each output being unspent or one of the inputs.
  pub reorganise-Forth :
      (s s' : State F) (head : HashT) (auto : Bool)
      → reorganise inv s head auto ≡ ok s'
      → (fork : Ledger) × (ids : List HashT) × (get_block_lca inv s.head head ≡ ok fork.head)
        × (get_block_ancestors_until inv head fork.head ≡ ok ids)
        × Back inv (ledger_of s) fork
        × Forth inv (head ∷ ids) fork (ledger_of s')
  unfolding reorganise
  reorganise-Forth s s' head auto e =
      let (lca, found, e₁) = >>=-eq-ok (get_block_lca inv s.head head) _ e in
      let (t, rewound, e₂) = >>=-eq-ok (rewind_until inv lca s) _ e₁ in
      let (ids, listed, e₃) = >>=-eq-ok (get_block_ancestors_until inv head lca) _ e₂ in
      let (back, at) = rewind_until-Back lca s t rewound in
      (
        ledger_of t,
        ids,
        found ∙ ap ok (sym at),
        ap (get_block_ancestors_until inv head) at ∙ listed,
        back,
        advance_all-Forth auto (head ∷ ids) t s' e₃,
      )
