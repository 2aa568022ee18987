-- ===== src/Chain/Keeps.antt =====
-- The ledger and the file of the head in the handlers of internal/chain/chain.go that store things.
use basiccoin.Base.{ℕ, ◌≡◌, refl, sym, ◌∙◌, Bool, true, false, List, [], ◌∷◌, if◌then◌else◌}
use basiccoin.Base.Result.{Result, ok, err, panic, out_of_fuel, >>=-eq-ok, ok-injective}
use basiccoin.Chain.State.{State, add_mempool_tx, to_mempool}
use basiccoin.Chain.State.Ledger.{SameLedger, SameLedger-of}
use basiccoin.Chain.Handlers.{
  Chain, CandidateHead, Handler, and_then, ◌>>=◌, accept_tx, insert_txs, insert_merkles,
  insert_blocks, insert_all,
}
use basiccoin.Core.Block.{Block, MerkleNode}
use basiccoin.Core.Crypto.{Ecdsa}
use basiccoin.Core.Tx.{Tx, FloatOps, tx_hash}
use basiccoin.Hash.{HashT, hash_eq}
use basiccoin.Hash.Digest.{Sha256}
use basiccoin.Inv.{Inv, get_tx, store_tx, has_tx}

module _ {F A B : Type 0} where
  -- What holds when the first handler stops, and when it goes on, holds of the two in sequence.
  pub and_then-holds :
      (P : Chain F → Type 0) (f : A → Handler F B) (c : Chain F) (r : Result A)
      → P c
      → ((a : A) → r ≡ ok a → P (f a c).0)
      → P (and_then f c r).0
  and_then-holds P f c (ok a) h next = next a refl
  and_then-holds P f c (err e) h next = h
  and_then-holds P f c panic h next = h
  and_then-holds P f c out_of_fuel h next = h

module _ {F : Type 0} where
  pub SameLedger-refl : (s : State F) → SameLedger s s
  SameLedger-refl s = SameLedger-of s s s refl refl refl refl refl

  pub SameLedger-trans :
      (s₁ s₂ s₃ : State F) → SameLedger s₁ s₂ → SameLedger s₂ s₃ → SameLedger s₁ s₃
  SameLedger-trans s₁ s₂ s₃ h h' = record {
    utxos = h'.utxos ∙ h.utxos;
    head = h'.head ∙ h.head;
    included = h'.included ∙ h.included;
    balances = h'.balances ∙ h.balances;
  }

  -- The ledger and the file of the head as they were.
  pub record Undisturbed (c d : Chain F) : Type 0 where
    pub ledger : SameLedger c.state d.state
    pub dir : d.save_dir ≡ c.save_dir

  Undisturbed-refl : (c : Chain F) → Undisturbed c c
  Undisturbed-refl c = record { ledger = SameLedger-refl c.state; dir = refl }

  Undisturbed-trans :
      (c₁ c₂ c₃ : Chain F) → Undisturbed c₁ c₂ → Undisturbed c₂ c₃ → Undisturbed c₁ c₃
  Undisturbed-trans c₁ c₂ c₃ h h' = record {
    ledger = SameLedger-trans c₁.state c₂.state c₃.state h.ledger h'.ledger;
    dir = h'.dir ∙ h.dir;
  }

  -- A handler that disturbs neither.
  unfoldable pub Keeps : {A : Type 0} → Handler F A → Type 0
  Keeps m = (c : Chain F) → Undisturbed c (m c).0

  >>=-Keeps :
      {A B : Type 0} (m : Handler F A) (f : A → Handler F B)
      → Keeps m
      → ((a : A) → Keeps (f a))
      → Keeps (m >>= f)
  unfolding Keeps
  >>=-Keeps m f h next c =
      and_then-holds (Undisturbed c) f (m c).0 (m c).1 (h c)
        (λ a _. Undisturbed-trans c (m c).0 (f a (m c).0).0 (h c) (next a (m c).0))

  if-Keeps :
      {A : Type 0} (test : Chain F → Bool) (m n : Handler F A)
      → Keeps m
      → Keeps n
      → Keeps (λ c. if test c then m c else n c)
  unfolding Keeps
  if-Keeps test m n h k c = split (test c)
    where
      split : (b : Bool) → Undisturbed c (if b then m c else n c).0
      split true = h c
      split false = k c

  same-Keeps : {A : Type 0} (r : Chain F → Result A) → Keeps (λ c. (c, r c))
  unfolding Keeps
  same-Keeps r c = Undisturbed-refl c

module _ {F : Type 0} ⦃float : FloatOps F⦄ where
  pub add_mempool_tx-SameLedger :
      (inv : Inv) (tx_id : HashT) (s s' : State F)
      → add_mempool_tx inv tx_id s ≡ ok s'
      → SameLedger s s'
  unfolding add_mempool_tx to_mempool
  add_mempool_tx-SameLedger inv tx_id s s' e =
      let (tx, _, e₁) = >>=-eq-ok (get_tx inv tx_id) _ e in
      SameLedger-of s s' (to_mempool tx_id tx s) refl refl refl refl (sym (ok-injective _ _ e₁))

-- The type of fee rates is explicit here, since a handler's type is all that mentions it.
module _ (F : Type 0) ⦃float : FloatOps F⦄ ⦃sha : Sha256⦄ where
  inv-Keeps : (inv : Inv) → Keeps (λ (c : Chain F). (record c { inv = inv }, ok tt))
  unfolding Keeps
  inv-Keeps inv c = record { ledger = SameLedger-refl c.state; dir = refl }

  pub accept_tx-Keeps : ⦃ecdsa : Ecdsa⦄ (tx : Tx) → Keeps {F = F} (accept_tx tx)
  unfolding accept_tx Keeps
  accept_tx-Keeps tx c =
      let put : State F → Handler F (Unit {0}) = λ s d. (record d { state = s }, ok tt) in
      let add : Inv → Handler F (Unit {0}) =
        λ inv d. and_then put (record d { inv = inv }) (add_mempool_tx inv (tx_hash tx) d.state) in
      and_then-holds (Undisturbed c) add c (store_tx c.inv tx) (Undisturbed-refl c) (λ inv _.
        and_then-holds (Undisturbed c) put (record c { inv = inv })
          (add_mempool_tx inv (tx_hash tx) c.state)
          (record { ledger = SameLedger-refl c.state; dir = refl })
          (λ s added. record {
            ledger = add_mempool_tx-SameLedger inv (tx_hash tx) c.state s added;
            dir = refl;
          }))

  insert_txs-Keeps : ⦃ecdsa : Ecdsa⦄ (txs : List Tx) → Keeps {F = F} (insert_txs txs)
  unfolding insert_txs
  insert_txs-Keeps [] = same-Keeps (λ _. ok tt)
  insert_txs-Keeps (tx ∷ txs) =
      >>=-Keeps _ _
        (if-Keeps (λ c. has_tx c.inv (tx_hash tx)) (λ c. (c, ok tt)) (accept_tx tx)
          (same-Keeps (λ _. ok tt)) (accept_tx-Keeps tx))
        (λ _. insert_txs-Keeps txs)

  insert_merkles-Keeps : (nodes : List MerkleNode) → Keeps {F = F} (insert_merkles nodes)
  unfolding insert_merkles
  insert_merkles-Keeps [] = same-Keeps (λ _. ok tt)
  insert_merkles-Keeps (node ∷ nodes) =
      >>=-Keeps _ _ (same-Keeps _)
        (λ inv. >>=-Keeps _ _ (inv-Keeps inv) (λ _. insert_merkles-Keeps nodes))

  insert_blocks-Keeps : (now : ℕ) (bs : List Block) → Keeps {F = F} (insert_blocks now bs)
  unfolding insert_blocks
  insert_blocks-Keeps now [] = same-Keeps (λ _. ok tt)
  insert_blocks-Keeps now (b ∷ bs) =
      >>=-Keeps _ _ (same-Keeps _)
        (λ inv. >>=-Keeps _ _ (inv-Keeps inv) (λ _. insert_blocks-Keeps now bs))

  pub insert_all-Keeps :
      ⦃ecdsa : Ecdsa⦄ (now : ℕ) (event : CandidateHead) → Keeps {F = F} (insert_all now event)
  unfolding insert_all
  insert_all-Keeps now event = >>=-Keeps _ _ (insert_txs-Keeps event.txs) (λ _.
      >>=-Keeps _ _ (insert_merkles-Keeps event.merkles)
        (λ _. insert_blocks-Keeps now event.blocks))
