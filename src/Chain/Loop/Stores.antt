-- ===== src/Chain/Loop/Stores.antt =====
-- The loops of `handleCandidateHead` in internal/chain/chain.go that store what an event brings.
use mathlib.Core.Path.{subst}
use basiccoin.Base.{
  ℕ, ◌+◌, ◌≤◌, ◌≡◌, sym, ◌∙◌, ap, Bool, true, false, List, [], ◌∷◌, All, length, arith,
  if◌then◌else◌,
}
use basiccoin.Base.Result.{Result, ok, ok-injective}
use basiccoin.Chain.Keeps.{and_then-holds, add_mempool_tx-SameLedger}
use basiccoin.Chain.Handlers.{
  Chain, CandidateHead, Handler, and_then, accept_tx, insert_txs, insert_merkles, insert_blocks,
  insert_all,
}
use basiccoin.Chain.Loop.Sound.{IsSound, Grows, less_room, set_inv-IsSound, SameLedger-IsSound}
use basiccoin.Chain.Loop.Growth.{store_tx-Grows, store_merkle-Grows, store_block-Grows}
use basiccoin.Chain.State.Index.Moves.{IsKeyed}
use basiccoin.Chain.State.{State, add_mempool_tx}
use basiccoin.Core.Block.{Block, MerkleNode, block_hash, merkle_hash}
use basiccoin.Core.Crypto.{Ecdsa}
use basiccoin.Core.Tx.{Tx, FloatOps, tx_hash}
use basiccoin.Hash.{IsHash, hash_eq}
use basiccoin.Hash.Digest.{Sha256}
use basiccoin.Inv.{Inv, has_block, has_merkle, has_tx, get_tx, store_tx, store_merkle, store_block}
use basiccoin.Inv.Invariant.{IsValid}

module _ (F : Type 0) ⦃float : FloatOps F⦄ ⦃sha : Sha256⦄ (room : ℕ) where
  pub accept_tx-IsSound :
      ⦃ecdsa : Ecdsa⦄ (tx : Tx) (c : Chain F) → IsSound room c → IsSound room (accept_tx tx c).0
  unfolding accept_tx
  accept_tx-IsSound tx c s =
      let put : State F → Handler F (Unit {0}) = λ t d. (record d { state = t }, ok tt) in
      let add : Inv → Handler F (Unit {0}) =
        λ inv d. and_then put (record d { inv = inv }) (add_mempool_tx inv (tx_hash tx) d.state) in
      and_then-holds (IsSound room) add c (store_tx c.inv tx) s (λ inv stored.
        let s' : IsSound room (record c { inv = inv }) =
          set_inv-IsSound 0 room room c inv (omega arith) s
            (store_tx-Grows c.inv tx inv s.valid s.keyed stored) in
        and_then-holds (IsSound room) put (record c { inv = inv })
          (add_mempool_tx inv (tx_hash tx) c.state) s'
          (λ t added.
            SameLedger-IsSound room (record c { inv = inv }) t s'
              (add_mempool_tx-SameLedger inv (tx_hash tx) c.state t added)))

  insert_txs-IsSound :
      ⦃ecdsa : Ecdsa⦄ (txs : List Tx) (c : Chain F)
      → IsSound room c
      → IsSound room (insert_txs txs c).0
  unfolding insert_txs
  insert_txs-IsSound [] c s = s
  insert_txs-IsSound (tx ∷ txs) c s =
      let first : Chain F × Result (Unit {0}) =
        if has_tx c.inv (tx_hash tx) then (c, ok tt) else accept_tx tx c in
      and_then-holds (IsSound room) (λ _. insert_txs txs) first.0 first.1
        (stored (has_tx c.inv (tx_hash tx)))
        (λ _ _. insert_txs-IsSound txs first.0 (stored (has_tx c.inv (tx_hash tx))))
    where
      stored : (b : Bool) → IsSound room (if b then (c, ok tt) else accept_tx tx c).0
      stored true = s
      stored false = accept_tx-IsSound tx c s

  unless_known :
      (known : Bool) (c : Chain F) (r : Result Inv) (n before : ℕ)
      → room + n ≤ before
      → IsSound before c
      → ((inv : Inv) → r ≡ ok inv → Grows n c.inv inv)
      → (inv : Inv) → (if known then ok c.inv else r) ≡ ok inv
      → IsSound room (record c { inv = inv })
  unless_known true c r n before le s grows inv e =
      let same : c.inv ≡ inv = ok-injective c.inv inv e in
      set_inv-IsSound n before room c inv le s (record {
        valid = subst IsValid same s.valid;
        blocks = omega (arith, ap (λ (i : Inv). length i.blocks) same);
        kept = λ id h. ap (λ (i : Inv). has_block i id) (sym same) ∙ h;
        keyed = subst IsKeyed same s.keyed;
        txs_kept = λ id tx h. ap (λ (i : Inv). get_tx i id) (sym same) ∙ h;
      })
  unless_known false c r n before le s grows inv e =
      set_inv-IsSound n before room c inv le s (grows inv e)

  insert_merkles-IsSound :
      (nodes : List MerkleNode) (c : Chain F)
      → IsSound room c
      → IsSound room (insert_merkles nodes c).0
  unfolding insert_merkles
  insert_merkles-IsSound [] c s = s
  insert_merkles-IsSound (node ∷ nodes) c s =
      let rest : Inv → Handler F (Unit {0}) =
        λ inv d. insert_merkles nodes (record d { inv = inv }) in
      and_then-holds (IsSound room) rest c
        (if has_merkle c.inv (merkle_hash node) then ok c.inv else store_merkle c.inv node) s
        (λ inv e.
          insert_merkles-IsSound nodes (record c { inv = inv })
            (unless_known (has_merkle c.inv (merkle_hash node)) c (store_merkle c.inv node) 0 room
              (omega arith) s
              (λ inv' stored. store_merkle-Grows c.inv node inv' s.valid s.keyed stored) inv e))

abbrev pub HasTarget : Block → Type 0
HasTarget b = IsHash b.target

module _ (F : Type 0) ⦃float : FloatOps F⦄ ⦃sha : Sha256⦄ where
  insert_blocks-IsSound :
      (now : ℕ) (bs : List Block) (room : ℕ) (c : Chain F)
      → All HasTarget bs
      → IsSound (length bs + room) c
      → IsSound room (insert_blocks now bs c).0
  unfolding insert_blocks
  insert_blocks-IsSound now [] room c targets s = less_room (0 + room) room c (omega arith) s
  insert_blocks-IsSound now (b ∷ bs) room c targets s =
      let rest : Inv → Handler F (Unit {0}) =
        λ inv d. insert_blocks now bs (record d { inv = inv }) in
      and_then-holds (IsSound room) rest c
        (if has_block c.inv (block_hash b) then ok c.inv else store_block now c.inv b)
        (less_room (length (b ∷ bs) + room) room c (omega arith) s)
        (λ inv e.
          insert_blocks-IsSound now bs room (record c { inv = inv }) targets.1
            (unless_known F (length bs + room) (has_block c.inv (block_hash b)) c
              (store_block now c.inv b) 1 (length (b ∷ bs) + room) (omega arith) s
              (λ inv' stored.
                store_block-Grows now c.inv b inv' s.valid s.keyed targets.0 (omega (arith, s.fits))
                  stored)
              inv e))

  pub insert_all-IsSound :
      ⦃ecdsa : Ecdsa⦄ (now : ℕ) (event : CandidateHead) (room : ℕ) (c : Chain F)
      → All HasTarget event.blocks
      → IsSound (length event.blocks + room) c
      → IsSound room (insert_all now event c).0
  unfolding insert_all
  insert_all-IsSound now event room c targets s =
      let n : ℕ = length event.blocks + room in
      let c₁ : Chain F = (insert_txs event.txs c).0 in
      let s₁ : IsSound n c₁ = insert_txs-IsSound F n event.txs c s in
      let c₂ : Chain F = (insert_merkles event.merkles c₁).0 in
      let s₂ : IsSound n c₂ = insert_merkles-IsSound F n event.merkles c₁ s₁ in
      let less : (d : Chain F) → IsSound n d → IsSound room d =
        λ d. less_room n room d (omega arith) in
      and_then-holds (IsSound room)
        (λ _ d.
          and_then (λ _. insert_blocks now event.blocks) (insert_merkles event.merkles d).0
            (insert_merkles event.merkles d).1)
        c₁ (insert_txs event.txs c).1 (less c₁ s₁)
        (λ _ _.
          and_then-holds (IsSound room) (λ _. insert_blocks now event.blocks) c₂
            (insert_merkles event.merkles c₁).1 (less c₂ s₂)
            (λ _ _. insert_blocks-IsSound now event.blocks room c₂ targets s₂))
