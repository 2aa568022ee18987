-- ===== src/Chain/Handlers.antt =====
-- The handlers of internal/chain/chain.go. The goroutine owns the state, and is the only writer
-- of the inventory. What a handler wrote before an error stays written, so it returns the chain
-- with its outcome.
use basiccoin.Base.{ℕ, Bool, Option, List, [], ◌∷◌, ◌++◌, if◌then◌else◌}
use basiccoin.Base.Result.{Result, ok, err, panic, out_of_fuel, head_unknown, less_work}
use basiccoin.Base.Result as Result
use basiccoin.Chain.SavedHead.{HeadFile, save_head}
use basiccoin.Chain.State.{State, add_mempool_tx, rewind_until, advance, new_state}
use basiccoin.Chain.Target.{MinerTarget, create_mining_target}
use basiccoin.Core.Block.{Block, MerkleNode, block_hash, merkle_hash}
use basiccoin.Core.Crypto.{Ecdsa}
use basiccoin.Core.Tx.{Tx, FloatOps, tx_hash}
use basiccoin.Hash.{HashT, hash_eq, lt}
use basiccoin.Hash.Digest.{Sha256}
use basiccoin.Inv.{
  Inv, store_tx, store_merkle, store_block, has_tx, has_merkle, has_block, get_block_total_work,
  get_block_lca, get_block_ancestors_until,
}

pub data Event : Type 0 where
  validated_head : HashT → Event
  validated_tx : HashT → Event
  miner_target : MinerTarget → Event

pub record Chain (F : Type 0) : Type 0 where
  pub inv : Inv
  pub state : State F
  pub support_miners : Bool
  pub save_dir : Option HeadFile
  -- What was published on the bus, in order.
  pub published : List Event

pub record CandidateHead : Type 0 where
  pub head : HashT
  pub blocks : List Block
  pub merkles : List MerkleNode
  pub txs : List Tx
  pub auto_add_mempool_insecure : Bool

abbrev pub Handler : Type 0 → Type 0 → Type 0
Handler F A = Chain F → Chain F × Result A

abbrev pub and_then : {F A B : Type 0} → (A → Handler F B) → Chain F → Result A → Chain F × Result B
and_then f c (ok a) = f a c
and_then f c (err e) = (c, err e)
and_then f c panic = (c, panic)
and_then f c out_of_fuel = (c, out_of_fuel)

infixl 5 ◌>>=◌ ◌>>◌
abbrev pub ◌>>=◌ : {F A B : Type 0} → Handler F A → (A → Handler F B) → Handler F B
◌>>=◌ m f c = and_then f (m c).0 (m c).1

abbrev pub ◌>>◌ : {F B : Type 0} → Handler F (Unit {0}) → Handler F B → Handler F B
m >> k = m >>= λ _. k

unfoldable pub has_more_work : Inv → HashT → HashT → Result Bool
has_more_work inv head cur_head = Result.◌>>=◌ (get_block_total_work inv head) (λ new_work.
    Result.◌>>=◌ (get_block_total_work inv cur_head) (λ cur_work. ok (lt cur_work new_work)))

module _ {F : Type 0} where
  -- A computation that reads the chain.
  abbrev pub reads : {A : Type 0} → (Chain F → Result A) → Handler F A
  reads f c = (c, f c)

  abbrev pub modify : (Chain F → Chain F) → Handler F (Unit {0})
  modify f c = (f c, ok tt)

  abbrev pub guard : Bool → Result.Error → Handler F (Unit {0})
  guard b e c = (c, Result.guard b e)

  abbrev pub publish : Event → Handler F (Unit {0})
  publish e = modify (λ c. record c { published = c.published ++ e ∷ [] })

  -- Advance through the blocks, from the last one listed to the first.
  unfoldable pub advance_all :
      ⦃float : FloatOps F⦄ ⦃sha : Sha256⦄ → Inv → Bool → List HashT → State F → Result (State F)
  advance_all inv auto [] s = ok s
  advance_all inv auto (id ∷ ids) s =
      Result.◌>>=◌ (advance_all inv auto ids s) (advance inv id auto)

  module _ ⦃float : FloatOps F⦄ where
    unfoldable pub retarget : Handler F (Unit {0})
    retarget c =
        if c.support_miners
        then (do
          target ← reads (λ c. create_mining_target c.inv c.state)
          publish (miner_target target))
            c
        else (c, ok tt)

    module _ ⦃sha : Sha256⦄ where
      -- Store a transaction, and put it in the mempool.
      unfoldable pub accept_tx : ⦃ecdsa : Ecdsa⦄ → Tx → Handler F (Unit {0})
      accept_tx tx = do
        inv ← reads (λ c. store_tx c.inv tx)
        modify (λ c. record c { inv = inv })
        state ← reads (λ c. add_mempool_tx c.inv (tx_hash tx) c.state)
        modify (λ c. record c { state = state })

      unfoldable pub insert_txs : ⦃ecdsa : Ecdsa⦄ → List Tx → Handler F (Unit {0})
      insert_txs [] = modify (λ c. c)
      insert_txs (tx ∷ txs) = do
        (λ c. if has_tx c.inv (tx_hash tx) then (c, ok tt) else accept_tx tx c)
        insert_txs txs

      unfoldable pub insert_merkles : List MerkleNode → Handler F (Unit {0})
      insert_merkles [] = modify (λ c. c)
      insert_merkles (node ∷ nodes) = do
        inv ←
            reads (λ c.
              if has_merkle c.inv (merkle_hash node) then ok c.inv else store_merkle c.inv node)
        modify (λ c. record c { inv = inv })
        insert_merkles nodes

      unfoldable pub insert_blocks : ℕ → List Block → Handler F (Unit {0})
      insert_blocks now [] = modify (λ c. c)
      insert_blocks now (b ∷ bs) = do
        inv ←
            reads
              (λ c. if has_block c.inv (block_hash b) then ok c.inv else store_block now c.inv b)
        modify (λ c. record c { inv = inv })
        insert_blocks now bs

      -- The new state on the way from the old head to the candidate.
      unfoldable pub reorganise : Inv → State F → HashT → Bool → Result (State F)
      reorganise inv s head auto = Result.◌>>=◌ (get_block_lca inv s.head head) (λ lca_id.
          Result.◌>>=◌ (rewind_until inv lca_id s) (λ rewound.
            Result.◌>>=◌ (get_block_ancestors_until inv head lca_id)
              (λ new_blocks. advance_all inv auto (head ∷ new_blocks) rewound)))

      -- The loops of `handleCandidateHead` that store what the event brings.
      unfoldable pub insert_all : ⦃ecdsa : Ecdsa⦄ → ℕ → CandidateHead → Handler F (Unit {0})
      insert_all now event = do
        insert_txs event.txs
        insert_merkles event.merkles
        insert_blocks now event.blocks

      -- The rest of `handleCandidateHead`.
      unfoldable pub switch_head : HashT → Bool → HashT → Handler F (Unit {0})
      switch_head head auto cur_head = do
        known ← reads (λ c. ok (has_block c.inv head))
        guard known head_unknown
        better ← reads (λ c. has_more_work c.inv head cur_head)
        guard better less_work
        new_state ← reads (λ c. reorganise c.inv c.state head auto)
        modify (λ c. record c { state = new_state })
        modify (λ c. record c { save_dir = save_head c.state.head c.save_dir })
        publish (validated_head head)
        retarget

      unfoldable pub handle_candidate_head :
          ⦃ecdsa : Ecdsa⦄ → ℕ → CandidateHead → Handler F (Unit {0})
      handle_candidate_head now event = do
        cur_head ← reads (λ c. ok c.state.head)
        insert_all now event
        switch_head event.head event.auto_add_mempool_insecure cur_head

      unfoldable pub handle_candidate_tx : ⦃ecdsa : Ecdsa⦄ → Tx → Handler F (Unit {0})
      handle_candidate_tx tx c =
          if has_tx c.inv (tx_hash tx)
          then (c, ok tt)
          else (do accept_tx tx; publish (validated_tx (tx_hash tx)); retarget) c
