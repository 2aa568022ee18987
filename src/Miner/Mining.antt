-- ===== src/Miner/Mining.antt =====
-- `mine` of internal/miner/miner.go.
use mathlib.Core.Path.{subst}
use mathlib.Core.List.{append_assoc, append-nil}
use basiccoin.Base.{
  ℕ, zero, suc, ◌+◌, ◌^◌, ◌<◌, ◌≡◌, refl, ap, sym, ◌∙◌, true, false, some, List, [], ◌∷◌, ◌++◌,
  arith, inl, inr, All, All-append, Bool-cases, if◌then◌else◌,
}
use basiccoin.Base.Eq.{nat_eq}
use basiccoin.Base.Result.{ok}
use basiccoin.Chain.Handlers.{CandidateHead}
use basiccoin.Core.Block.{Block, MerkleNode, block_hash}
use basiccoin.Core.Tx.{Tx}
use basiccoin.Hash.{HashT, lt}
use basiccoin.Hash.Digest.{Sha256}
use basiccoin.Miner.{Miner, solution, publish_solution, next_try, mine_round, mine}

module _ ⦃sha : Sha256⦄ where
  -- One block, whose hash is the event's head and beats its target.
  abbrev pub IsSolved : CandidateHead → Type 0
  IsSolved e =
      (b : Block) × (e.blocks ≡ b ∷ [])
      × (e.head ≡ block_hash b)
      × (lt (block_hash b) b.target ≡ true)

  -- What one round publishes.
  tried : Block → Tx → List MerkleNode → List CandidateHead
  tried b coinbase merkles =
      if lt (block_hash b) b.target then solution b coinbase merkles ∷ [] else []

  tried-IsSolved :
      (b : Block) (coinbase : Tx) (merkles : List MerkleNode)
      → All IsSolved (tried b coinbase merkles)
  unfolding tried solution
  tried-IsSolved b coinbase merkles = elim (Bool-cases (lt (block_hash b) b.target)) [
    | inl beats ↦ rw beats ((b, refl, refl, beats), tt)
    | inr misses ↦ rw misses tt
  ]

  after_round : (ℕ → HashT) → Miner → Block → Tx → Miner
  after_round random m b coinbase = record m {
    template = some (next_try random b m.draws).0;
    draws = (next_try random b m.draws).1;
    published = m.published ++ tried b coinbase m.out_merkles;
  }

  mine_round_lem :
      (random : ℕ → HashT) (m : Miner) (b : Block) (coinbase : Tx)
      → m.template ≡ some b
      → m.out_coinbase ≡ some coinbase
      → mine_round random m ≡ ok (after_round random m b coinbase)
  unfolding mine_round publish_solution after_round tried
  mine_round_lem random m b coinbase e c = elim (Bool-cases (lt (block_hash b) b.target)) [
    | inl beats ↦ simp (e, c, beats)
    | inr misses ↦ simp (e, misses, append-nil)
  ]

  -- When the miner has a block and a coinbase, `mine` returns, keeps what was published, and each
  -- event that it adds has one block, whose hash is the event's head and beats the block's
  -- target.
  pub mine-IsSolved :
      (random : ℕ → HashT) (rounds : ℕ) (m : Miner) (b : Block) (coinbase : Tx)
      → m.template ≡ some b
      → m.out_coinbase ≡ some coinbase
      → (m' : Miner) × (found : List CandidateHead) × (mine random rounds m ≡ ok m')
        × (m'.published ≡ m.published ++ found)
        × All IsSolved found
  unfolding mine after_round
  mine-IsSolved random zero m b coinbase e c = (m, [], refl, sym (append-nil m.published), tt)
  mine-IsSolved random (suc rounds) m b coinbase e c =
      let next : Miner = after_round random m b coinbase in
      let (m', found, done, grown, solved) =
        mine-IsSolved random rounds next (next_try random b m.draws).0 coinbase refl c in
      let here : List CandidateHead = tried b coinbase m.out_merkles in
      (
        m',
        here ++ found,
        rw (mine_round_lem random m b coinbase e c) done,
        grown ∙ append_assoc m.published here found,
        All-append IsSolved here found (tried-IsSolved b coinbase m.out_merkles) solved,
      )

  next_try_lem :
      (random : ℕ → HashT) (b : Block) (draws : ℕ)
      → b.nonce + 1 < 2 ^ 64
      → next_try random b draws ≡ (record b { nonce = b.nonce + 1 }, draws)
  unfolding next_try
  next_try_lem random b draws more = ground arith

  tried-beats :
      (b : Block) (coinbase : Tx) (merkles : List MerkleNode)
      → lt (block_hash b) b.target ≡ true
      → tried b coinbase merkles ≡ solution b coinbase merkles ∷ []
  unfolding tried
  tried-beats b coinbase merkles beats = rw beats refl

  -- When the block that the miner works on would beat its target with a nonce that is k more,
  -- below 2^64, `mine` with more than k rounds returns, and has published one candidate for our
  -- head: the hash of that block, the block alone, the miner's merkle nodes and its coinbase as
  -- the only transaction.
  pub mine-finds :
      (random : ℕ → HashT) (rounds k : ℕ) (m : Miner) (b : Block) (coinbase : Tx)
      → m.template ≡ some b
      → m.out_coinbase ≡ some coinbase
      → k < rounds
      → b.nonce + k < 2 ^ 64
      → let winner : Block = record b { nonce = b.nonce + k } in
        lt (block_hash winner) winner.target ≡ true
        → (m' : Miner) × (before after : List CandidateHead) × (mine random rounds m ≡ ok m')
          × (m'.published
              ≡ before
                ++ record {
                  head = block_hash winner;
                  blocks = winner ∷ [];
                  merkles = m.out_merkles;
                  txs = coinbase ∷ [];
                  auto_add_mempool_insecure = false;
                }
                  ∷ after)
  unfolding mine after_round solution
  mine-finds random zero k m b coinbase e c early fits beats = absurd (omega arith)
  mine-finds random (suc rounds) zero m b coinbase e c early fits beats =
      let winner : Block = record b { nonce = b.nonce + 0 } in
      let same : b ≡ winner = ap (λ (n : ℕ). record b { nonce = n }) (omega arith) in
      let next : Miner = after_round random m b coinbase in
      let (m', found, done, grown, _) =
        mine-IsSolved random rounds next (next_try random b m.draws).0 coinbase refl c in
      let here : tried b coinbase m.out_merkles ≡ solution winner coinbase m.out_merkles ∷ [] =
        ap (λ (x : Block). tried x coinbase m.out_merkles) same
        ∙ tried-beats winner coinbase m.out_merkles beats in
      (
        m',
        m.published,
        found,
        rw (mine_round_lem random m b coinbase e c) done,
        grown
            ∙ append_assoc m.published (tried b coinbase m.out_merkles) found
            ∙ ap (λ (l : List CandidateHead). m.published ++ (l ++ found)) here,
      )
  mine-finds random (suc rounds) (suc k) m b coinbase e c early fits beats =
      let next : Miner = after_round random m b coinbase in
      let b' : Block = record b { nonce = b.nonce + 1 } in
      let same : record b { nonce = b.nonce + suc k } ≡ record b' { nonce = b'.nonce + k } =
        ap (λ (n : ℕ). record b { nonce = n }) (omega arith) in
      let stepped = next_try_lem random b m.draws (omega arith) in
      let (m', before, after, done, grown) =
        mine-finds random rounds k next b' coinbase (ap (λ (r : Block × ℕ). some r.0) stepped) c
          (omega arith) (omega arith)
          (subst (λ (x : Block). lt (block_hash x) x.target ≡ true) same beats) in
      (
        m',
        before,
        after,
        rw (mine_round_lem random m b coinbase e c) done,
        grown
            ∙ ap (λ (x : Block). before ++ (solution x coinbase m.out_merkles ∷ after)) (sym same),
      )
