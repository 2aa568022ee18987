-- ===== src/Miner.antt =====
-- internal/miner/miner.go: the block that a miner works on, and the search for its nonce. The
-- clock and the random source (`NewHashTRand`) are arguments; what is published is a list.
pub mod Coinbase
pub mod Mining
use basiccoin.Base.{
  ℕ, zero, suc, ◌-◌, ◌^◌, Bool, true, false, not, Option, none, some, List, [], ◌∷◌, ◌++◌, map,
  if◌then◌else◌,
}
use basiccoin.Base.Eq.{◌==◌, nat_eq}
use basiccoin.Base.Result.{Result, ok, panic, ◌>>=◌, ◌>>◌, assert, expect}
use basiccoin.Base.Word.{add64, sub64}
use basiccoin.Chain.Handlers.{CandidateHead}
use basiccoin.Collections.Map as Map
use basiccoin.Collections.Util.{prepend}
use basiccoin.Core.Block.{Block, MerkleNode, block_hash}
use basiccoin.Core.Block.Tree.{merkle_from_tx_ids}
use basiccoin.Core.Tx.{Tx, TxOut, has_surplus, inputs_value, outputs_value, tx_hash}
use basiccoin.Hash.{HashT, hash_eq, zero_hash, lt}
use basiccoin.Hash.Digest.{Sha256}
use basiccoin.Inv.{Inv, get_tx, get_block_height}

pub record Miner : Type 0 where
  pub payout_pkh : HashT
  pub template : Option Block
  pub out_coinbase : Option Tx
  pub out_merkles : List MerkleNode
  -- How often the random source was read, and what was published on the bus, in order.
  pub draws : ℕ
  pub published : List CandidateHead

unfoldable pub new_miner : HashT → Miner
new_miner payout_pkh = record {
  payout_pkh = payout_pkh;
  template = none;
  out_coinbase = none;
  out_merkles = [];
  draws = 0;
  published = [];
}

-- The loop that sums the fees. A transaction without a surplus is a panic.
unfoldable pub sum_fees : Inv → List HashT → ℕ → Result ℕ
sum_fees inv [] total = ok total
sum_fees inv (tx_id ∷ tx_ids) total = do
  tx ← get_tx inv tx_id
  assert (has_surplus tx)
  sum_fees inv tx_ids (add64 total (sub64 (inputs_value tx) (outputs_value tx)))

unfoldable pub make_coinbase : HashT → ℕ → ℕ → Tx
make_coinbase payout_pkh min_block value = record {
  is_coinbase = true;
  min_block = min_block;
  inputs = [];
  outputs = record { value = value; public_key_hash = payout_pkh } ∷ [];
}

-- `merkleMap[merkleId]`, which is the zero node for a key that is not there.
unfoldable pub node_or_zero : Map.Map HashT MerkleNode → HashT → MerkleNode
node_or_zero merkles id = elim (Map.lookup id merkles) [
  | none ↦ record { l_child = zero_hash; r_child = zero_hash }
  | some node ↦ node
]

unfoldable pub last_of : List HashT → Result HashT
last_of [] = panic
last_of (id ∷ []) = ok id
last_of (id ∷ next ∷ ids) = last_of (next ∷ ids)

module _ ⦃sha : Sha256⦄ where
  -- `now` is the Unix time, and `random` gives the draws of the random source.
  unfoldable pub update_template :
      Inv → (ℕ → HashT) → ℕ → HashT → HashT → List HashT → Miner → Result Miner
  update_template inv random now head target tx_ids m = do
    total_fees ← sum_fees inv tx_ids 0
    height ← get_block_height inv head
    let coinbase : Tx =
        make_coinbase m.payout_pkh (add64 height 1) (add64 total_fees inv.core_params.block_reward)
    (merkle_map, merkle_ids) ← merkle_from_tx_ids (prepend tx_ids (tx_hash coinbase ∷ []))
    merkle_root ← last_of merkle_ids
    ok (record m {
      template = some (record {
        prev_block_id = head;
        merkle_root = merkle_root;
        target = target;
        noise = random m.draws;
        nonce = 0;
        mined_time = now;
      });
      out_coinbase = some coinbase;
      out_merkles = map (node_or_zero merkle_map) merkle_ids;
      draws = suc m.draws;
    })

  unfoldable pub solution : Block → Tx → List MerkleNode → CandidateHead
  solution template coinbase merkles = record {
    head = block_hash template;
    blocks = template ∷ [];
    merkles = merkles;
    txs = coinbase ∷ [];
    auto_add_mempool_insecure = false;
  }

  -- A nil template or coinbase is a nil pointer that is read.
  unfoldable pub publish_solution : Miner → Result Miner
  publish_solution m = do
    template ← expect m.template
    coinbase ← expect m.out_coinbase
    ok (record m { published = m.published ++ (solution template coinbase m.out_merkles ∷ []) })

  -- The next nonce, or new noise when the nonces run out.
  unfoldable pub next_try : (ℕ → HashT) → Block → ℕ → Block × ℕ
  next_try random template draws =
      if template.nonce == 2 ^ 64 - 1
      then (record template { noise = random draws; nonce = 0 }, suc draws)
      else (record template { nonce = add64 template.nonce 1 }, draws)

  -- One round of `mine`.
  unfoldable pub mine_round : (ℕ → HashT) → Miner → Result Miner
  mine_round random m = do
    template ← expect m.template
    m' ← if lt (block_hash template) template.target then publish_solution m else ok m
    let (next, draws) = next_try random template m'.draws
    ok (record m' { template = some next; draws = draws })

  unfoldable pub mine : (ℕ → HashT) → ℕ → Miner → Result Miner
  mine random zero m = ok m
  mine random (suc rounds) m = do m' ← mine_round random m; mine random rounds m'
