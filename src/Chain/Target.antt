-- ===== src/Chain/Target.antt =====
-- internal/chain/target.go, and the sorted mempool of internal/chain/state.go.
pub mod Accepted
pub mod Fits
use basiccoin.Base.{
  ℕ, Bool, true, false, ◌||◌, Option, none, some, List, [], ◌∷◌, ◌++◌, if◌then◌else◌, ltb,
}
use basiccoin.Base.Result.{Result, ok, err, panic, out_of_fuel, ◌>>=◌}
use basiccoin.Base.Word.{add64, sub64}
use basiccoin.Base.Sort.{sort}
use basiccoin.Collections.Map as Map
use basiccoin.Collections.Set as Set
use basiccoin.Chain.State.{State, verify_tx_includable}
use basiccoin.Core.Block.{coinbase_vsize, min_non_coinbase_vsize}
use basiccoin.Core.Difficulty.{InvTargeter, next_target}
use basiccoin.Core.Tx.{Utxo, Tx, FloatOps, utxo_eq, vsize, has_surplus, get_consumed_utxos}
use basiccoin.Hash.{HashT, hash_eq}
use basiccoin.Inv.{Inv, get_tx, get_block, get_block_height, get_block_specific_ancestor}

-- Whether an error was returned; a panic stays one.
unfoldable pub succeeds {ℓ} : {A : Type ℓ} → Result A → Result Bool
succeeds (ok a) = ok true
succeeds (err e) = ok false
succeeds panic = panic
succeeds out_of_fuel = out_of_fuel

module _ {F : Type 0} ⦃float : FloatOps F⦄ where
  -- The filter of `GetSortedIncludableMempool`.
  unfoldable pub is_candidate : Inv → State F → HashT → Result Bool
  is_candidate inv s tx_id = do
    includable ← succeeds (verify_tx_includable inv tx_id false s)
    if includable then (do tx ← get_tx inv tx_id; ok (has_surplus tx)) else ok false

  unfoldable pub filter_candidates : Inv → State F → List HashT → Result (List HashT)
  filter_candidates inv s [] = ok []
  filter_candidates inv s (tx_id ∷ tx_ids) = do
    keep ← is_candidate inv s tx_id
    rest ← filter_candidates inv s tx_ids
    ok (if keep then tx_id ∷ rest else rest)

  -- A missing rate reads as 0.
  abbrev pub rate_of : State F → HashT → F
  rate_of s tx_id = elim (Map.lookup tx_id s.mempool_rates) [
    | none ↦ float.of_uint64 0
    | some r ↦ r
  ]

  unfoldable pub get_sorted_includable_mempool : Inv → State F → Result (List HashT)
  get_sorted_includable_mempool inv s = do
    mem ← filter_candidates inv s (Set.to_list s.mempool)
    ok (sort (λ a b. float.gt (rate_of s a) (rate_of s b)) mem)

-- What the loop of `CreateMiningTarget` has gathered.
pub record Selection : Type 0 where
  pub total_size : ℕ
  pub consumed_utxos : Set.Set Utxo
  pub tx_ids : List HashT

abbrev pub start_selection : Selection
start_selection = record { total_size = coinbase_vsize; consumed_utxos = []; tx_ids = [] }

unfoldable pub include : HashT → Tx → Selection → Selection
include tx_id tx sel = record sel {
  total_size = add64 sel.total_size (vsize tx);
  consumed_utxos = Set.add_all (get_consumed_utxos tx) sel.consumed_utxos;
  tx_ids = sel.tx_ids ++ tx_id ∷ [];
}

-- Whether a candidate is passed over: too big for the room left, or in conflict with one chosen.
unfoldable pub skips : ℕ → Tx → Selection → Bool
skips max_block_vsize tx sel =
    ltb max_block_vsize (add64 sel.total_size (vsize tx))
    || Set.includes_any (get_consumed_utxos tx) sel.consumed_utxos

unfoldable pub select_txs : Inv → List HashT → Selection → Result Selection
select_txs inv [] sel = ok sel
select_txs inv (tx_id ∷ rest) sel = do
  tx ← get_tx inv tx_id
  elim (skips inv.core_params.max_block_vsize tx sel) [
    | true ↦ select_txs inv rest sel
    | false ↦
        elim (ltb (sub64 inv.core_params.max_block_vsize min_non_coinbase_vsize)
          (include tx_id tx sel).total_size) [
            | true ↦ ok (include tx_id tx sel)
            | false ↦ select_txs inv rest (include tx_id tx sel)
          ]
  ]

pub record MinerTarget : Type 0 where
  pub head : HashT
  pub target : HashT
  pub tx_ids : List HashT

abbrev pub targeter_view : Inv → InvTargeter
targeter_view inv = record {
  get_block = get_block inv;
  get_block_height = get_block_height inv;
  get_block_specific_ancestor = get_block_specific_ancestor inv;
}

unfoldable pub create_mining_target :
    {F : Type 0} ⦃float : FloatOps F⦄ → Inv → State F → Result MinerTarget
create_mining_target inv s = do
  candidate_tx_ids ← get_sorted_includable_mempool inv s
  sel ← select_txs inv candidate_tx_ids start_selection
  target ← next_target inv.core_params (targeter_view inv) s.head
  ok (record { head = s.head; target = target; tx_ids = sel.tx_ids })
