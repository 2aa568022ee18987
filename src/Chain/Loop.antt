-- ===== src/Chain/Loop.antt =====
-- `NewChain` and `Loop` of internal/chain/chain.go. A turn is what the select takes from one of the
-- chain's subscriptions; its reply is what is written to the query's channel. An error of a handler
-- is printed, and the loop goes on; a panic ends it.
pub mod Sound
pub mod Growth
pub mod Stores
pub mod Reorganise
pub mod Invariant
pub mod Answers
pub mod Balances
pub mod Restart
use basiccoin.Base.{ℕ, Bool, true, Option, none, some, List, [], ◌∷◌}
use basiccoin.Base.Result.{Result, Error, ok, err, panic, out_of_fuel}
use basiccoin.Base.Result as Result
use basiccoin.Chain.Handlers.{
  Chain, CandidateHead, Handler, ◌>>=◌, ◌>>◌, and_then, reads, retarget, handle_candidate_head,
  handle_candidate_tx,
}
use basiccoin.Chain.Queries.{
  get_many_pkh_balances, get_many_pkh_utxos, get_rich_list, get_tx_confirms, get_tx_included_block,
}
use basiccoin.Chain.SavedHead.{HeadFile, load_head_from_file}
use basiccoin.Chain.State.{new_state}
use basiccoin.Collections.Map.{Map}
use basiccoin.Core.Crypto.{Ecdsa}
use basiccoin.Core.Tx.{Utxo, Tx, FloatOps}
use basiccoin.Hash.{HashT}
use basiccoin.Hash.Digest.{Sha256}
use basiccoin.Inv.{Inv, get_block_height}

-- The event that `NewChain` publishes, which the chain is subscribed to.
abbrev pub saved_candidate : Result HashT → Option CandidateHead
saved_candidate (ok head) =
    some (record {
      head = head;
      blocks = [];
      merkles = [];
      txs = [];
      auto_add_mempool_insecure = true;
    })
saved_candidate (err e) = none
saved_candidate panic = none
saved_candidate out_of_fuel = none

unfoldable pub new_chain :
    {F : Type 0} → Inv → Bool → Option HeadFile → Chain F × Option CandidateHead
new_chain inv support_miners save_dir = (
  record {
    inv = inv;
    state = new_state;
    support_miners = support_miners;
    save_dir = save_dir;
    published = [];
  },
  saved_candidate (load_head_from_file save_dir),
)

pub data Turn : Type 0 where
  -- With the clock's time.
  candidate_head : ℕ → CandidateHead → Turn
  candidate_tx : Tx → Turn
  print_update head_height : Turn
  pkh_balance : List HashT → Turn
  pkh_utxos : List HashT → Bool → Turn
  rich_list : ℕ → Turn
  tx_confirms tx_included_block : List HashT → Turn

pub data Reply : Type 0 where
  nothing : Reply
  outcome : Option Error → Reply
  printed_height height : ℕ → Reply
  balances confirms : Map HashT ℕ → Reply
  utxos : Map Utxo HashT → Reply
  included_blocks : Map HashT HashT → Reply

abbrev pub head_reply : Result (Unit {0}) → Result Reply
head_reply (ok a) = ok nothing
head_reply (err e) = ok nothing
head_reply panic = panic
head_reply out_of_fuel = out_of_fuel

abbrev pub tx_reply : Result (Unit {0}) → Result Reply
tx_reply (ok a) = ok (outcome none)
tx_reply (err e) = ok (outcome (some e))
tx_reply panic = panic
tx_reply out_of_fuel = out_of_fuel

module _ {F : Type 0} where
  unfoldable pub head_height_of : Chain F → Result ℕ
  head_height_of c = get_block_height c.inv c.state.head

  module _ ⦃float : FloatOps F⦄ ⦃sha : Sha256⦄ ⦃ecdsa : Ecdsa⦄ where
    unfoldable pub take_turn : Turn → Handler F Reply
    take_turn (candidate_head now event) c =
        ((handle_candidate_head now event c).0, head_reply (handle_candidate_head now event c).1)
    take_turn (candidate_tx tx) c =
        ((handle_candidate_tx tx c).0, tx_reply (handle_candidate_tx tx c).1)
    take_turn print_update c = (c, Result.◌>>=◌ (head_height_of c) (λ h. ok (printed_height h)))
    take_turn head_height c = (c, Result.◌>>=◌ (head_height_of c) (λ h. ok (height h)))
    take_turn (pkh_balance pkhs) c = (c, ok (balances (get_many_pkh_balances c.state pkhs)))
    take_turn (pkh_utxos pkhs exclude_mempool) c =
        (c, ok (utxos (get_many_pkh_utxos c.state pkhs exclude_mempool)))
    take_turn (rich_list max_len) c = (c, ok (balances (get_rich_list c.state max_len)))
    take_turn (tx_confirms tx_ids) c =
        (c, Result.◌>>=◌ (get_tx_confirms c.inv c.state tx_ids) (λ m. ok (confirms m)))
    take_turn (tx_included_block tx_ids) c =
        (c, ok (included_blocks (get_tx_included_block c.inv c.state tx_ids)))

    unfoldable pub turns : List Turn → Handler F (List Reply)
    turns [] = reads (λ c. ok [])
    turns (t ∷ ts) = do reply ← take_turn t; replies ← turns ts; reads (λ c. ok (reply ∷ replies))

    unfoldable pub loop : List Turn → Handler F (List Reply)
    loop ts = do retarget; turns ts
