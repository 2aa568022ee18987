-- ===== src/Chain/Loop/Answers.antt =====
-- The queries of internal/chain/chain.go.
use basiccoin.Base.{
  ℕ, ◌+◌, ◌^◌, ◌<◌, ◌≡◌, refl, Bool, true, Option, List, [], ◌∷◌, All, length, inl, inr, Bool-cases,
  Option-cases,
}
use basiccoin.Base.Result.{ok}
use basiccoin.Base.Word.{add64, sub64}
use basiccoin.Chain.Handlers.{Chain}
use basiccoin.Chain.Loop.{
  Turn, candidate_head, candidate_tx, print_update, head_height, pkh_balance, pkh_utxos, rich_list,
  tx_confirms, tx_included_block, take_turn, loop, new_chain, Reply, head_height_of, printed_height,
  height, balances, utxos, confirms, included_blocks,
}
use basiccoin.Chain.Loop.Sound.{IsSound}
use basiccoin.Chain.Loop.Invariant.{blocks_in, HasTargets, loop-IsSound}
use basiccoin.Chain.Queries as Queries
use basiccoin.Chain.Queries.{tx_confirms_from, get_tx_confirms}
use basiccoin.Chain.State.Index.Moves.{IsKeyed}
use basiccoin.Chain.SavedHead.{HeadFile}
use basiccoin.Collections.Map as Map
use basiccoin.Collections.Map.{Map, lookup_of_has}
use basiccoin.Core.Crypto.{Ecdsa}
use basiccoin.Core.Tx.{FloatOps}
use basiccoin.Hash.{HashT, hash_eq}
use basiccoin.Hash.Digest.{Sha256}
use basiccoin.Inv.{Inv, has_block, has_tx, get_block_height}
use basiccoin.Inv.Invariant.{IsValid}
use basiccoin.Inv.Reads.{get_block_height_lem}

-- The turns that only ask.
abbrev pub IsQuery : Turn → Type 0
IsQuery (candidate_head now event) = ⊥
IsQuery (candidate_tx tx) = ⊥
IsQuery _ = Unit

stored_height :
    (inv : Inv) (id : HashT) → has_block inv id ≡ true → (h : ℕ) × (get_block_height inv id ≡ ok h)
unfolding has_block
stored_height inv id stored =
    let (r, found) = lookup_of_has id inv.blocks stored in
    (r.height, get_block_height_lem inv id found)

module _ {F : Type 0} ⦃sha : Sha256⦄ (room : ℕ) (c : Chain F) (s : IsSound room c) where
  confirms_of : (tx_id : HashT) → (n : ℕ) × (Queries.tx_confirms c.inv c.state tx_id ≡ ok n)
  unfolding Queries.tx_confirms
  confirms_of tx_id = elim (Option-cases (Map.lookup tx_id c.state.included_tx_blocks)) [
    | inl out ↦ (0, rw (out, Queries.tx_confirms) refl)
    | inr (block_id, found) ↦
        let (top, at_top) = stored_height c.inv c.state.head s.head_stored in
        let (low, at_low) = stored_height c.inv block_id (s.included tx_id block_id found) in
        (add64 (sub64 top low) 1, rw (found, at_top, at_low, Queries.tx_confirms) refl)
  ]

  confirms_from :
      (tx_ids : List HashT) (out : Map HashT ℕ)
      → (m : Map HashT ℕ) × (tx_confirms_from c.inv c.state tx_ids out ≡ ok m)
  unfolding tx_confirms_from
  confirms_from [] out = (out, refl)
  confirms_from (tx_id ∷ tx_ids) out = elim (Bool-cases (has_tx c.inv tx_id)) [
    | inl known ↦
        let (n, counted) = confirms_of tx_id in
        let (m, done) = confirms_from tx_ids (Map.insert tx_id n out) in
        (m, rw (known, counted, done) refl)
    | inr unknown ↦ let (m, done) = confirms_from tx_ids out in (m, rw (unknown, done) refl)
  ]

  module _ ⦃float : FloatOps F⦄ ⦃ecdsa : Ecdsa⦄ where
    query_answered : (t : Turn) → IsQuery t → (r : Reply) × (take_turn t c ≡ (c, ok r))
    unfolding take_turn head_height_of get_tx_confirms
    query_answered (candidate_head now event) q = absurd q
    query_answered (candidate_tx tx) q = absurd q
    query_answered print_update q =
        let (h, at) = stored_height c.inv c.state.head s.head_stored in
        (printed_height h, rw at refl)
    query_answered head_height q =
        let (h, at) = stored_height c.inv c.state.head s.head_stored in (height h, rw at refl)
    query_answered (pkh_balance pkhs) q =
        (balances (Queries.get_many_pkh_balances c.state pkhs), refl)
    query_answered (pkh_utxos pkhs exclude) q =
        (utxos (Queries.get_many_pkh_utxos c.state pkhs exclude), refl)
    query_answered (rich_list max_len) q = (balances (Queries.get_rich_list c.state max_len), refl)
    query_answered (tx_confirms tx_ids) q =
        let (m, done) = confirms_from tx_ids [] in (confirms m, rw done refl)
    query_answered (tx_included_block tx_ids) q =
        (included_blocks (Queries.get_tx_included_block c.inv c.state tx_ids), refl)

module _ (F : Type 0) ⦃float : FloatOps F⦄ ⦃sha : Sha256⦄ ⦃ecdsa : Ecdsa⦄ where
  -- After any turns of the chain's loop, from `NewChain` on a valid inventory in which every
  -- transaction is stored under its hash, each query (the height of the head, the balances, the
  -- unspent outputs, the rich list, the confirmations, the including blocks) and the printed
  -- update gets an answer and leaves the chain as it is, when the targets of the blocks that come
  -- in have 32 bytes and there are fewer than 2^64 blocks with those stored before.
  pub loop-answers :
      (inv : Inv) (support_miners : Bool) (save_dir : Option HeadFile) (ts : List Turn) (t : Turn)
      → IsValid inv
      → IsKeyed inv
      → All HasTargets ts
      → length inv.blocks + blocks_in ts < 2 ^ 64
      → IsQuery t
      → (r : Reply) × (take_turn t (loop ts (new_chain {F = F} inv support_miners save_dir).0).0
          ≡ ((loop ts (new_chain {F = F} inv support_miners save_dir).0).0, ok r))
  loop-answers inv support_miners save_dir ts t v keyed h few =
      query_answered 0 (loop ts (new_chain {F = F} inv support_miners save_dir).0).0
        (loop-IsSound F inv support_miners save_dir ts v keyed h few) t
