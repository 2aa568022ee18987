-- ===== src/Peer/Sync.antt =====
-- The two sides of a chain sync in internal/peer/sync.go. A loop that the peer drives runs on fuel.
use basiccoin.Base.{
  ℕ, zero, suc, Bool, true, false, not, ◌||◌, ◌&&◌, Option, none, some, List, [], ◌∷◌, ◌++◌, length,
  if◌then◌else◌,
}
use basiccoin.Base.Eq.{◌==◌, nat_eq, list_beq}
use basiccoin.Base.Result.{ok, err, panic, out_of_fuel}
use basiccoin.Chain.Handlers.{CandidateHead}
use basiccoin.Collections.Queue as Queue
use basiccoin.Collections.Set as Set
use basiccoin.Collections.Util.{reverse}
use basiccoin.Core.Block.{Block, MerkleNode}
use basiccoin.Core.Params.{codes}
use basiccoin.Core.Tx.{Tx}
use basiccoin.Hash.{HashT, hash_eq, zero_hash, eq, eq_zero, lt}
use basiccoin.Hash.Digest.{Sha256}
use basiccoin.Inv.{
  Inv, get_block, get_block_total_work, get_block_parent_id, has_block, has_merkle, has_tx,
  has_entity, get_merkle, get_tx,
}
use basiccoin.Prot.{write_string, read_string, read_string_expected, read_bool, write_bool}
use basiccoin.Prot.Entities.{
  read_hash, write_hash, read_block, write_block, read_merkle, write_merkle, read_tx, write_tx,
}
use basiccoin.Peer.Session.{
  unexpected_response, sync_not_needed, unverified_by_peer, unknown_entity, done, failed, panicked,
  out_of_steps, Session, ◌>>=◌, ◌>>◌, return, stop, on_conn, check_err, from_inv, has_err,
}
use basiccoin.Peer.Quick.{quick_verify_chain}

-- The first loop of `handleOutboundSyncChain`, after the first answer: the ids that the peer lacks,
-- and the first one that it has.
unfoldable pub offer : Inv → ℕ → List HashT → HashT → Bool → Session (List HashT × HashT)
offer inv zero needed lca_id resp c = (out_of_steps, c)
offer inv (suc fuel) needed lca_id resp c =
    if not (has_err c) && not resp
    then (do
      parent ← from_inv (get_block_parent_id inv lca_id)
      on_conn (write_hash parent)
      resp' ← on_conn read_bool
      offer inv fuel (needed ++ lca_id ∷ []) parent resp')
        c
    else (done (needed, lca_id), c)

unfoldable pub find_outbound : Inv → ℕ → HashT → Session (List HashT × HashT)
find_outbound inv fuel cur_head = do
  on_conn (write_hash cur_head)
  resp ← on_conn read_bool
  offer inv fuel [] cur_head resp

unfoldable pub send_blocks : Inv → List HashT → Session (Unit {0})
send_blocks inv [] = return tt
send_blocks inv (id ∷ ids) = do
  b ← from_inv (get_block inv id)
  on_conn (write_block b)
  check_err
  send_blocks inv ids

-- The loop that answers the peer's requests, the next id being read.
unfoldable pub serve : Inv → ℕ → HashT → Session (Unit {0})
serve inv zero id c = (out_of_steps, c)
serve inv (suc fuel) id c =
    if not (has_err c) && not (eq_zero id)
    then (do
      (if has_merkle inv id
          then (do
            on_conn (write_bool false)
            node ← from_inv (get_merkle inv id)
            on_conn (write_merkle node))
          else if has_tx inv id
          then (do on_conn (write_bool true); tx ← from_inv (get_tx inv id); on_conn (write_tx tx))
          else stop (failed unknown_entity))
      next ← on_conn read_hash
      serve inv fuel next)
        c
    else (done tt, c)

unfoldable pub handle_outbound_sync_chain : Inv → ℕ → HashT → Session (Unit {0})
handle_outbound_sync_chain inv fuel cur_head = do
  (needed, lca_id) ← find_outbound inv fuel cur_head
  check_err
  if length needed == 0 then stop (failed sync_not_needed) else do
    send_blocks inv needed
    resp ← on_conn read_bool
    check_err
    if not resp then stop (failed unverified_by_peer) else do
      id ← on_conn read_hash
      serve inv fuel id
      on_conn (read_string_expected (codes "complete"))
      check_err

-- The first loop of `handleInboundSyncChain`.
unfoldable pub look_up : Inv → ℕ → List HashT → HashT → Session (List HashT × HashT)
look_up inv zero needed lca_id c = (out_of_steps, c)
look_up inv (suc fuel) needed lca_id c =
    if not (has_err c) && not (has_block inv lca_id)
    then (do
      on_conn (write_bool false)
      next ← on_conn read_hash
      look_up inv fuel (needed ++ lca_id ∷ []) next)
        c
    else (done (needed, lca_id), c)

-- The claimed head, the ids that we lack, and the first one that we have.
unfoldable pub find_inbound : Inv → ℕ → Session (HashT × (List HashT × HashT))
find_inbound inv fuel = do
  new_head ← on_conn read_hash
  found ← look_up inv fuel [] new_head
  on_conn (write_bool true)
  return (new_head, found)

module _ ⦃sha : Sha256⦄ where
  unfoldable pub receive_blocks : List HashT → Session (List Block)
  receive_blocks [] = return []
  receive_blocks (id ∷ ids) = do
    b ← on_conn (read_block id)
    check_err
    bs ← receive_blocks ids
    return (b ∷ bs)

  unfoldable pub receive_merkle : HashT → Session MerkleNode
  receive_merkle id = do merkle ← on_conn (read_merkle id); check_err; return merkle

  unfoldable pub receive_tx : HashT → Session Tx
  receive_tx id = do tx ← on_conn (read_tx id); check_err; return tx

  -- The loop that asks for the entities that we lack.
  unfoldable pub request :
      Inv
      → ℕ
      → Queue.Queue HashT
      → Set.Set HashT
      → List MerkleNode
      → List Tx
      → Session (List MerkleNode × List Tx)
  request inv fuel [] received merkles txs = return (merkles, txs)
  request inv zero (id ∷ q) received merkles txs = stop out_of_steps
  request inv (suc fuel) (id ∷ q) received merkles txs =
      elim (has_entity inv id || Set.includes id received) [
        | true ↦ request inv fuel q received merkles txs
        | false ↦ do
          on_conn (write_hash id)
          is_tx ← on_conn read_bool
          check_err
          elim is_tx [
            | true ↦ do
              tx ← receive_tx id
              request inv fuel q (Set.add id received) merkles (txs ++ tx ∷ [])
            | false ↦ do
              merkle ← receive_merkle id
              request inv fuel (Queue.push (merkle.l_child ∷ merkle.r_child ∷ []) q)
                  (Set.add id received) (merkles ++ merkle ∷ []) txs
          ]
      ]

  unfoldable pub merkle_roots : List Block → List HashT
  merkle_roots [] = []
  merkle_roots (b ∷ bs) = b.merkle_root ∷ merkle_roots bs

  -- After a failed verification the stored error, which is nil there, is asked for its text.
  unfoldable pub refuse_chain : {A : Type 0} → Session A
  refuse_chain = do on_conn (write_bool false); check_err; stop panicked

  unfoldable pub verify_received : Inv → HashT → HashT → HashT → List Block → Session (Unit {0})
  verify_received inv cur_head new_head lca_id blocks =
      elim (quick_verify_chain inv cur_head new_head lca_id blocks) [
        | ok u ↦ return tt
        | err e ↦ refuse_chain
        | panic ↦ stop panicked
        | out_of_fuel ↦ stop out_of_steps
      ]

  -- The event that is published at the end.
  unfoldable pub handle_inbound_sync_chain : Inv → ℕ → HashT → Session CandidateHead
  handle_inbound_sync_chain inv fuel cur_head = do
    (new_head, (needed, lca_id)) ← find_inbound inv fuel
    check_err
    if length needed == 0 then stop (failed sync_not_needed) else do
      new_blocks ← receive_blocks needed
      verify_received inv cur_head new_head lca_id new_blocks
      on_conn (write_bool true)
      check_err
      (new_merkles, new_txs) ← request inv fuel (Queue.push (merkle_roots new_blocks) []) [] [] []
      on_conn (write_hash zero_hash)
      on_conn (write_string (codes "complete"))
      check_err
      return (record {
        head = new_head;
        blocks = reverse new_blocks;
        merkles = reverse new_merkles;
        txs = reverse new_txs;
        auto_add_mempool_insecure = false;
      })

  -- Who has more work sends; the event of the receiver is published.
  unfoldable pub sync_direction : Inv → ℕ → HashT → HashT → HashT → Session (Option CandidateHead)
  sync_direction inv fuel cur_head our_work their_work =
      if lt their_work our_work
      then (do
        on_conn (write_string (codes "sync:send"))
        on_conn (read_string_expected (codes "sync:recv"))
        check_err
        handle_outbound_sync_chain inv fuel cur_head
        return none)
      else do
        on_conn (write_string (codes "sync:recv"))
        on_conn (read_string_expected (codes "sync:send"))
        check_err
        event ← handle_inbound_sync_chain inv fuel cur_head
        return (some event)

  unfoldable pub handle_sync_chain : Inv → ℕ → HashT → Session (Option CandidateHead)
  handle_sync_chain inv fuel cur_head = do
    our_work ← from_inv (get_block_total_work inv cur_head)
    on_conn (write_hash our_work)
    on_conn (write_hash cur_head)
    their_work ← on_conn read_hash
    their_head ← on_conn read_hash
    check_err
    if eq their_work our_work || (lt our_work their_work && has_block inv their_head)
        then (do
          on_conn (write_string (codes "cancel"))
          _ ← on_conn read_string
          check_err
          return none)
        else do
          on_conn (write_string (codes "continue"))
          resp ← on_conn read_string
          check_err
          if list_beq resp (codes "cancel")
              then return none
              else if list_beq resp (codes "continue")
              then sync_direction inv fuel cur_head our_work their_work
              else stop (failed unexpected_response)
