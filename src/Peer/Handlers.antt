-- ===== src/Peer/Handlers.antt =====
-- The handlers of internal/peer/handlers.go.
use basiccoin.Base.{ℕ, zero, suc, ◌^◌, true, false, List, [], ◌∷◌, ltb, length, if◌then◌else◌}
use basiccoin.Base.Eq.{text_eq, nat_eq}
use basiccoin.Collections.Map as Map
use basiccoin.Hash.{HashT}
use basiccoin.Hash.Digest.{Sha256}
use basiccoin.Inv.{Inv, has_tx, get_tx}
use basiccoin.Peer.Session.{done, on_conn, check_err, from_inv}
use basiccoin.Peer.State.{
  Handler, ◌>>=◌, ◌>>◌, return, talk, publish, peer_announced_addr, peers_requested, peers_received,
  candidate_tx,
}
use basiccoin.Prot.{read_string, write_string, read_uint64, write_uint64, read_bool, write_bool}
use basiccoin.Prot.Entities.{read_hash, write_hash, read_tx, write_tx}

-- `p.conn.PeerRuntimeId()`
abbrev pub peer_runtime_id : Handler (List ℕ)
peer_runtime_id p = (done p.conn.peer_runtime_id, p)

unfoldable pub handle_read_announce_addr : Handler (Unit {0})
handle_read_announce_addr = do
  addr ← talk (on_conn read_string)
  talk check_err
  id ← peer_runtime_id
  publish (peer_announced_addr id addr)

unfoldable pub handle_write_announce_addr : List ℕ → Handler (Unit {0})
handle_write_announce_addr addr = do talk (on_conn (write_string addr)); talk check_err

unfoldable pub handle_read_addrs_request : Handler (Unit {0})
handle_read_addrs_request = do id ← peer_runtime_id; publish (peers_requested id)

unfoldable pub handle_write_addrs_request : Handler (Unit {0})
handle_write_addrs_request = return tt

-- `int(numPeers)` as the loop counts it: a number of 2^63 or more is negative, and ends the loop at once.
abbrev pub loop_count : ℕ → ℕ
loop_count n = if ltb n (2 ^ 63) then n else 0

unfoldable pub read_addrs : ℕ → Map.Map (List ℕ) (List ℕ) → Handler (Map.Map (List ℕ) (List ℕ))
read_addrs zero addrs = return addrs
read_addrs (suc n) addrs = do
  id ← talk (on_conn read_string)
  addr ← talk (on_conn read_string)
  read_addrs n (Map.insert id addr addrs)

unfoldable pub handle_read_peer_addrs : Handler (Unit {0})
handle_read_peer_addrs = do
  num_peers ← talk (on_conn read_uint64)
  addrs ← read_addrs (loop_count num_peers) []
  talk check_err
  publish (peers_received addrs)

unfoldable pub write_addrs : Map.Map (List ℕ) (List ℕ) → Handler (Unit {0})
write_addrs [] = return tt
write_addrs ((id, addr) ∷ rest) = do
  talk (on_conn (write_string id))
  talk (on_conn (write_string addr))
  write_addrs rest

unfoldable pub handle_write_peer_addrs : Map.Map (List ℕ) (List ℕ) → Handler (Unit {0})
handle_write_peer_addrs addrs = do
  talk (on_conn (write_uint64 (length addrs)))
  write_addrs addrs
  talk check_err

unfoldable pub handle_write_new_tx : Inv → HashT → Handler (Unit {0})
handle_write_new_tx inv tx_id = do
  talk (on_conn (write_hash tx_id))
  wanted ← talk (on_conn read_bool)
  talk check_err
  if wanted
      then (do
        tx ← talk (from_inv (get_tx inv tx_id))
        talk (on_conn (write_tx tx))
        talk check_err)
      else return tt

module _ ⦃sha : Sha256⦄ where
  unfoldable pub handle_read_new_tx : Inv → Handler (Unit {0})
  handle_read_new_tx inv = do
    tx_id ← talk (on_conn read_hash)
    talk check_err
    if has_tx inv tx_id then (do talk (on_conn (write_bool false)); talk check_err) else do
      talk (on_conn (write_bool true))
      tx ← talk (on_conn (read_tx tx_id))
      talk check_err
      publish (candidate_tx tx)
