-- ===== src/PeerFactory.antt =====
-- internal/peerfactory/peerfactory.go: which peers there are, and who is asked for more. What the
-- loop waits for is an event of the model, what it sets off an action; the random source and the
-- local address of a connection are arguments.
pub mod Bounds
use basiccoin.Base.{
  ℕ, suc, Bool, true, false, not, ◌&&◌, Option, none, some, List, [], ◌∷◌, ◌++◌, ltb, get_elem?,
  if◌then◌else◌,
}
use basiccoin.Base.Eq.{list_beq, text_eq, nat_eq}
use basiccoin.Base.Result.{Result, ok, ◌>>=◌, expect}
use basiccoin.Collections.Map as Map
use basiccoin.Collections.Set as Set
use basiccoin.Collections.SyncQueue as SyncQueue
use basiccoin.Core.Params.{codes}
use basiccoin.Hash.{HashT, zero_hash}

pub record Params : Type 0 where
  pub listen : Bool
  pub local_addr : List ℕ
  pub max_peers : ℕ
  pub runtime_id : List ℕ

pub data Action : Type 0 where
  -- A new peer starts with its runtime id and our head.
  start_peer : List ℕ → HashT → Action
  start_listening : Action
  should_announce_addr : List ℕ → List ℕ → Action
  should_request_peers : List ℕ → Action
  send_peers : List ℕ → Map.Map (List ℕ) (List ℕ) → Action
  -- `CloseIfPossible`, with nil or the addresses.
  close_if_possible : Option (Map.Map (List ℕ) (List ℕ)) → Action

pub record PeerFactory : Type 0 where
  pub params : Params
  pub new_addrs : SyncQueue.SyncQueue (List ℕ)
  pub known_peers : Set.Set (List ℕ)
  pub known_peer_addrs : Map.Map (List ℕ) (List ℕ)
  pub seed_addrs : List (List ℕ)
  pub cur_head : HashT
  -- How often the random source was read, and what was set off, in order.
  pub draws : ℕ
  pub actions : List Action

unfoldable pub new_peer_factory : Params → PeerFactory
new_peer_factory params = record {
  params = params;
  new_addrs = SyncQueue.new_sync_queue [];
  known_peers = [];
  known_peer_addrs = [];
  seed_addrs = [];
  cur_head = zero_hash;
  draws = 0;
  actions = [];
}

unfoldable pub set_seeds : List (List ℕ) → PeerFactory → PeerFactory
set_seeds seed_addrs pf = record pf { seed_addrs = seed_addrs }

abbrev act : Action → PeerFactory → PeerFactory
act action pf = record pf { actions = pf.actions ++ action ∷ [] }

-- A connection, as far as `addConn` looks at it.
pub record NewConn : Type 0 where
  pub has_err : Bool
  pub peer_runtime_id : List ℕ
  pub local_ip : List ℕ

-- The local address is learnt from the first peer.
unfoldable pub learn_addr : NewConn → PeerFactory → PeerFactory
learn_addr conn pf =
    if pf.params.listen && list_beq pf.params.local_addr []
    then act start_listening
        (record pf { params = record pf.params { local_addr = conn.local_ip ++ codes ":21720" } })
    else pf

unfoldable pub announce_addr : NewConn → PeerFactory → PeerFactory
announce_addr conn pf =
    if pf.params.listen
    then act (should_announce_addr conn.peer_runtime_id pf.params.local_addr) pf
    else pf

unfoldable pub start : NewConn → PeerFactory → PeerFactory
start conn pf =
    let started : PeerFactory = act (start_peer conn.peer_runtime_id pf.cur_head) pf in
    announce_addr conn (
      learn_addr conn
        (record started { known_peers = Set.add conn.peer_runtime_id pf.known_peers }))

unfoldable pub add_conn : NewConn → PeerFactory → PeerFactory
add_conn conn pf =
    if conn.has_err
    then act (close_if_possible none) pf
    else if ltb (Set.size pf.known_peers) pf.params.max_peers
        && not (Set.includes conn.peer_runtime_id pf.known_peers)
    then start conn pf
    else act (close_if_possible (some pf.known_peer_addrs)) pf

-- `random` gives the draws of `rand.Intn`, by their count and their bound.
unfoldable pub seek_new_peers : (ℕ → ℕ → ℕ) → PeerFactory → Result PeerFactory
seek_new_peers random pf =
    if not (ltb (Set.size pf.known_peers) pf.params.max_peers)
    then ok pf
    else if nat_eq.beq (Set.size pf.known_peers) 0
    then ok (record pf { new_addrs = SyncQueue.push pf.seed_addrs pf.new_addrs })
    else do
      target ←
          expect
            (get_elem? (Set.to_list pf.known_peers) (random pf.draws (Set.size pf.known_peers)))
      ok (act (should_request_peers target) (record pf { draws = suc pf.draws }))

unfoldable pub receive_peers : Map.Map (List ℕ) (List ℕ) → PeerFactory → PeerFactory
receive_peers [] pf = pf
receive_peers ((id, addr) ∷ rest) pf =
    let queued : PeerFactory = record pf { new_addrs = SyncQueue.push (addr ∷ []) pf.new_addrs } in
    receive_peers rest (
      if not (list_beq id pf.params.runtime_id) && not (Set.includes id pf.known_peers)
      then queued
      else pf)

pub data Event : Type 0 where
  new_conn : NewConn → Event
  peer_announced_addr : List ℕ → List ℕ → Event
  peer_closing : List ℕ → Event
  peers_received : Map.Map (List ℕ) (List ℕ) → Event
  peers_requested : List ℕ → Event
  validated_head : HashT → Event
  print_update seek_peers : Event

unfoldable pub handle : (ℕ → ℕ → ℕ) → Event → PeerFactory → Result PeerFactory
handle random (new_conn conn) pf = ok (add_conn conn pf)
handle random (peer_announced_addr id addr) pf =
    ok (record pf { known_peer_addrs = Map.insert id addr pf.known_peer_addrs })
handle random (peer_closing id) pf = ok (record pf {
  known_peers = (Set.remove id pf.known_peers).0;
  known_peer_addrs = Map.delete id pf.known_peer_addrs;
})
handle random (peers_received addrs) pf = ok (receive_peers addrs pf)
handle random (peers_requested id) pf = ok (act (send_peers id pf.known_peer_addrs) pf)
handle random (validated_head head) pf = ok (record pf { cur_head = head })
handle random print_update pf = ok pf
handle random seek_peers pf = seek_new_peers random pf

-- The rounds of the loop.
unfoldable pub run : (ℕ → ℕ → ℕ) → List Event → PeerFactory → Result PeerFactory
run random [] pf = ok pf
run random (event ∷ events) pf = do pf' ← handle random event pf; run random events pf'
