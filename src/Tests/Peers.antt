-- ===== src/Tests/Peers.antt =====
-- The peer factory at concrete inputs.
use basiccoin.Base.{ℕ, ◌≡◌, arith, true, false, List, [], ◌∷◌}
use basiccoin.Base.Result.{ok}
use basiccoin.Core.Params.{codes}
use basiccoin.PeerFactory.{
  Params, PeerFactory, new_peer_factory, NewConn, Event, new_conn, peer_closing, seek_peers,
  peers_requested, run,
}
use basiccoin.PeerFactory.Bounds.{IsBounded, run-IsBounded}

abbrev one_peer : Params
one_peer = record { listen = true; local_addr = []; max_peers = 1; runtime_id = codes "a" }

abbrev conn_of : List ℕ → NewConn
conn_of id = record { has_err = false; peer_runtime_id = id; local_ip = codes "10.0.0.1" }

abbrev some_events : List Event
some_events =
    seek_peers
    ∷ new_conn (conn_of (codes "b"))
    ∷ new_conn (conn_of (codes "c"))
    ∷ seek_peers
    ∷ peers_requested (codes "b")
    ∷ peer_closing (codes "b")
    ∷ new_conn (conn_of (codes "c"))
    ∷ []

no_peers : IsBounded (new_peer_factory one_peer)
unfolding new_peer_factory
no_peers = omega arith

run-IsBounded_example :
    (pf : PeerFactory) × (run (λ _ _. 0) some_events (new_peer_factory one_peer) ≡ ok pf)
    × IsBounded pf
    × (pf.params.max_peers ≡ (new_peer_factory one_peer).params.max_peers)
run-IsBounded_example =
    run-IsBounded (λ _ _. 0) some_events (new_peer_factory one_peer) (λ _ n h. h) no_peers
