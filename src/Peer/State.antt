-- ===== src/Peer/State.antt =====
-- The state of a peer in internal/peer/peer.go, and the events that it publishes. A handler returns
-- the outcome and the peer that it leaves.
use basiccoin.Base.{ℕ, Bool, true, List, [], ◌∷◌, ◌++◌}
use basiccoin.Chain.Handlers.{CandidateHead}
use basiccoin.Collections.Map.{Map}
use basiccoin.Core.Tx.{Tx}
use basiccoin.Hash.{HashT}
use basiccoin.Peer.Session.{Outcome, done, failed, net_failed, panicked, out_of_steps, Session}
use basiccoin.Prot.{Conn}

pub data Event : Type 0 where
  peer_announced_addr : List ℕ → List ℕ → Event
  peers_requested : List ℕ → Event
  peers_received : Map (List ℕ) (List ℕ) → Event
  candidate_tx : Tx → Event
  candidate_head : CandidateHead → Event

pub record Peer : Type 0 where
  pub conn : Conn
  pub should_close : Bool
  pub cur_head : HashT
  pub published : List Event

abbrev pub Handler : Type 0 → Type 0
Handler A = Peer → Outcome A × Peer

abbrev pub and_then : {A B : Type 0} → (A → Handler B) → Outcome A → Handler B
and_then f (done a) p = f a p
and_then f (failed e) p = (failed e, p)
and_then f (net_failed e) p = (net_failed e, p)
and_then f panicked p = (panicked, p)
and_then f out_of_steps p = (out_of_steps, p)

infixl 5 ◌>>=◌ ◌>>◌
unfoldable pub ◌>>=◌ : {A B : Type 0} → Handler A → (A → Handler B) → Handler B
◌>>=◌ m f p = and_then f (m p).0 (m p).1

unfoldable pub ◌>>◌ : {B : Type 0} → Handler (Unit {0}) → Handler B → Handler B
◌>>◌ m k p = and_then (λ _. k) (m p).0 (m p).1

abbrev pub return : {A : Type 0} → A → Handler A
return a p = (done a, p)

abbrev pub stop : {A : Type 0} → Outcome A → Handler A
stop o p = (o, p)

-- What only touches the connection.
unfoldable pub talk : {A : Type 0} → Session A → Handler A
talk m p = ((m p.conn).0, record p { conn = (m p.conn).1 })

unfoldable pub publish : Event → Handler (Unit {0})
publish event p = (done tt, record p { published = p.published ++ event ∷ [] })

abbrev pub close_soon : Handler (Unit {0})
close_soon p = (done tt, record p { should_close = true })
