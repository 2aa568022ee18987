-- ===== src/Peer/Session.antt =====
-- A handler of internal/peer returns nil, an error of its own, or the stored error of the
-- connection, which it takes out; a panic ends the peer.
use basiccoin.Base.{Bool, true, false, none, some}
use basiccoin.Base.Eq.{nat_eq}
use basiccoin.Base.Result.{Result, ok, err, panic, out_of_fuel}
use basiccoin.Hash.{hash_eq}
use basiccoin.Prot.{Conn, NetError, Io}

pub data PeerError : Type 0 where
  unexpected_response sync_not_needed unverified_by_peer unknown_entity : PeerError
  peer_closed unrecognized_msg unrecognized_command : PeerError

-- The outcome of a handler: a value, an error, a panic, or a loop that the fuel did not see to its end.
pub data Outcome (A : Type 0) : Type 0 where
  done : A → Outcome A
  failed : PeerError → Outcome A
  net_failed : NetError → Outcome A
  panicked : Outcome A
  out_of_steps : Outcome A

abbrev pub Session : Type 0 → Type 0
Session A = Conn → Outcome A × Conn

abbrev pub continue_with : {A B : Type 0} → (A → Session B) → Outcome A → Session B
continue_with f (done a) c = f a c
continue_with f (failed e) c = (failed e, c)
continue_with f (net_failed e) c = (net_failed e, c)
continue_with f panicked c = (panicked, c)
continue_with f out_of_steps c = (out_of_steps, c)

infixl 5 ◌>>=◌ ◌>>◌
unfoldable pub ◌>>=◌ : {A B : Type 0} → Session A → (A → Session B) → Session B
◌>>=◌ m f c = continue_with f (m c).0 (m c).1

unfoldable pub ◌>>◌ : {B : Type 0} → Session (Unit {0}) → Session B → Session B
◌>>◌ m k c = continue_with (λ _. k) (m c).0 (m c).1

abbrev pub return : {A : Type 0} → A → Session A
return a c = (done a, c)

abbrev pub stop : {A : Type 0} → Outcome A → Session A
stop o c = (o, c)

-- An operation on the connection, which stores its errors there.
unfoldable pub on_conn : {A : Type 0} → Io A → Session A
on_conn m c = (done (m c).0, (m c).1)

-- `if p.conn.HasErr() { return p.conn.Err() }`
unfoldable pub check_err : Session (Unit {0})
check_err c = elim c.err [ none ↦ (done tt, c) | some e ↦ (net_failed e, record c { err = none }) ]

-- A method of the inventory, which can only panic.
unfoldable pub from_inv : {A : Type 0} → Result A → Session A
from_inv (ok a) c = (done a, c)
from_inv (err e) c = (panicked, c)
from_inv panic c = (panicked, c)
from_inv out_of_fuel c = (out_of_steps, c)

unfoldable pub has_err : Conn → Bool
has_err c = elim c.err [ none ↦ false | some e ↦ true ]
