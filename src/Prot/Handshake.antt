-- ===== src/Prot/Handshake.antt =====
-- The handshake of pkg/prot/conn.go.
use basiccoin.Base.{ℕ, Bool, true, false, Option, none, some, List, if◌then◌else◌}
use basiccoin.Base.Eq.{list_beq, nat_eq}
use basiccoin.Core.Params.{codes}
use basiccoin.Prot.{
  NetError, timeout, self_connection, peer_does_not_want, unrecognized_response, Io, ◌>>=◌, ◌>>◌,
  fail, unless_err, close, write_string, read_string, read_string_expected,
}

-- `os.IsTimeout`
unfoldable pub is_timeout : Option NetError → Bool
is_timeout none = false
is_timeout (some timeout) = true
is_timeout (some _) = false

-- What the peer wants, once we want to go on.
unfoldable pub follow_peer : List ℕ → Io (Unit {0})
unfolding is_timeout
follow_peer peer_wants c = elim c.err [
  | some e ↦ if is_timeout c.err then close c else (tt, c)
  | none ↦
      if list_beq peer_wants (codes "continue")
      then (tt, c)
      else if list_beq peer_wants (codes "cancel")
      then (fail tt peer_does_not_want >> close) c
      else (fail tt unrecognized_response >> close) c
]

-- The error of a failed write goes before the one that says why we cancel.
unfoldable pub cancel_self : Io (Unit {0})
cancel_self = do write_string (codes "cancel"); unless_err tt (fail tt self_connection); close

unfoldable pub write_runtime_id : Io (Unit {0})
write_runtime_id c = write_string c.params.runtime_id c

unfoldable pub set_peer : List ℕ → Io (Unit {0})
set_peer peer_runtime_id c = (tt, record c { peer_runtime_id = peer_runtime_id })

unfoldable pub go_on : List ℕ → Io (Unit {0})
go_on peer_runtime_id = do
  write_string (codes "continue")
  set_peer peer_runtime_id
  peer_wants ← read_string
  follow_peer peer_wants

unfoldable pub choose : List ℕ → Io (Unit {0})
choose peer_runtime_id c =
    if list_beq peer_runtime_id c.params.runtime_id then cancel_self c else go_on peer_runtime_id c

unfoldable pub handshake_steps : Io (Unit {0})
handshake_steps = do
  write_string (codes "levilutz/basiccoin")
  write_string (codes "v0.0.0")
  write_runtime_id
  read_string_expected (codes "levilutz/basiccoin")
  read_string_expected (codes "v0.0.0")
  peer_runtime_id ← read_string
  unless_err tt (choose peer_runtime_id)

unfoldable pub handshake : Io (Unit {0})
handshake = unless_err tt handshake_steps
