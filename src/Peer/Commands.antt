-- ===== src/Peer/Commands.antt =====
-- The commands of internal/peer/peer.go and its loop. The texts of errors, which are only printed,
-- are left out.
use basiccoin.Base.{ℕ, Bool, none, some, List, [], ◌∷◌, ◌++◌, take, if◌then◌else◌}
use basiccoin.Base.Eq.{list_beq, nat_eq}
use basiccoin.Collections.Map.{Map}
use basiccoin.Core.Params.{codes}
use basiccoin.Hash.{HashT}
use basiccoin.Hash.Digest.{Sha256}
use basiccoin.Inv.{Inv}
use basiccoin.Peer.Handlers.{
  peer_runtime_id, handle_read_announce_addr, handle_write_announce_addr, handle_read_addrs_request,
  handle_write_addrs_request, handle_read_peer_addrs, handle_write_peer_addrs, handle_read_new_tx,
  handle_write_new_tx,
}
use basiccoin.Peer.Session.{
  Outcome, done, failed, net_failed, panicked, out_of_steps, peer_closed, unrecognized_msg,
  unrecognized_command, on_conn, check_err,
}
use basiccoin.Peer.State.{
  Peer, Handler, ◌>>=◌, ◌>>◌, return, stop, talk, publish, close_soon, candidate_head,
}
use basiccoin.Peer.Sync.{handle_sync_chain}
use basiccoin.Prot.{Conn, drop, read, read_string_expected, write_string}
use basiccoin.Prot.Handshake.{is_timeout}

abbrev pub starts_with_cmd : List ℕ → Bool
starts_with_cmd msg = list_beq (take 4 msg) (codes "cmd:")

abbrev pub we_are_initiator : Handler Bool
we_are_initiator p = (done p.conn.params.we_are_initiator, p)

abbrev pub closing : Handler Bool
closing p = (done p.should_close, p)

-- What the loop waits for; `nothing_waits` is the default branch, which reads from the peer.
pub data Wait : Type 0 where
  should_request_peers : List ℕ → Wait
  send_peers : List ℕ → Map (List ℕ) (List ℕ) → Wait
  should_announce_addr : List ℕ → List ℕ → Wait
  validated_tx : HashT → Wait
  validated_head : HashT → Wait
  print_update nothing_waits : Wait

module _ ⦃sha : Sha256⦄ where
  -- The event of a sync, if there is one.
  unfoldable pub sync : Inv → ℕ → Handler (Unit {0})
  sync inv fuel p =
      (do
        received ← talk (handle_sync_chain inv fuel p.cur_head)
        elim received [ none ↦ return tt | some event ↦ publish (candidate_head event) ])
        p

  unfoldable pub run_command : Inv → ℕ → List ℕ → Handler (Unit {0})
  run_command inv fuel command =
      if list_beq command (codes "ping")
      then return tt
      else if list_beq command (codes "addrs-request")
      then handle_read_addrs_request
      else if list_beq command (codes "peer-addrs")
      then handle_read_peer_addrs
      else if list_beq command (codes "announce-addr")
      then handle_read_announce_addr
      else if list_beq command (codes "new-tx")
      then handle_read_new_tx inv
      else if list_beq command (codes "sync-chain")
      then sync inv fuel
      else stop (failed unrecognized_command)

  unfoldable pub handle_received_message : Inv → ℕ → List ℕ → Handler (Unit {0})
  handle_received_message inv fuel msg =
      if starts_with_cmd msg
      then if list_beq msg (codes "cmd:close")
        then (do close_soon; stop (failed peer_closed))
        else (do
          talk (on_conn (write_string (codes "ack:" ++ drop 4 msg)))
          talk check_err
          run_command inv fuel (drop 4 msg))
      else stop (failed unrecognized_msg)

  -- Both have sent a command: the one of the peer that initiated the connection goes second.
  unfoldable pub both_issued : Inv → ℕ → List ℕ → List ℕ → Handler (Unit {0}) → Handler (Unit {0})
  both_issued inv fuel command resp handler = do
    initiator ← we_are_initiator
    if initiator
        then (do
          handle_received_message inv fuel resp
          close ← closing
          if close then stop (failed peer_closed) else do
            talk (on_conn (read_string_expected (codes "ack:" ++ command)))
            talk check_err
            handler)
        else do
          talk (on_conn (read_string_expected (codes "ack:" ++ command)))
          talk check_err
          handler
          close ← closing
          if close then stop (failed peer_closed) else handle_received_message inv fuel resp

  unfoldable pub issue_command : Inv → ℕ → List ℕ → Handler (Unit {0}) → Handler (Unit {0})
  issue_command inv fuel command handler = do
    talk (on_conn (write_string (codes "cmd:" ++ command)))
    resp ← talk (on_conn read)
    talk check_err
    if list_beq resp (codes "cmd:close")
        then (do close_soon; stop (failed peer_closed))
        else if list_beq resp (codes "ack:" ++ command)
        then handler
        else if starts_with_cmd resp
        then both_issued inv fuel command resp handler
        else stop (failed unrecognized_msg)

  -- Errors are printed, a panic is not caught here.
  abbrev pub print_err : Outcome (Unit {0}) → Outcome (Unit {0})
  print_err (done u) = done tt
  print_err (failed e) = done tt
  print_err (net_failed e) = done tt
  print_err panicked = panicked
  print_err out_of_steps = out_of_steps

  unfoldable pub issue_command_print_err :
      Inv → ℕ → List ℕ → Handler (Unit {0}) → Handler (Unit {0})
  issue_command_print_err inv fuel command handler p = (
    print_err (issue_command inv fuel command handler p).0,
    (issue_command inv fuel command handler p).1,
  )

  unfoldable pub if_target : List ℕ → Handler (Unit {0}) → Handler (Unit {0})
  if_target target handler = do
    id ← peer_runtime_id
    if list_beq target id then handler else return tt

  -- After the read: a timeout goes on with the loop, another error panics.
  unfoldable pub after_read : Inv → ℕ → Peer → List ℕ → Conn → Outcome (Unit {0}) × Peer
  after_read inv fuel p msg conn =
      let popped = record p { conn = record conn { err = none } } in
      elim conn.err [
        | none ↦ (
          print_err (handle_received_message inv fuel msg popped).0,
          (handle_received_message inv fuel msg popped).1,
        )
        | some e ↦ if is_timeout (some e) then (done tt, popped) else (panicked, popped)
      ]

  unfoldable pub receive : Inv → ℕ → Handler (Unit {0})
  receive inv fuel p = after_read inv fuel p (read p.conn).0 (read p.conn).1

  unfoldable pub take_head : HashT → Handler (Unit {0})
  take_head head p = (done tt, record p { cur_head = head })

  unfoldable pub turn : Inv → ℕ → Wait → Handler (Unit {0})
  turn inv fuel (should_request_peers target) =
      if_target target
        (issue_command_print_err inv fuel (codes "addrs-request") handle_write_addrs_request)
  turn inv fuel (send_peers target addrs) =
      if_target target
        (issue_command_print_err inv fuel (codes "peer-addrs") (handle_write_peer_addrs addrs))
  turn inv fuel (should_announce_addr target addr) =
      if_target target
        (issue_command_print_err inv fuel (codes "announce-addr") (handle_write_announce_addr addr))
  turn inv fuel (validated_tx tx_id) =
      issue_command_print_err inv fuel (codes "new-tx") (handle_write_new_tx inv tx_id)
  turn inv fuel (validated_head head) = do
    take_head head
    issue_command_print_err inv fuel (codes "sync-chain") (sync inv fuel)
  turn inv fuel print_update = return tt
  turn inv fuel nothing_waits = receive inv fuel

  -- The turns of the loop, each with the inventory as it is then.
  unfoldable pub turns : ℕ → List (Inv × Wait) → Handler (Unit {0})
  turns fuel [] = return tt
  turns fuel ((inv, wait) ∷ rest) = do
    close ← closing
    if close then return tt else do turn inv fuel wait; turns fuel rest

  -- The initiator of the connection syncs first.
  unfoldable pub loop : ℕ → Inv → List (Inv × Wait) → Handler (Unit {0})
  loop fuel inv waits = do
    initiator ← we_are_initiator
    (if initiator
        then issue_command_print_err inv fuel (codes "sync-chain") (sync inv fuel)
        else return tt)
    turns fuel waits
