-- ===== src/Peer/Announce.antt =====
-- A new transaction goes from one peer to another: the two sides of a command in
-- internal/peer/peer.go and internal/peer/handlers.go.
use mathlib.Core.List.{append_assoc}
use basiccoin.Base.{ℕ, ◌≡◌, refl, ap, ◌∙◌, true, false, List, [], ◌∷◌, ◌++◌, arith}
use basiccoin.Base.Eq.{list_beq, nat_eq}
use basiccoin.Base.Result.{ok}
use basiccoin.Core.Params.{codes}
use basiccoin.Core.Block.Ids.{tx_hash-IsHash}
use basiccoin.Core.Tx.{Tx, tx_hash}
use basiccoin.Hash.{IsHash}
use basiccoin.Hash.Digest.{Sha256}
use basiccoin.Inv.{Inv, has_tx, get_tx}
use basiccoin.Peer.Commands.{
  handle_received_message, run_command, issue_command, print_err, after_read, receive,
}
use basiccoin.Peer.Handlers.{handle_read_new_tx, handle_write_new_tx}
use basiccoin.Peer.Negotiation.{on_conn-done, from_inv-done}
use basiccoin.Peer.Session.{Outcome, done, Session, on_conn, check_err, from_inv}
use basiccoin.Peer.State.{Peer, Handler, and_then, ◌>>=◌, ◌>>◌, talk, publish, candidate_tx}
use basiccoin.Prot.{Conn, NetError, ProtParams, Io, read, read_bool, write_bool, write_string}
use basiccoin.Prot.Codec.{
  Reads, Writes, live, frame, bool_byte, read-Reads, string-Writes, bool-Reads, bool-Writes,
}
use basiccoin.Prot.Entities.{read_hash, write_hash, read_tx, write_tx}
use basiccoin.Prot.RoundTrip.{Carries, IsWireTx, hash-Reads, hash-Writes, read_tx-write_tx}

-- The peer with this connection.
abbrev pub on : Peer → Conn → Peer
on p c = record p { conn = c }

module _ (p : Peer) where
  -- A session that ends well, and what follows.
  talk_step :
      {A B : Type 0} (m : Session A) (f : A → Handler B) (c d : Conn) (a : A) (r : Outcome B × Peer)
      → m c ≡ (done a, d)
      → f a (on p d) ≡ r
      → (talk m >>= f) (on p c) ≡ r
  unfolding ◌>>=◌ talk
  talk_step {A = A} m f c d a r h k = ap (λ (x : Outcome A × Conn). and_then f x.0 (on p x.1)) h ∙ k

  talk_next :
      {B : Type 0} (m : Session (Unit {0})) (f : Handler B) (c d : Conn) (r : Outcome B × Peer)
      → m c ≡ (done tt, d)
      → f (on p d) ≡ r
      → (talk m >> f) (on p c) ≡ r
  unfolding ◌>>◌ talk
  talk_next m f c d r h k =
      ap (λ (x : Outcome (Unit {0}) × Conn). and_then (λ _. f) x.0 (on p x.1)) h ∙ k

  module _ (q : ProtParams) (e : NetError) (id : List ℕ) where
    receive_step :
        {A B : Type 0} (m : Io A) (f : A → Handler B) (bytes rest out : List ℕ) (a : A)
        (r : Outcome B × Peer)
        → Reads m bytes a
        → f a (on p (live q e id rest out)) ≡ r
        → (talk (on_conn m) >>= f) (on p (live q e id (bytes ++ rest) out)) ≡ r
    receive_step m f bytes rest out a r h k =
        talk_step (on_conn m) f _ (live q e id rest out) a r
          (on_conn-done m _ _ a (h q e id rest out)) k

    send_step :
        {B : Type 0} (m : Io (Unit {0})) (f : Handler B) (bytes inc out : List ℕ)
        (r : Outcome B × Peer)
        → Writes m bytes
        → f (on p (live q e id inc (out ++ bytes))) ≡ r
        → (talk (on_conn m) >> f) (on p (live q e id inc out)) ≡ r
    send_step m f bytes inc out r h k =
        talk_next (on_conn m) f _ (live q e id inc (out ++ bytes)) r
          (on_conn-done m _ _ tt (h q e id inc out)) k

    check_step :
        {B : Type 0} (f : Handler B) (inc out : List ℕ) (r : Outcome B × Peer)
        → f (on p (live q e id inc out)) ≡ r
        → (talk check_err >> f) (on p (live q e id inc out)) ≡ r
    unfolding check_err
    check_step f inc out r k = talk_next check_err f _ (live q e id inc out) r refl k

    check_last :
        (inc out : List ℕ)
        → talk check_err (on p (live q e id inc out)) ≡ (done tt, on p (live q e id inc out))
    unfolding talk check_err
    check_last inc out = refl

abbrev pub command : List ℕ
command = codes "cmd:new-tx"

abbrev pub acknowledgement : List ℕ
acknowledgement = codes "ack:new-tx"

module _ ⦃sha : Sha256⦄ (inv : Inv) (fuel : ℕ) (p : Peer) (q : ProtParams) (e : NetError)
    (id : List ℕ) where
  -- The sender, whose peer acknowledges the command and wants the transaction.
  issue-sent :
      (tx : Tx) (bytes rest out : List ℕ)
      → IsHash (tx_hash tx)
      → get_tx inv (tx_hash tx) ≡ ok tx
      → Writes (write_tx tx) bytes
      → issue_command inv fuel
          (codes "new-tx")
          (handle_write_new_tx inv (tx_hash tx))
          (on p (live q e id (frame acknowledgement ++ (bool_byte true ++ rest)) out))
        ≡ (
          done tt,
          on p (live q e id rest (((out ++ frame command) ++ (tx_hash tx).bytes) ++ bytes)),
        )
  unfolding issue_command handle_write_new_tx list_beq
  issue-sent tx bytes rest out valid stored sent =
      send_step p q e id (write_string command) _ (frame command) _ out _
        (string-Writes command (omega arith))
        (receive_step p q e id read _ (frame acknowledgement) _ _ acknowledgement _
          (read-Reads acknowledgement (omega arith))
          (check_step p q e id _ _ _ _ (
            send_step p q e id (write_hash (tx_hash tx)) _ (tx_hash tx).bytes _ _ _
              (hash-Writes (tx_hash tx) valid)
              (receive_step p q e id read_bool _ (bool_byte true) rest _ true _ (bool-Reads true) (
                check_step p q e id _ _ _ _ (
                  talk_step p (from_inv (get_tx inv (tx_hash tx))) _ _ _ tx _
                    (from_inv-done _ tx _ stored)
                    (send_step p q e id (write_tx tx) (talk check_err) bytes rest _ _ sent
                      (check_last p q e id rest _))))))))

  -- The receiver, which has not the transaction.
  receive-sent :
      (tx : Tx) (bytes rest out : List ℕ)
      → IsHash (tx_hash tx)
      → has_tx inv (tx_hash tx) ≡ false
      → Reads (read_tx (tx_hash tx)) bytes tx
      → receive inv fuel
          (on p (live q e id (frame command ++ ((tx_hash tx).bytes ++ (bytes ++ rest))) out))
        ≡ (
          done tt,
          record (on p (live q e id rest ((out ++ frame acknowledgement) ++ bool_byte true))) {
            published = p.published ++ candidate_tx tx ∷ [];
          },
        )
  unfolding receive after_read handle_received_message run_command handle_read_new_tx publish
      list_beq
  receive-sent tx bytes rest out valid lacking got =
      let hash : List ℕ = (tx_hash tx).bytes in
      let inc : List ℕ = hash ++ (bytes ++ rest) in
      let after : Outcome (Unit {0}) × Peer = (
        done tt,
        record (on p (live q e id rest ((out ++ frame acknowledgement) ++ bool_byte true))) {
          published = p.published ++ candidate_tx tx ∷ [];
        },
      ) in
      let handled : handle_received_message inv fuel command (on p (live q e id inc out)) ≡ after =
        send_step p q e id (write_string acknowledgement) _ (frame acknowledgement) inc out after
          (string-Writes acknowledgement (omega arith))
          (check_step p q e id _ inc _ after (
            receive_step p q e id read_hash _ hash (bytes ++ rest) _ (tx_hash tx) after
              (hash-Reads (tx_hash tx) valid)
              (check_step p q e id _ _ _ after (
                rw lacking (
                  send_step p q e id (write_bool true) _ (bool_byte true) _ _ after
                    (bool-Writes true)
                    (receive_step p q e id (read_tx (tx_hash tx)) _ bytes rest _ tx after got
                      (check_step p q e id _ _ _ after refl))))))) in
      ap
        (λ (x : List ℕ × Conn).
          after_read inv fuel (on p (live q e id (frame command ++ inc) out)) x.0 x.1)
        (read-Reads command (omega arith) q e id inc out)
      ∙ ap (λ (x : Outcome (Unit {0}) × Peer). (print_err x.0, x.1)) handled

-- When a peer issues the command `new-tx` for a transaction that it holds, whose fields fit their
-- Go types and whose keys and signatures have fewer than 65536 bytes, and the loop of the other
-- peer, which has not the transaction, receives the message, both on open connections without an
-- error, then there are two byte strings, each sent by one side and all that the other side
-- reads, the two sides end without an error, and the transaction is published at the receiver.
pub issue_command-receive :
    ⦃sha : Sha256⦄ (sender receiver : Inv) (fuel fuel' : ℕ) (p p' : Peer) (q q' : ProtParams)
    (e e' : NetError) (id id' : List ℕ) (tx : Tx) (rest out rest' out' : List ℕ)
    → IsWireTx tx
    → get_tx sender (tx_hash tx) ≡ ok tx
    → has_tx receiver (tx_hash tx) ≡ false
    → (sent answer : List ℕ) × (issue_command sender fuel
          (codes "new-tx")
          (handle_write_new_tx sender (tx_hash tx))
          (on p (live q e id (answer ++ rest) out))
        ≡ (done tt, on p (live q e id rest (out ++ sent))))
      × (receive receiver fuel' (on p' (live q' e' id' (sent ++ rest') out')) ≡ (
        done tt,
        record (on p' (live q' e' id' rest' (out' ++ answer))) {
          published = p'.published ++ candidate_tx tx ∷ [];
        },
      ))
issue_command-receive sender receiver fuel fuel' p p' q q' e e' id id' tx rest out rest' out' wire
      stored lacking =
    let carried : Carries (write_tx tx) (read_tx (tx_hash tx)) tx = read_tx-write_tx tx wire in
    let hash : List ℕ = (tx_hash tx).bytes in
    let bytes : List ℕ = carried.bytes in
    let name : List ℕ = frame command in
    let ack : List ℕ = frame acknowledgement in
    (
      name ++ (hash ++ bytes),
      ack ++ bool_byte true,
      ap
            (λ (l : List ℕ).
              issue_command sender fuel (codes "new-tx") (handle_write_new_tx sender (tx_hash tx))
                (on p (live q e id l out)))
            (append_assoc ack (bool_byte true) rest)
          ∙ issue-sent sender fuel p q e id tx bytes rest out (tx_hash-IsHash tx) stored
              carried.sent
          ∙ ap (λ (l : List ℕ). (done tt, on p (live q e id rest l)))
              (append_assoc (out ++ name) hash bytes ∙ append_assoc out name (hash ++ bytes)),
      ap (λ (l : List ℕ). receive receiver fuel' (on p' (live q' e' id' l out')))
            (append_assoc name (hash ++ bytes) rest'
              ∙ ap (λ (l : List ℕ). name ++ l) (append_assoc hash bytes rest'))
          ∙ receive-sent receiver fuel' p' q' e' id' tx bytes rest' out' (tx_hash-IsHash tx) lacking
              carried.got
          ∙ ap
              (λ (l : List ℕ). (
                done tt,
                record (on p' (live q' e' id' rest' l)) {
                  published = p'.published ++ candidate_tx tx ∷ [];
                },
              ))
              (append_assoc out' ack (bool_byte true)),
    )
