-- ===== src/Prot/Meeting.antt =====
-- Two peers that shake hands, in pkg/prot/conn.go.
use mathlib.Core.List.{append_assoc}
use basiccoin.Base.{ℕ, ◌<◌, ◌≡◌, ◌≢◌, refl, ap, ◌∙◌, true, false, some, List, ◌++◌, arith, length}
use basiccoin.Base.Eq.{nat_eq, list_beq, list_beq_iff}
use basiccoin.Core.Params.{codes}
use basiccoin.Prot.{
  Conn, NetError, ProtParams, self_connection, Io, ◌>>=◌, ◌>>◌, fail, unless_err, close,
  write_string, read_string, read_string_expected,
}
use basiccoin.Prot.Codec.{live, frame, string-Reads, string-Writes, string_expected-Reads}
use basiccoin.Prot.Handshake.{
  follow_peer, cancel_self, write_runtime_id, set_peer, go_on, choose, handshake_steps, handshake,
}

pub >>=-step {ℓ κ} :
    {A : Type ℓ} {B : Type κ} (m : Io A) (f : A → Io B) (c d : Conn) (a : A) (r : B × Conn)
    → m c ≡ (a, d)
    → f a d ≡ r
    → (m >>= f) c ≡ r
unfolding ◌>>=◌
>>=-step {A = A} m f c d a r h k = ap (λ (x : A × Conn). f x.0 x.1) h ∙ k

pub >>-step {κ} :
    {B : Type κ} (m : Io (Unit {0})) (k : Io B) (c d : Conn) (r : B × Conn)
    → m c ≡ (tt, d)
    → k d ≡ r
    → (m >> k) c ≡ r
unfolding ◌>>◌
>>-step m k c d r h next = ap (λ (x : Unit {0} × Conn). k x.1) h ∙ next

-- What a peer sends at first.
abbrev pub hello : List ℕ → List ℕ
hello runtime_id =
    frame (codes "levilutz/basiccoin") ++ (frame (codes "v0.0.0") ++ frame runtime_id)

-- Up to the choice, from a peer that has said hello.
handshake-hello :
    (p : ProtParams) (s : NetError) (r peer rest out : List ℕ) (result : Unit {0} × Conn)
    → length p.runtime_id < 65536
    → length peer < 65536
    → choose peer (live p s r rest (out ++ hello p.runtime_id)) ≡ result
    → handshake (live p s r (hello peer ++ rest) out) ≡ result
unfolding handshake handshake_steps write_runtime_id
handshake-hello p s r peer rest out result small small' chosen =
    let name : List ℕ = codes "levilutz/basiccoin" in
    let version : List ℕ = codes "v0.0.0" in
    let inc : List ℕ = hello peer ++ rest in
    let inc' : List ℕ = frame version ++ (frame peer ++ rest) in
    let same_in : inc ≡ frame name ++ inc' =
      append_assoc (frame name) (frame version ++ frame peer) rest
      ∙ ap (λ (l : List ℕ). frame name ++ l) (append_assoc (frame version) (frame peer) rest) in
    let same_out : ((out ++ frame name) ++ frame version) ++ frame p.runtime_id
        ≡ out ++ hello p.runtime_id =
      append_assoc (out ++ frame name) (frame version) (frame p.runtime_id)
      ∙ append_assoc out (frame name) (frame version ++ frame p.runtime_id) in
    let sent : List ℕ = out ++ hello p.runtime_id in
    >>-step (write_string name) _ (live p s r inc out) _ result
      (string-Writes name (omega arith) p s r inc out)
      (>>-step (write_string version) _ _ _ result
        (string-Writes version (omega arith) p s r inc (out ++ frame name))
        (>>-step write_runtime_id _ _ (live p s r (frame name ++ inc') sent) result
          (string-Writes p.runtime_id (omega arith) p s r inc _ ∙ λ i.
            (tt, live p s r (same_in i) (same_out i)))
          (>>-step (read_string_expected name) _ _ _ result
            (string_expected-Reads name (omega arith) p s r inc' sent)
            (>>-step (read_string_expected version) _ _ _ result
              (string_expected-Reads version (omega arith) p s r (frame peer ++ rest) sent)
              (>>=-step read_string (λ id. unless_err tt (choose id)) _ _ peer result
                (string-Reads peer small' p s r rest sent) chosen)))))

-- On an open connection without an error, when both runtime ids have fewer than 65536 bytes and
-- differ, the handshake with a peer that sends the protocol's name, its version, its id and
-- `continue` sends the same with our id, takes no other bytes, stores the peer's id and no error.
pub handshake-continues :
    (p : ProtParams) (s : NetError) (r peer rest out : List ℕ)
    → length p.runtime_id < 65536
    → length peer < 65536
    → peer ≢ p.runtime_id
    → handshake (live p s r (hello peer ++ (frame (codes "continue") ++ rest)) out)
      ≡ (tt, live p s peer rest ((out ++ hello p.runtime_id) ++ frame (codes "continue")))
unfolding choose go_on set_peer follow_peer
handshake-continues p s r peer rest out small small' other =
    let word : List ℕ = codes "continue" in
    let sent : List ℕ = out ++ hello p.runtime_id in
    let apart : list_beq peer p.runtime_id ≡ false =
      ground (arith, list_beq_iff peer p.runtime_id) in
    let went_on : go_on peer (live p s r (frame word ++ rest) sent)
        ≡ (tt, live p s peer rest (sent ++ frame word)) =
      >>-step (write_string word) _ _ _ _
        (string-Writes word (omega arith) p s r (frame word ++ rest) sent)
        (>>-step (set_peer peer) _ _ (live p s peer (frame word ++ rest) (sent ++ frame word)) _
          refl
          (>>=-step read_string follow_peer _ (live p s peer rest (sent ++ frame word)) word _
            (string-Reads word (omega arith) p s peer rest (sent ++ frame word))
            (rw ((list_beq_iff word word).1 refl) refl))) in
    handshake-hello p s r peer (frame word ++ rest) out _ small small' (rw apart went_on)

-- On an open connection without an error, the handshake with a peer that sends our own runtime
-- id, of fewer than 65536 bytes, sends `cancel`, stores the error for a connection to ourselves
-- and closes.
pub handshake_self :
    (p : ProtParams) (s : NetError) (r rest out : List ℕ)
    → length p.runtime_id < 65536
    → handshake (live p s r (hello p.runtime_id ++ rest) out) ≡ (
      tt,
      record (live p s r rest ((out ++ hello p.runtime_id) ++ frame (codes "cancel"))) {
        err = some self_connection;
        is_closed = true;
      },
    )
unfolding choose cancel_self close
handshake_self p s r rest out small =
    let word : List ℕ = codes "cancel" in
    let sent : List ℕ = out ++ hello p.runtime_id in
    let cancelled : cancel_self (live p s r rest sent) ≡ (
      tt,
      record (live p s r rest (sent ++ frame word)) {
        err = some self_connection;
        is_closed = true;
      },
    ) =
      >>-step (write_string word) _ _ (live p s r rest (sent ++ frame word)) _
        (string-Writes word (omega arith) p s r rest sent)
        (>>-step (unless_err tt (fail tt self_connection)) close _
          (record (live p s r rest (sent ++ frame word)) { err = some self_connection }) _ refl
          refl) in
    handshake-hello p s r p.runtime_id rest out _ small small
      (rw ((list_beq_iff p.runtime_id p.runtime_id).1 refl) cancelled)
