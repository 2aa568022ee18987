-- ===== src/Peer/Negotiation.antt =====
-- The search for the last common block in internal/peer/sync.go, from both sides.
use mathlib.Core.Path.{subst}
use mathlib.Core.List.{append_assoc, append-nil}
use basiccoin.Base.{
  ℕ, zero, suc, ◌<◌, ◌≡◌, refl, ap, sym, ◌∙◌, Bool, true, false, List, [], ◌∷◌, ◌++◌, arith, length,
}
use basiccoin.Base.Result.{Result, ok}
use basiccoin.Hash.{HashT, IsHash}
use basiccoin.Inv.{Inv, has_block, get_block_parent_id}
use basiccoin.Peer.Session.{
  Outcome, done, Session, continue_with, ◌>>=◌, ◌>>◌, on_conn, from_inv, has_err,
}
use basiccoin.Peer.Sync.{offer, find_outbound, look_up, find_inbound}
use basiccoin.Prot.{Conn, NetError, ProtParams, Io, write_bool, read_bool}
use basiccoin.Prot.Codec.{live, bool_byte, bool-Reads, bool-Writes}
use basiccoin.Prot.Entities.{read_hash, write_hash}
use basiccoin.Prot.RoundTrip.{hash-Reads, hash-Writes}

pub then_step :
    {A B : Type 0} (m : Session A) (f : A → Session B) (c d : Conn) (a : A) (r : Outcome B × Conn)
    → m c ≡ (done a, d)
    → f a d ≡ r
    → (m >>= f) c ≡ r
unfolding ◌>>=◌
then_step {A = A} m f c d a r h k = ap (λ (x : Outcome A × Conn). continue_with f x.0 x.1) h ∙ k

pub next_step :
    {B : Type 0} (m : Session (Unit {0})) (k : Session B) (c d : Conn) (r : Outcome B × Conn)
    → m c ≡ (done tt, d)
    → k d ≡ r
    → (m >> k) c ≡ r
unfolding ◌>>◌
next_step m k c d r h e =
    ap (λ (x : Outcome (Unit {0}) × Conn). continue_with (λ _. k) x.0 x.1) h ∙ e

pub on_conn-done :
    {A : Type 0} (m : Io A) (c d : Conn) (a : A) → m c ≡ (a, d) → on_conn m c ≡ (done a, d)
unfolding on_conn
on_conn-done {A = A} m c d a h = ap (λ (x : A × Conn). (done x.0, x.1)) h

pub from_inv-done :
    {A : Type 0} (r : Result A) (a : A) (c : Conn) → r ≡ ok a → from_inv r c ≡ (done a, c)
unfolding from_inv
from_inv-done {A = A} r a c h = ap (λ (x : Result A). from_inv x c) h

-- The blocks from the head down that the receiver lacks, by the sender's parents, and the first one
-- that it has.
abbrev pub Gap : Inv → Inv → HashT → List HashT → HashT → Type 0
Gap sender receiver head [] lca = (head ≡ lca) × IsHash head × (has_block receiver head ≡ true)
Gap sender receiver head (id ∷ ids) lca =
    (head ≡ id)
    × IsHash head
    × (has_block receiver head ≡ false)
    × ((parent : HashT) × (get_block_parent_id sender head ≡ ok parent)
        × Gap sender receiver parent ids lca)

-- The ids that go out after the first one, and the answers that come back.
abbrev pub first_of : List HashT → HashT → HashT
first_of [] lca = lca
first_of (id ∷ ids) lca = id

abbrev pub ids_after : List HashT → HashT → List ℕ
ids_after [] lca = []
ids_after (id ∷ ids) lca = (first_of ids lca).bytes ++ ids_after ids lca

abbrev pub is_nil : List HashT → Bool
is_nil [] = true
is_nil (id ∷ ids) = false

abbrev pub answers_after : List HashT → List ℕ
answers_after [] = []
answers_after (id ∷ ids) = bool_byte (is_nil ids) ++ answers_after ids

abbrev pub refusals : List HashT → List ℕ
refusals [] = []
refusals (id ∷ ids) = bool_byte false ++ refusals ids

Gap-first :
    (s r : Inv) (head : HashT) (needed : List HashT) (lca : HashT)
    → Gap s r head needed lca
    → head ≡ first_of needed lca
Gap-first s r head [] lca h = h.0
Gap-first s r head (id ∷ ids) lca h = h.0

Gap-IsHash :
    (s r : Inv) (head : HashT) (needed : List HashT) (lca : HashT)
    → Gap s r head needed lca
    → IsHash head
Gap-IsHash s r head [] lca h = let (same, valid, has) = h in valid
Gap-IsHash s r head (id ∷ ids) lca h = let (same, valid, lacking, below) = h in valid

-- The answers, from the receiver's side and from the sender's.
refusals-answers :
    (needed : List HashT)
    → refusals needed ++ bool_byte true ≡ bool_byte (is_nil needed) ++ answers_after needed
refusals-answers [] = refl
refusals-answers (id ∷ ids) = ap (λ (l : List ℕ). 0 ∷ l) (refusals-answers ids)

offer_lem :
    (s r : Inv) (p : ProtParams) (e : NetError) (q : List ℕ) (fuel : ℕ) (acc : List HashT)
    (head : HashT) (needed : List HashT) (lca : HashT) (rest out : List ℕ)
    → length needed < fuel
    → Gap s r head needed lca
    → offer s fuel acc head (is_nil needed) (live p e q (answers_after needed ++ rest) out)
      ≡ (done (acc ++ needed, lca), live p e q rest (out ++ ids_after needed lca))
unfolding offer has_err
offer_lem s r p e q zero acc head needed lca rest out enough gap = absurd (omega arith)
offer_lem s r p e q (suc fuel) acc head [] lca rest out enough gap =
    λ i. (done (sym (append-nil acc) i, gap.0 i), live p e q rest (sym (append-nil out) i))
offer_lem s r p e q (suc fuel) acc head (id ∷ ids) lca rest out enough gap =
    let (same, _, _, (parent, parent_known, below)) = gap in
    let inc : List ℕ = answers_after ids ++ rest in
    let next : HashT = first_of ids lca in
    let same_parent : parent ≡ next = Gap-first s r parent ids lca below in
    let c : Conn = live p e q ((bool_byte (is_nil ids) ++ answers_after ids) ++ rest) out in
    then_step (from_inv (get_block_parent_id s head)) _ c c parent _
      (from_inv-done _ parent c parent_known)
      (next_step (on_conn (write_hash parent)) _ c
        (live p e q (bool_byte (is_nil ids) ++ inc) (out ++ next.bytes)) _
        (on_conn-done (write_hash parent) c _ tt (
          hash-Writes parent (Gap-IsHash s r parent ids lca below) p e q _ out ∙ λ i. (
            tt,
            live p e q (append_assoc (bool_byte (is_nil ids)) (answers_after ids) rest i)
                (out ++ (same_parent i).bytes),
          )))
        (then_step (on_conn read_bool) (λ resp. offer s fuel (acc ++ head ∷ []) parent resp) _
          (live p e q inc (out ++ next.bytes)) (is_nil ids) _
          (on_conn-done read_bool _ _ (is_nil ids)
            (bool-Reads (is_nil ids) p e q inc (out ++ next.bytes)))
          (offer_lem s r p e q fuel (acc ++ head ∷ []) parent ids lca rest (out ++ next.bytes)
              (omega arith) below
            ∙ λ i. (
              done (
                (append_assoc acc (head ∷ []) ids ∙ ap (λ (x : HashT). acc ++ x ∷ ids) same) i,
                lca,
              ),
              live p e q rest (append_assoc out next.bytes (ids_after ids lca) i),
            ))))

look_up_lem :
    (s r : Inv) (p : ProtParams) (e : NetError) (q : List ℕ) (fuel : ℕ) (acc : List HashT)
    (head : HashT) (needed : List HashT) (lca : HashT) (rest out : List ℕ)
    → length needed < fuel
    → Gap s r head needed lca
    → look_up r fuel acc head (live p e q (ids_after needed lca ++ rest) out)
      ≡ (done (acc ++ needed, lca), live p e q rest (out ++ refusals needed))
unfolding look_up has_err
look_up_lem s r p e q zero acc head needed lca rest out enough gap = absurd (omega arith)
look_up_lem s r p e q (suc fuel) acc head [] lca rest out enough gap =
    let (same, valid, has) = gap in
    rw has (λ i. (done (sym (append-nil acc) i, same i), live p e q rest (sym (append-nil out) i)))
look_up_lem s r p e q (suc fuel) acc head (id ∷ ids) lca rest out enough gap =
    let (same, _, lacking, (parent, parent_known, below)) = gap in
    let next : HashT = first_of ids lca in
    let same_parent : parent ≡ next = Gap-first s r parent ids lca below in
    let inc : List ℕ = ids_after ids lca ++ rest in
    let c : Conn = live p e q ((next.bytes ++ ids_after ids lca) ++ rest) out in
    rw lacking (
      next_step (on_conn (write_bool false)) _ c
        (live p e q (next.bytes ++ inc) (out ++ bool_byte false)) _
        (on_conn-done (write_bool false) c _ tt (
          bool-Writes false p e q _ out ∙ λ i. (
            tt,
            live p e q (append_assoc next.bytes (ids_after ids lca) rest i)
                (out ++ bool_byte false),
          )))
        (then_step (on_conn read_hash) (λ x. look_up r fuel (acc ++ head ∷ []) x) _
          (live p e q inc (out ++ bool_byte false)) next _
          (on_conn-done read_hash _ _ next (
            hash-Reads next (subst IsHash same_parent (Gap-IsHash s r parent ids lca below)) p e q
              inc (out ++ bool_byte false)))
          (look_up_lem s r p e q fuel (acc ++ head ∷ []) next ids lca rest (out ++ bool_byte false)
              (omega arith) (subst (λ (x : HashT). Gap s r x ids lca) same_parent below)
            ∙ λ i. (
              done (
                (append_assoc acc (head ∷ []) ids ∙ ap (λ (x : HashT). acc ++ x ∷ ids) same) i,
                lca,
              ),
              live p e q rest (append_assoc out (bool_byte false) (refusals ids) i),
            ))))

-- If the receiver lacks the sender's blocks from the head down to, and without, a block that it
-- has, both sides have more fuel than there are such blocks, and the ids have 32 bytes, then the
-- search loops of `handleOutboundSyncChain` and `handleInboundSyncChain`, each fed what the other
-- sends, both end with that list of blocks and that ancestor, and the receiver with the head too.
pub find_inbound-find_outbound :
    (sender receiver : Inv) (fuel fuel' : ℕ) (p p' : ProtParams) (e e' : NetError) (q q' : List ℕ)
    (head : HashT) (needed : List HashT) (lca : HashT) (rest out rest' out' : List ℕ)
    → length needed < fuel
    → length needed < fuel'
    → Gap sender receiver head needed lca
    → (find_outbound sender fuel head (live p e q ((refusals needed ++ bool_byte true) ++ rest) out)
        ≡ (done (needed, lca), live p e q rest (out ++ (head.bytes ++ ids_after needed lca))))
      × (find_inbound receiver fuel'
            (live p' e' q' ((head.bytes ++ ids_after needed lca) ++ rest') out')
          ≡ (
            done (head, (needed, lca)),
            live p' e' q' rest' (out' ++ (refusals needed ++ bool_byte true)),
          ))
unfolding find_outbound find_inbound
find_inbound-find_outbound s r fuel fuel' p p' e e' q q' head needed lca rest out rest' out' enough
      enough' gap =
    let valid : IsHash head = Gap-IsHash s r head needed lca gap in
    let after : List ℕ = ids_after needed lca in
    let answer : List ℕ = bool_byte (is_nil needed) in
    let more : List ℕ = answers_after needed ++ rest in
    (
      next_step (on_conn (write_hash head)) _ _ (live p e q (answer ++ more) (out ++ head.bytes)) _
          (on_conn-done (write_hash head) _ _ tt (
            hash-Writes head valid p e q _ out ∙ λ i. (
              tt,
              live p e q
                  ((ap (λ (l : List ℕ). l ++ rest) (refusals-answers needed)
                      ∙ append_assoc answer (answers_after needed) rest)
                    i)
                  (out ++ head.bytes),
            )))
          (then_step (on_conn read_bool) (λ resp. offer s fuel [] head resp) _
            (live p e q more (out ++ head.bytes)) (is_nil needed) _
            (on_conn-done read_bool _ _ (is_nil needed)
              (bool-Reads (is_nil needed) p e q more (out ++ head.bytes)))
            (offer_lem s r p e q fuel [] head needed lca rest (out ++ head.bytes) enough gap ∙ λ i.
              (done (needed, lca), live p e q rest (append_assoc out head.bytes after i)))),
      then_step (on_conn read_hash) _ _ (live p' e' q' (after ++ rest') out') head _
          (on_conn-done read_hash _ _ head (
            ap (λ (l : List ℕ). read_hash (live p' e' q' l out'))
              (append_assoc head.bytes after rest')
            ∙ hash-Reads head valid p' e' q' (after ++ rest') out'))
          (then_step (look_up r fuel' [] head) _ _ _ (needed, lca) _
            (look_up_lem s r p' e' q' fuel' [] head needed lca rest' out' enough' gap)
            (next_step (on_conn (write_bool true)) _ _ _ _
              (on_conn-done (write_bool true) _ _ tt
                (bool-Writes true p' e' q' rest' (out' ++ refusals needed)))
              (λ i. (
                done (head, (needed, lca)),
                live p' e' q' rest' (append_assoc out' (refusals needed) (bool_byte true) i),
              )))),
    )
