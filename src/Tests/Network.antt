-- ===== src/Tests/Network.antt =====
-- Two peers at concrete inputs.
use basiccoin.Base.{
  ℕ, ◌≡◌, ◌≢◌, refl, true, false, some, List, [], ◌∷◌, ◌++◌, arith, replicate, length-replicate,
}
use basiccoin.Base.Eq.{list_beq}
use basiccoin.Base.Result.{ok}
use basiccoin.Collections.Map as Map
use basiccoin.Core.Block.{block_hash, merkle_hash}
use basiccoin.Core.Block.Ids.{merkle_hash-IsHash, block_hash-IsHash}
use basiccoin.Core.Params.{codes}
use basiccoin.Core.Tx.{tx_hash, tx_in_hash, tx_out_hash, utxo_hash}
use basiccoin.Hash.{HashT, zero_hash, eq, eq_zero, of_bytes, fill_bytes}
use basiccoin.Hash.Digest.{
  dhash_bytes, dhash_uint64, dhash_bool, concat_bytes, dhash_hashes, dhash_list,
}
use basiccoin.Hash.Value.{zero_hash-IsHash}
use basiccoin.Inv.{
  new_inv, has_block, has_tx, get_tx, get_block_parent_id, get_block_record, get_block,
}
use basiccoin.Peer.Announce.{on, issue_command-receive}
use basiccoin.Peer.Commands.{issue_command, receive}
use basiccoin.Peer.Handlers.{handle_write_new_tx}
use basiccoin.Peer.Negotiation.{Gap, refusals, ids_after, find_inbound-find_outbound}
use basiccoin.Peer.Session.{done}
use basiccoin.Peer.State.{Peer, candidate_tx}
use basiccoin.Peer.Sync.{find_outbound, find_inbound}
use basiccoin.Prot.{ProtParams, timeout, self_connection, read, write}
use basiccoin.Prot.Codec.{Reads, Writes, live, frame, bool_byte, read-write_65536}
use basiccoin.Prot.Entities.{read_block, write_block, read_tx, write_tx}
use basiccoin.Prot.Handshake.{handshake}
use basiccoin.Prot.Meeting.{hello, handshake-continues, handshake_self}
use basiccoin.Prot.RoundTrip.{
  Carries, IsWireBlock, IsWireTx, read_block-write_block, read_tx-write_tx,
}
use basiccoin.Tests.Samples.{
  sample_sha, sample_params, easy_target-IsHash, coinbase, node, first_block, inv₁, inv₂, inv₃,
}

-- Our side and the peer's.
abbrev ours : ProtParams
ours = record { runtime_id = codes "a"; we_are_initiator = true }

abbrev theirs : ProtParams
theirs = record { runtime_id = codes "b"; we_are_initiator = false }

first_block-IsWireBlock : IsWireBlock first_block
first_block-IsWireBlock = record {
  prev = zero_hash-IsHash;
  root = merkle_hash-IsHash node;
  target = easy_target-IsHash;
  noise = zero_hash-IsHash;
  nonce = omega arith;
  mined_time = omega arith;
}

coinbase-IsWireTx : IsWireTx coinbase
coinbase-IsWireTx = record {
  min_block = omega arith;
  num_inputs = omega arith;
  num_outputs = omega arith;
  inputs = tt;
  outputs = (record { value = omega arith; public_key_hash = zero_hash-IsHash }, tt);
}

read_block-write_block_example :
    Carries (write_block first_block) (read_block (block_hash first_block)) first_block
read_block-write_block_example = read_block-write_block first_block first_block-IsWireBlock

read_tx-write_tx_example : Carries (write_tx coinbase) (read_tx (tx_hash coinbase)) coinbase
read_tx-write_tx_example = read_tx-write_tx coinbase coinbase-IsWireTx

read-write_65536_example :
    Writes (write (replicate 65536 7)) (0 ∷ 0 ∷ replicate 65536 7) × Reads read (0 ∷ 0 ∷ []) []
read-write_65536_example = read-write_65536 (replicate 65536 7) (length-replicate {A = ℕ} 65536 7)

other_id : codes "b" ≢ codes "a"
other_id = ground arith

handshake-continues_example :
    handshake (live ours timeout [] (hello (codes "b") ++ (frame (codes "continue") ++ [])) [])
    ≡ (tt, live ours timeout (codes "b") [] (([] ++ hello (codes "a")) ++ frame (codes "continue")))
handshake-continues_example =
    handshake-continues ours timeout [] (codes "b") [] [] (omega arith) (omega arith) other_id

handshake_self_example : handshake (live ours timeout [] (hello (codes "a") ++ []) []) ≡ (
  tt,
  record (live ours timeout [] [] (([] ++ hello (codes "a")) ++ frame (codes "cancel"))) {
    err = some self_connection;
    is_closed = true;
  },
)
handshake_self_example = handshake_self ours timeout [] [] [] (omega arith)

first_lacking : has_block inv₂ (block_hash first_block) ≡ false
unfolding has_block Map.has new_inv Map.lookup Map.insert list_beq eq tx_hash block_hash merkle_hash
    dhash_bytes dhash_uint64 dhash_bool dhash_hashes dhash_list concat_bytes of_bytes fill_bytes
    tx_in_hash tx_out_hash utxo_hash
first_lacking = refl

root_shared : has_block inv₂ zero_hash ≡ true
unfolding has_block Map.has new_inv Map.lookup Map.insert list_beq eq
root_shared = refl

first_parent : get_block_parent_id inv₃ (block_hash first_block) ≡ ok zero_hash
unfolding get_block_parent_id eq_zero get_block_record get_block new_inv Map.lookup Map.insert
    list_beq eq tx_hash block_hash merkle_hash dhash_bytes dhash_uint64 dhash_bool dhash_hashes
    dhash_list concat_bytes of_bytes fill_bytes tx_in_hash tx_out_hash utxo_hash
first_parent = refl

gap : Gap inv₃ inv₂ (block_hash first_block) (block_hash first_block ∷ []) zero_hash
gap = (
  refl,
  block_hash-IsHash first_block,
  first_lacking,
  (zero_hash, first_parent, (refl, zero_hash-IsHash, root_shared)),
)

find_inbound-find_outbound_example :
    let needed : List HashT = block_hash first_block ∷ [] in
    let sent : List ℕ = (block_hash first_block).bytes ++ ids_after needed zero_hash in
    let answer : List ℕ = refusals needed ++ bool_byte true in
    (find_outbound inv₃ 5 (block_hash first_block) (live ours timeout [] (answer ++ []) [])
      ≡ (done (needed, zero_hash), live ours timeout [] [] ([] ++ sent)))
    × (find_inbound inv₂ 7 (live theirs timeout [] (sent ++ []) []) ≡ (
      done (block_hash first_block, (needed, zero_hash)),
      live theirs timeout [] [] ([] ++ answer),
    ))
find_inbound-find_outbound_example =
    find_inbound-find_outbound inv₃ inv₂ 5 7 ours theirs timeout timeout [] []
      (block_hash first_block) (block_hash first_block ∷ []) zero_hash [] [] [] [] (omega arith)
      (omega arith) gap

coinbase_held : get_tx inv₁ (tx_hash coinbase) ≡ ok coinbase
unfolding get_tx new_inv Map.lookup Map.insert list_beq eq tx_hash dhash_bytes dhash_uint64
    dhash_bool dhash_hashes dhash_list concat_bytes of_bytes fill_bytes tx_in_hash tx_out_hash
    utxo_hash
coinbase_held = refl

coinbase_lacking : has_tx (new_inv sample_params) (tx_hash coinbase) ≡ false
unfolding has_tx Map.has new_inv Map.lookup
coinbase_lacking = refl

abbrev sample_peer : ProtParams → Peer
sample_peer params = record {
  conn = live params timeout [] [] [];
  should_close = false;
  cur_head = zero_hash;
  published = [];
}

issue_command-receive_example :
    (sent answer : List ℕ) × (issue_command inv₁ 5
        (codes "new-tx")
        (handle_write_new_tx inv₁ (tx_hash coinbase))
        (on (sample_peer ours) (live ours timeout [] (answer ++ []) []))
      ≡ (done tt, on (sample_peer ours) (live ours timeout [] [] ([] ++ sent))))
    × (receive
          (new_inv sample_params)
          5
          (on (sample_peer theirs) (live theirs timeout [] (sent ++ []) []))
        ≡ (
          done tt,
          record (on (sample_peer theirs) (live theirs timeout [] [] ([] ++ answer))) {
            published = [] ++ candidate_tx coinbase ∷ [];
          },
        ))
issue_command-receive_example =
    issue_command-receive inv₁ (new_inv sample_params) 5 5 (sample_peer ours) (sample_peer theirs)
      ours theirs timeout timeout [] [] coinbase [] [] [] [] coinbase-IsWireTx coinbase_held
      coinbase_lacking
