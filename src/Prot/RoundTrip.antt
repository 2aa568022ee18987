-- ===== src/Prot/RoundTrip.antt =====
-- Reading what was written, for the entities of pkg/prot/core.go.
use mathlib.Core.List.{append-nil}
use basiccoin.Base.{
  sym, ℕ, ◌^◌, ◌<◌, ◌≡◌, refl, ap, Bool, true, List, [], ◌∷◌, ◌++◌, arith, length, All,
  if◌then◌else◌,
}
use basiccoin.Base.Eq.{◌==◌, beq_refl}
use basiccoin.Core.Block.{Block, MerkleNode, zero_block, block_hash, merkle_hash}
use basiccoin.Core.Tx.{TxIn, TxOut, Tx, tx_hash}
use basiccoin.Hash.{HashT, IsHash, hash_eq, zero_hash, fill_bytes}
use basiccoin.Hash.Digest.{Sha256}
use basiccoin.Prot.{
  Io, pure, fail, unless_err, read_raw, read, write, read_uint64, write_uint64, read_bool,
  write_bool, wrong_id, ◌>>=◌, ◌>>◌,
}
use basiccoin.Prot.Codec.{
  live, Reads, Writes, Reads->>=, Reads-last, Writes->>, read_raw-Reads, write_raw-Writes, frame,
  read-Reads, write-Writes, uint64-Reads, uint64-Writes, bool_byte, bool-Reads, bool-Writes,
}
use basiccoin.Prot.Entities.{
  zero_merkle, zero_tx, read_hash, write_hash, read_tx_in, read_tx_out, read_many, write_many,
  write_tx_in, write_tx_out, write_block, write_merkle, write_tx, read_block, read_merkle, read_tx,
  write_block_fields, read_block_fields, write_merkle_fields, read_merkle_fields, write_tx_fields,
  read_tx_fields,
}

pub hash-Reads : (h : HashT) → IsHash h → Reads read_hash h.bytes h
unfolding read_hash
hash-Reads h v =
    Reads-last (read_raw 32) (λ raw. unless_err zero_hash (pure (record { bytes = raw }))) h.bytes
      h.bytes h (read_raw-Reads 32 h.bytes v.size) (λ p s r rest out. refl)

pub hash-Writes : (h : HashT) → IsHash h → Writes (write_hash h) h.bytes
unfolding write_hash
hash-Writes h v = write_raw-Writes h.bytes (omega (arith, v.size))

-- What the fields of Go's types hold: 32 bytes in a hash, 64 bits in a number, and keys and
-- signatures whose size fits in 16 bits.
pub record IsWireBlock (b : Block) : Type 0 where
  pub prev : IsHash b.prev_block_id
  pub root : IsHash b.merkle_root
  pub target : IsHash b.target
  pub noise : IsHash b.noise
  pub nonce : b.nonce < 2 ^ 64
  pub mined_time : b.mined_time < 2 ^ 64

pub record IsWireTxIn (txi : TxIn) : Type 0 where
  pub tx_id : IsHash txi.utxo.tx_id
  pub ind : txi.utxo.ind < 2 ^ 64
  pub value : txi.utxo.value < 2 ^ 64
  pub public_key : length txi.public_key < 65536
  pub signature : length txi.signature < 65536

pub record IsWireTxOut (txo : TxOut) : Type 0 where
  pub value : txo.value < 2 ^ 64
  pub public_key_hash : IsHash txo.public_key_hash

pub record IsWireTx (tx : Tx) : Type 0 where
  pub min_block : tx.min_block < 2 ^ 64
  pub num_inputs : length tx.inputs < 2 ^ 64
  pub num_outputs : length tx.outputs < 2 ^ 64
  pub inputs : All IsWireTxIn tx.inputs
  pub outputs : All IsWireTxOut tx.outputs

-- There are bytes that the one operation sends, and that the other reads back.
pub record Carries {ℓ} {A : Type ℓ} (w : Io (Unit {0})) (m : Io A) (a : A) : Type ℓ where
  pub bytes : List ℕ
  pub sent : Writes w bytes
  pub got : Reads m bytes a

hash-Carries : (h : HashT) → IsHash h → Carries (write_hash h) read_hash h
hash-Carries h v = record { bytes = h.bytes; sent = hash-Writes h v; got = hash-Reads h v }

uint64-Carries : (n : ℕ) → n < 2 ^ 64 → Carries (write_uint64 n) read_uint64 n
uint64-Carries n small = record {
  bytes = fill_bytes 8 n;
  sent = uint64-Writes n;
  got = uint64-Reads n small;
}

bytes-Carries : (bs : List ℕ) → length bs < 65536 → Carries (write bs) read bs
bytes-Carries bs small = record {
  bytes = frame bs;
  sent = write-Writes bs (omega arith);
  got = read-Reads bs small;
}

bool-Carries : (b : Bool) → Carries (write_bool b) read_bool b
bool-Carries b = record { bytes = bool_byte b; sent = bool-Writes b; got = bool-Reads b }

>>=-Carries {ℓ κ} :
    {A : Type ℓ} {B : Type κ} (w v : Io (Unit {0})) (m : Io A) (f : A → Io B) (a : A) (b : B)
    → Carries w m a
    → Carries v (f a) b
    → Carries (w >> v) (m >>= f) b
>>=-Carries w v m f a b h k = record {
  bytes = h.bytes ++ k.bytes;
  sent = Writes->> w v h.bytes k.bytes h.sent k.sent;
  got = Reads->>= m f h.bytes k.bytes a b h.got k.got;
}

-- The last value, and what is made of the values.
last-Carries {ℓ κ} :
    {A : Type ℓ} {B : Type κ} (w : Io (Unit {0})) (m : Io A) (f : A → Io B) (a : A) (b : B)
    → Carries w m a
    → Reads (f a) [] b
    → Carries w (m >>= f) b
last-Carries w m f a b h end = record {
  bytes = h.bytes;
  sent = h.sent;
  got = Reads-last m f h.bytes a b h.got end;
}

-- With a test for a stored error before either, and one for the id at the end.
checked-Carries {ℓ} :
    {A : Type ℓ} (w : Io (Unit {0})) (m : Io A) (zero_value : A) (test : A → Bool) (a : A)
    → Carries w m a
    → test a ≡ true
    → Carries
        (unless_err tt w)
        (unless_err zero_value
          (m >>= λ x. unless_err zero_value (if test x then pure x else fail zero_value wrong_id)))
        a
checked-Carries w m zero_value test a h e = record {
  bytes = h.bytes;
  sent = h.sent;
  got =
      Reads-last m
        (λ x. unless_err zero_value (if test x then pure x else fail zero_value wrong_id)) h.bytes a
        a h.got (λ p s q rest out. rw e refl);
}

guarded-Carries {ℓ} :
    {A : Type ℓ} (w : Io (Unit {0})) (m : Io A) (zero_value a : A)
    → Carries w m a
    → Carries w (unless_err zero_value m) a
guarded-Carries w m zero_value a h = record { bytes = h.bytes; sent = h.sent; got = h.got }

many-Carries {ℓ κ} :
    {A : Type ℓ} (IsWire : A → Type κ) (w : A → Io (Unit {0})) (m : Io A)
    → ((a : A) → IsWire a → Carries (w a) m a)
    → (items : List A) → All IsWire items
    → Carries (write_many w items) (read_many m (length items)) items
unfolding write_many read_many
many-Carries IsWire w m each [] h = record {
  bytes = [];
  sent = λ p s q inc out. ap (λ (l : List ℕ). (tt, live p s q inc l)) (sym (append-nil out));
  got = λ p s q rest out. refl;
}
many-Carries IsWire w m each (a ∷ items) h =
    >>=-Carries (w a) (write_many w items) m
      (λ x. read_many m (length items) >>= λ rest. pure (x ∷ rest)) a (a ∷ items) (each a h.0)
      (last-Carries (write_many w items) (read_many m (length items)) (λ rest. pure (a ∷ rest))
        items (a ∷ items) (many-Carries IsWire w m each items h.1) (λ p s q rest out. refl))

tx_in-Carries : (txi : TxIn) → IsWireTxIn txi → Carries (write_tx_in txi) read_tx_in txi
unfolding write_tx_in read_tx_in
tx_in-Carries txi v = >>=-Carries _ _ _ _ txi.utxo.tx_id txi (hash-Carries _ v.tx_id) (
    >>=-Carries _ _ _ _ txi.utxo.ind txi (uint64-Carries _ v.ind) (
      >>=-Carries _ _ _ _ txi.utxo.value txi (uint64-Carries _ v.value) (
        >>=-Carries _ _ _ _ txi.public_key txi (bytes-Carries _ v.public_key) (
          last-Carries _ _ _ txi.signature txi (bytes-Carries _ v.signature)
            (λ p s q rest out. refl)))))

tx_out-Carries : (txo : TxOut) → IsWireTxOut txo → Carries (write_tx_out txo) read_tx_out txo
unfolding write_tx_out read_tx_out
tx_out-Carries txo v = >>=-Carries _ _ _ _ txo.value txo (uint64-Carries _ v.value) (
    last-Carries _ _ _ txo.public_key_hash txo (hash-Carries _ v.public_key_hash)
      (λ p s q rest out. refl))

block-Carries : (b : Block) → IsWireBlock b → Carries (write_block_fields b) read_block_fields b
unfolding write_block_fields read_block_fields
block-Carries b v = >>=-Carries _ _ _ _ b.prev_block_id b (hash-Carries _ v.prev) (
    >>=-Carries _ _ _ _ b.merkle_root b (hash-Carries _ v.root) (
      >>=-Carries _ _ _ _ b.target b (hash-Carries _ v.target) (
        >>=-Carries _ _ _ _ b.noise b (hash-Carries _ v.noise) (
          >>=-Carries _ _ _ _ b.nonce b (uint64-Carries _ v.nonce) (
            last-Carries _ _ _ b.mined_time b (uint64-Carries _ v.mined_time)
              (λ p s q rest out. refl))))))

merkle-Carries :
    (node : MerkleNode)
    → IsHash node.l_child
    → IsHash node.r_child
    → Carries (write_merkle_fields node) read_merkle_fields node
unfolding write_merkle_fields read_merkle_fields
merkle-Carries node l r =
    >>=-Carries _ _ _ _ node.l_child node (hash-Carries _ l)
      (last-Carries _ _ _ node.r_child node (hash-Carries _ r) (λ p s q rest out. refl))

tx-Carries : (tx : Tx) → IsWireTx tx → Carries (write_tx_fields tx) read_tx_fields tx
unfolding write_tx_fields read_tx_fields
tx-Carries tx v = >>=-Carries _ _ _ _ tx.is_coinbase tx (bool-Carries _) (
    >>=-Carries _ _ _ _ tx.min_block tx (uint64-Carries _ v.min_block) (
      >>=-Carries _ _ _ _ (length tx.inputs) tx (uint64-Carries _ v.num_inputs) (
        >>=-Carries _ _ _ _ (length tx.outputs) tx (uint64-Carries _ v.num_outputs) (
          guarded-Carries _ _ zero_tx tx (
            >>=-Carries _ _ _ _ tx.inputs tx
              (many-Carries IsWireTxIn write_tx_in read_tx_in tx_in-Carries tx.inputs v.inputs)
              (last-Carries _ _ _ tx.outputs tx
                (many-Carries IsWireTxOut write_tx_out read_tx_out tx_out-Carries tx.outputs
                  v.outputs)
                (λ p s q rest out. refl)))))))

module _ ⦃sha : Sha256⦄ where
  -- There are bytes that `WriteBlock` sends and from which `ReadBlock`, expecting the block's id,
  -- gives the block back, leaving what follows unread, when the hashes have 32 bytes and the
  -- numbers are below 2^64.
  pub read_block-write_block :
      (b : Block) → IsWireBlock b → Carries (write_block b) (read_block (block_hash b)) b
  unfolding write_block read_block
  read_block-write_block b v =
      checked-Carries (write_block_fields b) read_block_fields zero_block
        (λ x. block_hash x == block_hash b) b (block-Carries b v) (beq_refl (block_hash b))

  -- There are bytes that `WriteMerkle` sends and from which `ReadMerkle`, expecting the node's
  -- id, gives the node back, leaving what follows unread, when its children's ids have 32 bytes.
  read_merkle-write_merkle :
      (node : MerkleNode)
      → IsHash node.l_child
      → IsHash node.r_child
      → Carries (write_merkle node) (read_merkle (merkle_hash node)) node
  unfolding write_merkle read_merkle
  read_merkle-write_merkle node l r =
      checked-Carries (write_merkle_fields node) read_merkle_fields zero_merkle
        (λ x. merkle_hash x == merkle_hash node) node (merkle-Carries node l r)
        (beq_refl (merkle_hash node))

  -- There are bytes that `WriteTx` sends and from which `ReadTx`, expecting the transaction's id,
  -- gives the transaction back, leaving what follows unread, when the fields fit their Go types
  -- and each key and signature has fewer than 65536 bytes.
  pub read_tx-write_tx : (tx : Tx) → IsWireTx tx → Carries (write_tx tx) (read_tx (tx_hash tx)) tx
  unfolding write_tx read_tx
  read_tx-write_tx tx v =
      checked-Carries (write_tx_fields tx) read_tx_fields zero_tx (λ x. tx_hash x == tx_hash tx) tx
        (tx-Carries tx v) (beq_refl (tx_hash tx))
