-- ===== src/Prot/Entities.antt =====
-- pkg/prot/core.go: hashes, blocks, merkle nodes and transactions on a connection.
use basiccoin.Base.{ℕ, zero, suc, false, List, [], ◌∷◌, length, if◌then◌else◌}
use basiccoin.Base.Eq.{◌==◌}
use basiccoin.Core.Block.{Block, MerkleNode, zero_block, block_hash, merkle_hash}
use basiccoin.Core.Tx.{TxIn, TxOut, Tx, tx_hash}
use basiccoin.Hash.{HashT, hash_eq, zero_hash}
use basiccoin.Hash.Digest.{Sha256}
use basiccoin.Prot.{
  Io, ◌>>=◌, ◌>>◌, pure, fail, unless_err, wrong_id, read_raw, write_raw, read, write, read_uint64,
  write_uint64, read_bool, write_bool,
}

unfoldable pub read_hash : Io HashT
read_hash =
    unless_err zero_hash
      (do raw ← read_raw 32; unless_err zero_hash (pure (record { bytes = raw })))

unfoldable pub write_hash : HashT → Io (Unit {0})
write_hash h = unless_err tt (write_raw h.bytes)

abbrev pub zero_merkle : MerkleNode
zero_merkle = record { l_child = zero_hash; r_child = zero_hash }

abbrev pub zero_tx : Tx
zero_tx = record { is_coinbase = false; min_block = 0; inputs = []; outputs = [] }

-- The loops of `ReadTx`.
unfoldable pub read_tx_in : Io TxIn
read_tx_in = do
  tx_id ← read_hash
  ind ← read_uint64
  value ← read_uint64
  public_key ← read
  signature ← read
  pure (record {
    utxo = record { tx_id = tx_id; ind = ind; value = value };
    public_key = public_key;
    signature = signature;
  })

unfoldable pub read_tx_out : Io TxOut
read_tx_out = do
  value ← read_uint64
  public_key_hash ← read_hash
  pure (record { value = value; public_key_hash = public_key_hash })

unfoldable pub read_many {ℓ} : {A : Type ℓ} → Io A → ℕ → Io (List A)
read_many item zero = pure []
read_many item (suc n) = do a ← item; rest ← read_many item n; pure (a ∷ rest)

unfoldable pub write_many {ℓ} : {A : Type ℓ} → (A → Io (Unit {0})) → List A → Io (Unit {0})
write_many item [] = pure tt
write_many item (a ∷ rest) = do item a; write_many item rest

unfoldable pub write_tx_in : TxIn → Io (Unit {0})
write_tx_in txi = do
  write_hash txi.utxo.tx_id
  write_uint64 txi.utxo.ind
  write_uint64 txi.utxo.value
  write txi.public_key
  write txi.signature

unfoldable pub write_tx_out : TxOut → Io (Unit {0})
write_tx_out txo = do write_uint64 txo.value; write_hash txo.public_key_hash

unfoldable pub write_block_fields : Block → Io (Unit {0})
write_block_fields b = do
  write_hash b.prev_block_id
  write_hash b.merkle_root
  write_hash b.target
  write_hash b.noise
  write_uint64 b.nonce
  write_uint64 b.mined_time

unfoldable pub write_block : Block → Io (Unit {0})
write_block b = unless_err tt (write_block_fields b)

unfoldable pub write_merkle_fields : MerkleNode → Io (Unit {0})
write_merkle_fields node = do write_hash node.l_child; write_hash node.r_child

unfoldable pub write_merkle : MerkleNode → Io (Unit {0})
write_merkle node = unless_err tt (write_merkle_fields node)

unfoldable pub write_tx_fields : Tx → Io (Unit {0})
write_tx_fields tx = do
  write_bool tx.is_coinbase
  write_uint64 tx.min_block
  write_uint64 (length tx.inputs)
  write_uint64 (length tx.outputs)
  write_many write_tx_in tx.inputs
  write_many write_tx_out tx.outputs

unfoldable pub write_tx : Tx → Io (Unit {0})
write_tx tx = unless_err tt (write_tx_fields tx)

unfoldable pub read_block_fields : Io Block
read_block_fields = do
  prev_block_id ← read_hash
  merkle_root ← read_hash
  target ← read_hash
  noise ← read_hash
  nonce ← read_uint64
  mined_time ← read_uint64
  pure (record {
    prev_block_id = prev_block_id;
    merkle_root = merkle_root;
    target = target;
    noise = noise;
    nonce = nonce;
    mined_time = mined_time;
  })

unfoldable pub read_merkle_fields : Io MerkleNode
read_merkle_fields = do
  l_child ← read_hash
  r_child ← read_hash
  pure (record { l_child = l_child; r_child = r_child })

-- An error in the sizes ends the reading. Go makes the slices for the items at once.
unfoldable pub read_tx_fields : Io Tx
read_tx_fields = do
  is_coinbase ← read_bool
  min_block ← read_uint64
  num_inputs ← read_uint64
  num_outputs ← read_uint64
  unless_err zero_tx (do
    inputs ← read_many read_tx_in num_inputs
    outputs ← read_many read_tx_out num_outputs
    pure (record {
      is_coinbase = is_coinbase;
      min_block = min_block;
      inputs = inputs;
      outputs = outputs;
    }))

module _ ⦃sha : Sha256⦄ where
  unfoldable pub read_block : HashT → Io Block
  read_block expect_id = unless_err zero_block (do
    block ← read_block_fields
    unless_err zero_block
        (if block_hash block == expect_id then pure block else fail zero_block wrong_id))

  unfoldable pub read_merkle : HashT → Io MerkleNode
  read_merkle expect_id = unless_err zero_merkle (do
    merkle ← read_merkle_fields
    unless_err zero_merkle
        (if merkle_hash merkle == expect_id then pure merkle else fail zero_merkle wrong_id))

  unfoldable pub read_tx : HashT → Io Tx
  read_tx expect_id = unless_err zero_tx (do
    tx ← read_tx_fields
    unless_err zero_tx (if tx_hash tx == expect_id then pure tx else fail zero_tx wrong_id))
