-- ===== src/Tests/Records.antt =====
-- Records as texts, at concrete inputs.
use basiccoin.Base.{◌≡◌, arith, false, [], ◌∷◌}
use basiccoin.Base.Result.{ok}
use basiccoin.Core.Block.Ids.{tx_hash-IsHash, merkle_hash-IsHash}
use basiccoin.Core.Tx.{tx_hash}
use basiccoin.Hash.{zero_hash}
use basiccoin.Hash.Value.{zero_hash-IsHash}
use basiccoin.Inv.{TxRecord}
use basiccoin.Inv.Serialize.{block_record_string, block_record_from_string}
use basiccoin.Inv.Serialize.RoundTrip.{IsStored, block_record_from_string_lem}
use basiccoin.Inv.Serialize.Txs.{tx_record_string, tx_record_from_string}
use basiccoin.Inv.Serialize.Txs.RoundTrip.{IsStoredTx, tx_record_from_string_lem}
use basiccoin.Tests.Samples.{
  sample_sha, coinbase, node, easy_target-IsHash, first_record, first_work-IsHash,
}

pub first_record-IsStored : IsStored first_record
first_record-IsStored = record {
  prev = zero_hash-IsHash;
  root = merkle_hash-IsHash node;
  target = easy_target-IsHash;
  noise = zero_hash-IsHash;
  nonce = omega arith;
  mined_time = omega arith;
  height = omega arith;
  work = first_work-IsHash;
}

block_record_from_string_lem_example :
    block_record_from_string (block_record_string first_record) ≡ ok first_record
block_record_from_string_lem_example =
    block_record_from_string_lem first_record first_record-IsStored

-- A payment of the first coinbase's output.
abbrev payment_record : TxRecord
payment_record = record {
  tx = record {
    is_coinbase = false;
    min_block = 2;
    inputs =
        record {
          utxo = record { tx_id = tx_hash coinbase; ind = 0; value = 1000 };
          public_key = 1 ∷ 255 ∷ [];
          signature = 3 ∷ 4 ∷ 5 ∷ [];
        }
        ∷ [];
    outputs = record { value = 990; public_key_hash = zero_hash } ∷ [];
  };
  vsize = 200;
}

payment_record-IsStoredTx : IsStoredTx payment_record
payment_record-IsStoredTx = record {
  vsize = omega arith;
  min_block = omega arith;
  num_inputs = omega arith;
  num_outputs = omega arith;
  inputs = (
    record {
      tx_id = tx_hash-IsHash coinbase;
      ind = omega arith;
      value = omega arith;
      public_key = ground arith;
      signature = ground arith;
    },
    tt,
  );
  outputs = (record { value = omega arith; public_key_hash = zero_hash-IsHash }, tt);
}

tx_record_from_string_lem_example :
    tx_record_from_string (tx_record_string payment_record) ≡ ok payment_record
tx_record_from_string_lem_example =
    tx_record_from_string_lem payment_record payment_record-IsStoredTx (λ e. cc)
