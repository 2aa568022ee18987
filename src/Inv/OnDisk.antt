-- ===== src/Inv/OnDisk.antt =====
-- The maps on disk of internal/inv/inv.go: what `NewInv` gives them to name, print and parse.
use basiccoin.Base.{ℕ, ◌≡◌, refl, ap, ◌/◌, ◌%◌, List, [], ◌∷◌, arith}
use basiccoin.Collections.DiskSyncMap.{Texts}
use basiccoin.Collections.DiskSyncMap.Refinement.{IsLawful}
use basiccoin.Hash.{HashT, hash_eq, string, encode_hex, hex_digit}
use basiccoin.Inv.Records.{BlockRecord, MerkleRecord, TxRecord}
use basiccoin.Inv.Serialize.{
  block_record_string, block_record_from_string, merkle_record_string, merkle_record_from_string,
}
use basiccoin.Inv.Serialize.Txs.{tx_record_string, tx_record_from_string}

abbrev pub block_texts : Texts HashT BlockRecord
block_texts = record {
  key_string = string;
  value_string = block_record_string;
  parse = block_record_from_string;
}

abbrev pub merkle_texts : Texts HashT MerkleRecord
merkle_texts = record {
  key_string = string;
  value_string = merkle_record_string;
  parse = merkle_record_from_string;
}

abbrev pub tx_texts : Texts HashT TxRecord
tx_texts = record {
  key_string = string;
  value_string = tx_record_string;
  parse = tx_record_from_string;
}

hex_digit-injective : (m n : ℕ) → hex_digit m ≡ hex_digit n → m ≡ n
unfolding hex_digit
hex_digit-injective m n h = ground arith

encode_hex-injective : (cs bs : List ℕ) → encode_hex cs ≡ encode_hex bs → cs ≡ bs
unfolding encode_hex
encode_hex-injective [] [] h = refl
encode_hex-injective [] (b ∷ bs) h = cc
encode_hex-injective (a ∷ cs) [] h = cc
encode_hex-injective (a ∷ cs) (b ∷ bs) h =
    let high : a / 16 ≡ b / 16 = hex_digit-injective (a / 16) (b / 16) (cc) in
    let low : a % 16 ≡ b % 16 = hex_digit-injective (a % 16) (b % 16) (cc) in
    let same : a ≡ b = omega arith in
    let rest : cs ≡ bs = encode_hex-injective cs bs (cc) in λ i. same i ∷ rest i

string-injective : (g h : HashT) → string g ≡ string h → g ≡ h
unfolding string
string-injective g h e =
    ap (λ (bs : List ℕ). record { bytes = bs }) (encode_hex-injective g.bytes h.bytes e)

pub block_texts-IsLawful : IsLawful block_texts
block_texts-IsLawful = record { distinct = string-injective }

pub merkle_texts-IsLawful : IsLawful merkle_texts
merkle_texts-IsLawful = record { distinct = string-injective }

pub tx_texts-IsLawful : IsLawful tx_texts
tx_texts-IsLawful = record { distinct = string-injective }
