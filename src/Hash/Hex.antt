-- ===== src/Hash/Hex.antt =====
-- The text of a hash: `String` prints it, and `NewHashTFromString` reads it.
use basiccoin.Base.{ℕ, ◌*◌, ◌/◌, ◌%◌, ◌<◌, ◌≡◌, refl, some, List, [], ◌∷◌, arith, length, All, ap}
use basiccoin.Base.Result.{ok}
use basiccoin.Hash.{
  HashT, IsHash, hex_digit, hex_value, encode_hex, decode_hex, string, new_hash_from_string,
}

hex_value-hex_digit : (n : ℕ) → n < 16 → hex_value (hex_digit n) ≡ some n
unfolding hex_value hex_digit
hex_value-hex_digit n h = ground arith

decode_hex-encode_hex : (bs : List ℕ) → All (λ b. b < 256) bs → decode_hex (encode_hex bs) ≡ some bs
unfolding decode_hex encode_hex
decode_hex-encode_hex [] h = refl
decode_hex-encode_hex (b ∷ bs) h =
    rw
      (
        hex_value-hex_digit (b / 16) (omega arith),
        hex_value-hex_digit (b % 16) (omega arith),
        decode_hex-encode_hex bs h.1,
      )
      (ap (λ (x : ℕ). some (x ∷ bs)) (omega arith))

length-encode_hex : (bs : List ℕ) → length (encode_hex bs) ≡ 2 * length bs
unfolding encode_hex
length-encode_hex [] = refl
length-encode_hex (b ∷ bs) = omega (arith, length-encode_hex bs)

-- `NewHashTFromString` of the text that `String` gives of a hash of 32 bytes returns that hash.
pub new_hash-string : (h : HashT) → IsHash h → new_hash_from_string (string h) ≡ ok h
unfolding new_hash_from_string string
new_hash-string h v =
    rw (length-encode_hex h.bytes, v.size, decode_hex-encode_hex h.bytes v.in_range) refl
