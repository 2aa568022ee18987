-- ===== src/Core/Crypto.antt =====
-- pkg/core/crypto.go: keys and signatures of Go's crypto/ecdsa and crypto/x509, which are
-- parameters, and the example key and signature.
use basiccoin.Base.{ℕ, Bool, List, Option, none, some}
use basiccoin.Core.Params.{codes}
use basiccoin.Hash.{HashT, decode_hex}

-- What `x509.ParsePKIXPublicKey` gives: an error, a key of another kind, or an ECDSA key.
pub data ParsedKey (Key : Type 0) : Type 0 where
  bad_der other_key : ParsedKey Key
  ecdsa_key : Key → ParsedKey Key

pub record Ecdsa : Type 1 where
  pub PublicKey : Type 0
  pub PrivateKey : Type 0
  pub parse_pkix_public_key : List ℕ → ParsedKey PublicKey
  pub verify_asn1 : PublicKey → List ℕ → List ℕ → Bool
  -- `none` is a returned error.
  pub marshal_pkix_public_key : PrivateKey → Option (List ℕ)
  pub sign_asn1 : PrivateKey → List ℕ → Option (List ℕ)

-- The value and whether an error came with it.
unfoldable pub ecdsa_verify : ⦃ecdsa : Ecdsa⦄ → List ℕ → HashT → List ℕ → Option Bool
ecdsa_verify ⦃ecdsa⦄ pub_der hash sig = elim (ecdsa.parse_pkix_public_key pub_der) [
  | bad_der ↦ none
  | other_key ↦ none
  | ecdsa_key key ↦ some (ecdsa.verify_asn1 key hash.bytes sig)
]

-- A decoding that cannot fail on its constant.
unfoldable pub decoded : Option (List ℕ) → List ℕ
decoded none = List.[]
decoded (some bs) = bs

unfoldable pub example_pub_der : List ℕ
example_pub_der = decoded (
    decode_hex (
      codes
        "3059301306072a8648ce3d020106082a8648ce3d030107034200042a74cb8265947240a77e61fa899cfe7ad0d3ea8df329acd72b22052f0fe4b37b2f5ddbe8a80bb907483121c08db045276e99795db0390d5bcbd80c7bfda68e86"))

unfoldable pub example_max_sig_asn : List ℕ
example_max_sig_asn = decoded (
    decode_hex (
      codes
        "3046022100e98da6096a0602d10b6718ff1ce05e396654d427ac5e195c8dfa16b43776576b022100d9227403a5fbd8e2ef67b5f22172f94e0b7047d3b5be07e01c671d5d9dfe5a0b"))
