-- ===== src/Hash/Digest.antt =====
-- The digests of pkg/core/hasht.go, over the SHA-256 function of Go's crypto/sha256.
use basiccoin.Base.{
  ℕ, ◌*◌, ◌<◌, ◌≡◌, Bool, List, [], ◌∷◌, ◌++◌, map, length, replicate, All, if◌then◌else◌,
}
use basiccoin.Hash.{HashT, IsHash, fill_bytes}

-- crypto/sha256 gives 32 bytes for every input. Nothing else is asked of it here.
pub record Sha256 : Type 0 where
  pub sum256 : List ℕ → List ℕ
  pub sum256-length : (content : List ℕ) → length (sum256 content) ≡ 32
  pub sum256-bytes : (content : List ℕ) → All (λ b. b < 256) (sum256 content)

module _ ⦃sha : Sha256⦄ where
  unfoldable pub dhash_bytes : List ℕ → HashT
  dhash_bytes content = record { bytes = sha.sum256 (sha.sum256 content) }

  unfoldable pub dhash_uint64 : ℕ → HashT
  dhash_uint64 content = dhash_bytes (fill_bytes 8 content)

  -- `true` is the byte 0 and `false` is the byte 1.
  unfoldable pub dhash_bool : Bool → HashT
  dhash_bool content = if content then dhash_bytes (0 ∷ []) else dhash_bytes (1 ∷ [])

  unfoldable pub concat_bytes : List HashT → List ℕ
  concat_bytes [] = []
  concat_bytes (h ∷ hs) = h.bytes ++ concat_bytes hs

  -- The slice is made with 32 zero bytes for each item before the items are appended to it.
  unfoldable pub dhash_hashes : List HashT → HashT
  unfolding concat_bytes
  dhash_hashes items = dhash_bytes (replicate (length items * 32) 0 ++ concat_bytes items)

  -- `DHashList`, with the items' own hash.
  unfoldable pub dhash_list {ℓ} : {A : Type ℓ} → (A → HashT) → List A → HashT
  dhash_list hash items = dhash_hashes (map hash items)

  pub dhash_bytes-IsHash : (content : List ℕ) → IsHash (dhash_bytes content)
  unfolding dhash_bytes
  dhash_bytes-IsHash content = record {
    size = sha.sum256-length (sha.sum256 content);
    in_range = sha.sum256-bytes (sha.sum256 content);
  }
