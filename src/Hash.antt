-- ===== src/Hash.antt =====
-- pkg/core/hasht.go: the 32-byte hash that serves as an identifier, a target and an amount of
-- work. Byte strings are lists of numbers below 256; a `*big.Int` that is never negative is a
-- number.
pub mod Digest
pub mod Value
pub mod Hex
pub mod Target
use basiccoin.Base.{
  ℕ, zero, suc, ◌+◌, ◌-◌, ◌*◌, ◌/◌, ◌%◌, ◌^◌, ◌<◌, ◌≡◌, ◌↔◌, Bool, true, false, Option, none, some,
  List, [], ◌∷◌, arith, ltb, leb, if◌then◌else◌, length, replicate, All,
}
use basiccoin.Base.Eq.{Eq, ◌==◌, nat_eq, list_beq, list_beq_iff}
use basiccoin.Base.Result.{
  Result, ok, err, panic, ◌>>=◌, ◌>>◌, guard, hash_bad_length, hash_bad_hex,
}

pub record HashT : Type 0 where
  pub bytes : List ℕ

-- What the Go type [32]byte gives for nothing.
pub record IsHash (h : HashT) : Type 0 where
  pub size : length h.bytes ≡ 32
  pub in_range : All (λ b. b < 256) h.bytes

-- `HashT{}`
abbrev pub zero_hash : HashT
zero_hash = record { bytes = replicate 32 0 }

-- `h.Eq(other)`, and `==` on hashes.
unfoldable pub eq : HashT → HashT → Bool
eq h other = list_beq h.bytes other.bytes

pub eq_iff : (h other : HashT) → (eq h other ≡ true) ↔ (h ≡ other)
unfolding eq
eq_iff h other = ground (arith, list_beq_iff h.bytes other.bytes)

instance abbrev pub hash_eq : Eq HashT
hash_eq = record { beq = eq; beq_iff = eq_iff }

unfoldable pub eq_zero : HashT → Bool
eq_zero h = eq h zero_hash

-- The loop of `Lt`, over the bytes that are left.
unfoldable pub lt_bytes : List ℕ → List ℕ → Bool
lt_bytes (a ∷ as') (b ∷ bs) = if ltb b a then false else if ltb a b then true else lt_bytes as' bs
lt_bytes _ _ = false

unfoldable pub lt : HashT → HashT → Bool
unfolding lt_bytes
lt h other = lt_bytes h.bytes other.bytes

-- `big.Int.SetBytes`: a big-endian number.
unfoldable pub of_bytes : List ℕ → ℕ
of_bytes [] = 0
of_bytes (b ∷ bs) = b * 256 ^ length bs + of_bytes bs

-- `big.Int.FillBytes`: the lowest `k` bytes of a number, big-endian.
unfoldable pub fill_bytes : ℕ → ℕ → List ℕ
fill_bytes zero n = []
fill_bytes (suc k) n = (n / 256 ^ k) % 256 ∷ fill_bytes k n

unfoldable pub big_int : HashT → ℕ
unfolding of_bytes
big_int h = of_bytes h.bytes

-- Panics on a number of more than 32 bytes.
unfoldable pub new_hash_from_big_int : ℕ → Result HashT
new_hash_from_big_int n = if ltb n (2 ^ 256) then ok (record { bytes = fill_bytes 32 n }) else panic

-- 2^256 - 1.
abbrev pub big_int2_256 : ℕ
big_int2_256 = 2 ^ 256 - 1

unfoldable pub target_to_work : HashT → Result ℕ
target_to_work h = if eq h zero_hash then panic else ok (big_int2_256 / big_int h)

unfoldable pub work_append_target : HashT → HashT → Result HashT
work_append_target h new_target = do
  work ← target_to_work new_target
  new_hash_from_big_int (big_int h + work)

unfoldable pub max_next_target : HashT → HashT → Result HashT
max_next_target max_target h = if lt max_target h then ok max_target else do
  new_target ← new_hash_from_big_int (big_int h * 4)
  if lt max_target new_target then ok max_target else ok new_target

unfoldable pub min_next_target : HashT → Result HashT
min_next_target h = new_hash_from_big_int (big_int h / 4)

unfoldable pub targets_to_total_work : List HashT → Result ℕ
targets_to_total_work [] = ok 0
targets_to_total_work (t ∷ ts) = do
  work ← target_to_work t
  rest ← targets_to_total_work ts
  ok (work + rest)

-- The digits of `%x` and of `hex.DecodeString`, which also reads capitals.
unfoldable pub hex_digit : ℕ → ℕ
hex_digit n = if ltb n 10 then b'0' + n else b'a' + n - 10

unfoldable pub hex_value : ℕ → Option ℕ
hex_value c =
    if ltb c b'0'
    then none
    else if leb c b'9'
    then some (c - b'0')
    else if ltb c b'A'
    then none
    else if leb c b'F'
    then some (c - b'A' + 10)
    else if ltb c b'a'
    then none
    else if leb c b'f'
    then some (c - b'a' + 10)
    else none

unfoldable pub encode_hex : List ℕ → List ℕ
unfolding hex_digit
encode_hex [] = []
encode_hex (b ∷ bs) = hex_digit (b / 16) ∷ hex_digit (b % 16) ∷ encode_hex bs

unfoldable pub join_digits : Option ℕ → Option ℕ → Option (List ℕ) → Option (List ℕ)
join_digits (some hi) (some lo) (some bs) = some ((hi * 16 + lo) ∷ bs)
join_digits _ _ _ = none

unfoldable pub decode_hex : List ℕ → Option (List ℕ)
unfolding hex_value join_digits
decode_hex [] = some []
decode_hex (c ∷ []) = none
decode_hex (c ∷ d ∷ cs) = join_digits (hex_value c) (hex_value d) (decode_hex cs)

unfoldable pub string : HashT → List ℕ
unfolding encode_hex
string h = encode_hex h.bytes

unfoldable pub new_hash_from_string : List ℕ → Result HashT
unfolding decode_hex
new_hash_from_string text = do
  guard (length text == 64) hash_bad_length
  elim (decode_hex text) [ none ↦ err hash_bad_hex | some bs ↦ ok (record { bytes = bs }) ]
