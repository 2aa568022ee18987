-- ===== src/Hash/Value.antt =====
-- The hashes of pkg/core/hasht.go as numbers: `Lt`, `BigInt` and `NewHashTFromBigInt`.
use native.Mathlib.Nat.{
  pow-suc, pow-zero, mul-le-mul_right, one-le-pow, div-add-mod, div-div-eq-div-mul,
  mul-add-div_right, div-eq_of_lt,
}
use native.Mathlib.Decide.{dec_lt}
use mathlib.Core.Path.{subst}
use basiccoin.Base.{
  ℕ, zero, suc, ◌+◌, ◌*◌, ◌/◌, ◌%◌, ◌^◌, ◌<◌, ◌≡◌, refl, true, false, List, [], ◌∷◌, arith, ltb,
  length, All, ap, sym, ◌∙◌, inl, inr, Bool-cases, lt→ltb, le→ltb-false, ltb→lt, ltb-false→le, ◌≤◌,
  ◌≢◌,
}
use basiccoin.Base.Result.{Result, ok}
use basiccoin.Hash.{
  HashT, IsHash, zero_hash, lt, lt_bytes, of_bytes, fill_bytes, big_int, new_hash_from_big_int,
}

-- A smaller leading digit makes the smaller number.
radix-lt : (a b p x y : ℕ) → a < b → x < p → a * p + x < b * p + y
radix-lt a b p x y h k = omega (arith, mul-le-mul_right p h)

pub of_bytes-lt : (bs : List ℕ) → All (λ b. b < 256) bs → of_bytes bs < 256 ^ length bs
unfolding of_bytes
of_bytes-lt [] h = omega arith
of_bytes-lt (b ∷ bs) h =
    rw (pow-suc 256 (length bs))
      (omega (arith, of_bytes-lt bs h.1, mul-le-mul_right (256 ^ length bs) h.0))

lt_bytes-cons :
    (a b : ℕ) (as' bs : List ℕ)
    → length as' ≡ length bs
    → of_bytes as' < 256 ^ length bs
    → of_bytes bs < 256 ^ length bs
    → lt_bytes as' bs ≡ ltb (of_bytes as') (of_bytes bs)
    → lt_bytes (a ∷ as') (b ∷ bs) ≡ ltb (of_bytes (a ∷ as')) (of_bytes (b ∷ bs))
unfolding of_bytes lt_bytes
lt_bytes-cons a b as' bs e h k ih = rw e (elim (Bool-cases (ltb b a)) [
  | inl gt ↦ rw gt (
      sym (
        le→ltb-false _ _ (
          omega (
            arith,
            radix-lt b a (256 ^ length bs) (of_bytes bs) (of_bytes as') (ltb→lt b a gt) k,
          ))))
  | inr ge ↦ elim (Bool-cases (ltb a b)) [
    | inl less ↦
        rw (ge, less)
          (sym (
            lt→ltb _ _
              (radix-lt a b (256 ^ length bs) (of_bytes as') (of_bytes bs) (ltb→lt a b less) h)))
    | inr same ↦
        let eq : a ≡ b = omega (arith, ltb-false→le a b same, ltb-false→le b a ge) in
        rw (ge, same, ih, eq) (ground arith)
  ]
])

pub lt_bytes-of_bytes :
    (as' bs : List ℕ)
    → length as' ≡ length bs
    → All (λ b. b < 256) as'
    → All (λ b. b < 256) bs
    → lt_bytes as' bs ≡ ltb (of_bytes as') (of_bytes bs)
unfolding of_bytes lt_bytes
lt_bytes-of_bytes [] [] e h k = refl
lt_bytes-of_bytes [] (b ∷ bs) e h k = absurd (omega arith)
lt_bytes-of_bytes (a ∷ as') [] e h k = absurd (omega arith)
lt_bytes-of_bytes (a ∷ as') (b ∷ bs) e h k =
    let e' : length as' ≡ length bs = omega arith in
    lt_bytes-cons a b as' bs e' (rw (← e') (of_bytes-lt as' h.1)) (of_bytes-lt bs k.1)
      (lt_bytes-of_bytes as' bs e' h.1 k.1)

-- `Lt` of two hashes of 32 bytes is the order of the numbers that `BigInt` gives.
pub lt-big_int : (h g : HashT) → IsHash h → IsHash g → lt h g ≡ ltb (big_int h) (big_int g)
unfolding lt big_int
lt-big_int h g v w = lt_bytes-of_bytes h.bytes g.bytes (v.size ∙ sym w.size) v.in_range w.in_range

pub length-fill_bytes : (k n : ℕ) → length (fill_bytes k n) ≡ k
unfolding fill_bytes
length-fill_bytes zero n = refl
length-fill_bytes (suc k) n = ap suc (length-fill_bytes k n)

pub fill_bytes-in_range : (k n : ℕ) → All (λ b. b < 256) (fill_bytes k n)
unfolding fill_bytes
fill_bytes-in_range zero n = tt
fill_bytes-in_range (suc k) n = (omega arith, fill_bytes-in_range k n)

digit-mod : (n p : ℕ) → n / p % 256 * p + n % p ≡ n % (p * 256)
digit-mod n p =
    let whole : p * 256 * (n / p / 256) + n % (p * 256) ≡ n =
      rw div-div-eq-div-mul (div-add-mod n (p * 256)) in
    omega (arith, div-add-mod n p, whole, ap (λ (t : ℕ). p * t) (div-add-mod (n / p) 256))

-- The lowest `k` bytes.
pub of_bytes-fill_bytes_mod : (k n : ℕ) → of_bytes (fill_bytes k n) ≡ n % 256 ^ k
unfolding of_bytes fill_bytes
of_bytes-fill_bytes_mod zero n = rw pow-zero (omega arith)
of_bytes-fill_bytes_mod (suc k) n =
    rw (length-fill_bytes k n, of_bytes-fill_bytes_mod k n, pow-suc) (digit-mod n (256 ^ k))

-- The bytes of a number are its own.
fill_bytes-of_bytes_mod :
    (k x : ℕ) (bs : List ℕ)
    → All (λ b. b < 256) bs
    → k ≡ length bs
    → fill_bytes k (x * 256 ^ k + of_bytes bs) ≡ bs
unfolding of_bytes fill_bytes
fill_bytes-of_bytes_mod zero x [] h e = refl
fill_bytes-of_bytes_mod zero x (b ∷ bs) h e = absurd (omega arith)
fill_bytes-of_bytes_mod (suc k) x [] h e = absurd (omega arith)
fill_bytes-of_bytes_mod (suc k) x (b ∷ bs) h e =
    let e' : k ≡ length bs = omega arith in
    rw (
      ← e',
      top-digit k x b bs h.0 (rw e' (of_bytes-lt bs h.1)),
      regroup k x b bs,
      fill_bytes-of_bytes_mod k (x * 256 + b) bs h.1 e',
    )
  where
    regroup :
        (k x b : ℕ) (bs : List ℕ)
        → x * 256 ^ suc k + (b * 256 ^ k + of_bytes bs) ≡ (x * 256 + b) * 256 ^ k + of_bytes bs
    regroup k x b bs = rw pow-suc (omega arith)

    top-digit :
        (k x b : ℕ) (bs : List ℕ)
        → b < 256
        → of_bytes bs < 256 ^ k
        → (x * 256 ^ suc k + (b * 256 ^ k + of_bytes bs)) / 256 ^ k % 256 ≡ b
    top-digit k x b bs lt1 lt2 =
        rw (regroup k x b bs, mul-add-div_right (one-le-pow k 256 (omega arith)), div-eq_of_lt lt2)
          (omega arith)

fill_bytes-of_bytes :
    (k : ℕ) (bs : List ℕ) → All (λ b. b < 256) bs → k ≡ length bs → fill_bytes k (of_bytes bs) ≡ bs
fill_bytes-of_bytes k bs h e =
    let start : 0 * 256 ^ k + of_bytes bs ≡ of_bytes bs = omega arith in
    rw start at (fill_bytes-of_bytes_mod k 0 bs h e)

pub big_int-lt : (h : HashT) → IsHash h → big_int h < 2 ^ 256
unfolding big_int
big_int-lt h v = rw v.size at (of_bytes-lt h.bytes v.in_range)

-- Every 32-byte hash is the hash of its number.
pub new_hash-big_int : (h : HashT) → IsHash h → new_hash_from_big_int (big_int h) ≡ ok h
unfolding new_hash_from_big_int big_int
new_hash-big_int h v =
    rw (lt→ltb _ _ (big_int-lt h v)) (
      ap (λ bs. ok (record { bytes = bs }))
        (fill_bytes-of_bytes 32 h.bytes v.in_range (sym v.size)))

-- `NewHashTFromBigInt` of a number below 2^256 returns a hash of 32 bytes whose `BigInt` is that
-- number.
pub big_int-new_hash_from_big_int :
    (n : ℕ)
    → n < 2 ^ 256
    → (h : HashT) × (new_hash_from_big_int n ≡ ok h) × IsHash h × (big_int h ≡ n)
unfolding new_hash_from_big_int big_int
big_int-new_hash_from_big_int n lt = (
  record { bytes = fill_bytes 32 n },
  rw (lt→ltb _ _ lt),
  record { size = length-fill_bytes 32 n; in_range = fill_bytes-in_range 32 n },
  rw of_bytes-fill_bytes_mod (omega arith),
)

pub new_hash_from_big_int-IsHash :
    (n : ℕ) (h : HashT) → new_hash_from_big_int n ≡ ok h → IsHash h × (big_int h ≡ n)
unfolding new_hash_from_big_int
new_hash_from_big_int-IsHash n h e = elim (Bool-cases (ltb n (2 ^ 256))) [
  | inl fits ↦
      let (g, made, v, value) = big_int-new_hash_from_big_int n (ltb→lt _ _ fits) in
      let same : g ≡ h = cc in (subst IsHash same v, subst (λ x. big_int x ≡ n) same value)
  | inr wide ↦ absurd (ground arith)
]

module _ (h g : HashT) (v : IsHash h) (w : IsHash g) where
  pub lt→big_int-lt : lt h g ≡ true → big_int h < big_int g
  lt→big_int-lt e = ltb→lt _ _ (sym (lt-big_int h g v w) ∙ e)

  pub lt-false→big_int-le : lt h g ≡ false → big_int g ≤ big_int h
  lt-false→big_int-le e = ltb-false→le _ _ (sym (lt-big_int h g v w) ∙ e)

  pub big_int-lt→lt : big_int h < big_int g → lt h g ≡ true
  big_int-lt→lt less = lt-big_int h g v w ∙ lt→ltb _ _ less

  pub big_int-le→lt-false : big_int g ≤ big_int h → lt h g ≡ false
  big_int-le→lt-false most = lt-big_int h g v w ∙ le→ltb-false _ _ most

pub zero_hash-IsHash : IsHash zero_hash
zero_hash-IsHash = record { size = refl; in_range = omega arith }

pub big_int-zero_hash : big_int zero_hash ≡ 0
unfolding big_int
big_int-zero_hash = refl

-- Hashes with the same number are the same.
pub big_int-injective : (h g : HashT) → IsHash h → IsHash g → big_int h ≡ big_int g → h ≡ g
big_int-injective h g v w e =
    let same : Result.ok h ≡ ok g =
      sym (new_hash-big_int h v) ∙ ap new_hash_from_big_int e ∙ new_hash-big_int g w in
    cc

-- The only hash with the number 0 is the zero hash.
pub big_int-pos : (h : HashT) → IsHash h → h ≢ zero_hash → 0 < big_int h
big_int-pos h v ne = elim (dec_lt 0 (big_int h)) [
  | yes p ↦ p
  | no p ↦
      absurd
        (ne (big_int-injective h zero_hash v zero_hash-IsHash (omega (arith, big_int-zero_hash))))
]
