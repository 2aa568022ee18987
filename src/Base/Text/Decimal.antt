-- ===== src/Base/Text/Decimal.antt =====
-- Numbers printed in decimal, and read back.
use Prim.Native.Nat.{ℕ, zero, suc, ◌+◌, ◌*◌, ◌-◌, ◌/◌, ◌%◌, ◌^◌, ◌<◌}
use mathlib.Core.Path.{subst, ◌≡◌, refl, ap, sym, ◌∙◌}
use mathlib.Core.Logic.{◌≢◌, inl, inr}
use mathlib.Core.Bool.{true, false}
use mathlib.Core.List.{List, [], ◌∷◌}
use native.Mathlib.Omega.{arith}
use basiccoin.Base.Eq.{◌==◌, nat_eq}
use basiccoin.Base.Lists.{All}
use basiccoin.Base.Result.{ok}
use basiccoin.Base.Tests.{ltb, Bool-cases, lt→ltb}
use basiccoin.Base.Text.{newline, digits, format_uint, add_digits, parse_uint, IsRow}

digits_last :
    (fuel n : ℕ) (out : List ℕ)
    → (n / 10 == 0) ≡ true
    → digits (suc fuel) n out ≡ (48 + n % 10) ∷ out
unfolding digits
digits_last fuel n out h = rw (h, digits) refl

digits_more :
    (fuel n : ℕ) (out : List ℕ)
    → (n / 10 == 0) ≡ false
    → digits (suc fuel) n out ≡ digits fuel (n / 10) ((48 + n % 10) ∷ out)
unfolding digits
digits_more fuel n out h = rw (h, digits) refl

add_digits-digits :
    (fuel n : ℕ) (out : List ℕ)
    → n < fuel
    → n < 2 ^ 64
    → add_digits (digits fuel n out) 0 ≡ add_digits out n
unfolding add_digits
add_digits-digits zero n out enough small = absurd (omega arith)
add_digits-digits (suc fuel) n out enough small = elim (Bool-cases (n / 10 == 0)) [
  | inl last ↦
      ap (λ (l : List ℕ). add_digits l 0) (digits_last fuel n out last)
      ∙ step 0 (ground (arith, last))
  | inr more ↦
      ap (λ (l : List ℕ). add_digits l 0) (digits_more fuel n out more)
      ∙ (add_digits-digits fuel (n / 10) ((48 + n % 10) ∷ out) (ground (arith, more)) (omega arith)
          ∙ step (n / 10) refl)
]
  where
    step : (k : ℕ) → k ≡ n / 10 → add_digits ((48 + n % 10) ∷ out) k ≡ add_digits out n
    step k e =
        let value : k * 10 + ((48 + n % 10) - 48) ≡ n = omega (arith, e) in
        let low : ltb (48 + n % 10) 48 ≡ false = ground arith in
        let high : ltb 57 (48 + n % 10) ≡ false = ground arith in
        rw (low, high, value, lt→ltb n (2 ^ 64) small) refl

-- The digits are put before what is there.
digits-IsRow :
    (fuel n : ℕ) (out : List ℕ)
    → All (λ c. c ≢ newline) out
    → 0 < fuel
    → n < fuel
    → IsRow (digits fuel n out)
digits-IsRow zero n out h pos enough = absurd (omega arith)
digits-IsRow (suc fuel) n out h pos enough = elim (Bool-cases (n / 10 == 0)) [
  | inl last ↦
      subst IsRow (sym (digits_last fuel n out last))
        (record { not_empty = λ e. cc; in_line = (digit, h) })
  | inr more ↦ subst IsRow (sym (digits_more fuel n out more)) (
      digits-IsRow fuel (n / 10) ((48 + n % 10) ∷ out) (digit, h) (ground (arith, more))
        (ground (arith, more)))
]
  where
    digit : 48 + n % 10 ≢ newline
    digit = ground arith

digits-IsNotSign :
    (fuel n : ℕ) (out : List ℕ) → All (λ c. 47 < c) out → All (λ c. 47 < c) (digits fuel n out)
unfolding digits
digits-IsNotSign zero n out h = h
digits-IsNotSign (suc fuel) n out h = elim (Bool-cases (n / 10 == 0)) [
  | inl last ↦ subst (All (λ c. 47 < c)) (sym (digits_last fuel n out last)) (omega arith, h)
  | inr more ↦
      subst (All (λ c. 47 < c)) (sym (digits_more fuel n out more))
        (digits-IsNotSign fuel (n / 10) ((48 + n % 10) ∷ out) (omega arith, h))
]

parse_uint-add_digits : (text : List ℕ) → text ≢ [] → parse_uint text ≡ add_digits text 0
unfolding parse_uint
parse_uint-add_digits [] h = absurd (h refl)
parse_uint-add_digits (c ∷ text) h = refl

pub format_uint-IsRow : (n : ℕ) → IsRow (format_uint n)
unfolding format_uint
format_uint-IsRow n = digits-IsRow (suc n) n [] tt (omega arith) (omega arith)

pub parse_uint-format_uint : (n : ℕ) → n < 2 ^ 64 → parse_uint (format_uint n) ≡ ok n
unfolding format_uint add_digits
parse_uint-format_uint n small =
    parse_uint-add_digits (format_uint n) (format_uint-IsRow n).not_empty
    ∙ add_digits-digits (suc n) n [] (omega arith) small

-- No byte of a printed number is a sign.
pub format_uint-IsNotSign : (n : ℕ) → All (λ c. 47 < c) (format_uint n)
unfolding format_uint
format_uint-IsNotSign n = digits-IsNotSign (suc n) n [] tt
