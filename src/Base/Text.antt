-- ===== src/Base/Text.antt =====
-- What the source uses of Go's strings and strconv: lines joined by newlines, and numbers in
-- decimal. A text is the list of its bytes.
pub mod Lines
pub mod Decimal
use Prim.Native.Nat.{ℕ, zero, suc, ◌+◌, ◌*◌, ◌-◌, ◌/◌, ◌%◌, ◌^◌, ◌<◌}
use mathlib.Core.Path.{subst, ◌≡◌, refl, ap, sym, ◌∙◌}
use mathlib.Core.Logic.{◌≢◌, inl, inr}
use mathlib.Core.Bool.{true, false, ◌||◌}
use mathlib.Core.List.{List, [], ◌∷◌, ◌++◌}
use native.Mathlib.Omega.{arith}
use basiccoin.Base.Eq.{◌==◌, nat_eq}
use basiccoin.Base.Lists.{All}
use basiccoin.Base.Result.{Result, ok, err, bad_number, number_too_large}
use basiccoin.Base.Tests.{if◌then◌else◌, ltb, Bool-cases, lt→ltb}

abbrev pub newline : ℕ
newline = 10

-- `strings.Join(rows, "\n")`
unfoldable pub join : List (List ℕ) → List ℕ
join [] = []
join (row ∷ []) = row
join (row ∷ next ∷ rows) = row ++ newline ∷ join (next ∷ rows)

abbrev pub put : ℕ → List (List ℕ) → List (List ℕ)
put c [] = (c ∷ []) ∷ []
put c (row ∷ rows) = (c ∷ row) ∷ rows

-- `strings.Split(text, "\n")`
unfoldable pub split : List ℕ → List (List ℕ)
split [] = [] ∷ []
split (c ∷ text) = if c == newline then [] ∷ split text else put c (split text)

-- `strings.Trim(text, "\n")`
unfoldable pub trim_left : List ℕ → List ℕ
trim_left [] = []
trim_left (c ∷ text) = if c == newline then trim_left text else c ∷ text

abbrev pub drop_blank : ℕ → List ℕ → List ℕ
drop_blank c [] = if c == newline then [] else c ∷ []
drop_blank c (d ∷ text) = c ∷ d ∷ text

unfoldable pub trim_right : List ℕ → List ℕ
trim_right [] = []
trim_right (c ∷ text) = drop_blank c (trim_right text)

unfoldable pub trim : List ℕ → List ℕ
trim text = trim_right (trim_left text)

-- `strconv.FormatUint(n, 10)`; a number has fewer digits than n + 1.
unfoldable pub digits : ℕ → ℕ → List ℕ → List ℕ
digits zero n out = out
digits (suc fuel) n out = elim (n / 10 == 0) [
  | true ↦ (48 + n % 10) ∷ out
  | false ↦ digits fuel (n / 10) ((48 + n % 10) ∷ out)
]

unfoldable pub format_uint : ℕ → List ℕ
format_uint n = digits (suc n) n []

unfoldable pub add_digits : List ℕ → ℕ → Result ℕ
add_digits [] n = ok n
add_digits (c ∷ text) n =
    if ltb c 48 || ltb 57 c
    then err bad_number
    else if ltb (n * 10 + (c - 48)) (2 ^ 64)
    then add_digits text (n * 10 + (c - 48))
    else err number_too_large

-- `strconv.ParseUint(text, 10, 64)`
unfoldable pub parse_uint : List ℕ → Result ℕ
parse_uint [] = err bad_number
parse_uint (c ∷ text) = add_digits (c ∷ text) 0

-- A row in one line, and one that is not empty.
abbrev pub IsInLine : List ℕ → Type 0
IsInLine row = All (λ c. c ≢ newline) row

pub record IsRow (row : List ℕ) : Type 0 where
  pub not_empty : row ≢ []
  pub in_line : IsInLine row
