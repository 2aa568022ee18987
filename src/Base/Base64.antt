-- ===== src/Base/Base64.antt =====
-- Go's base64.StdEncoding: three bytes in four characters, with padding at the end. Decoding skips
-- newlines and carriage returns, and does not look at the bits that padding leaves over.
use Prim.Native.Nat.{ℕ, ◌+◌, ◌*◌, ◌-◌, ◌/◌, ◌%◌, ◌<◌}
use mathlib.Core.Path.{◌≡◌, refl, ap, ◌∙◌}
use mathlib.Core.Logic.{◌≢◌}
use mathlib.Core.Bool.{false, ◌||◌}
use mathlib.Core.Option.{Option, none, some}
use mathlib.Core.List.{List, [], ◌∷◌}
use native.Mathlib.Omega.{arith}
use basiccoin.Base.Eq.{◌==◌, nat_eq}
use basiccoin.Base.Lists.{All}
use basiccoin.Base.Result.{Result, ok, err, bad_base64}
use basiccoin.Base.Tests.{if◌then◌else◌, ltb, leb}
use basiccoin.Base.Text.{newline, IsInLine}

unfoldable pub char64 : ℕ → ℕ
char64 n =
    if ltb n 26
    then b'A' + n
    else if ltb n 52
    then b'a' + n - 26
    else if ltb n 62
    then b'0' + n - 52
    else if n == 62
    then b'+'
    else b'/'

unfoldable pub value64 : ℕ → Option ℕ
value64 c =
    if c == b'+'
    then some 62
    else if c == b'/'
    then some 63
    else if ltb c b'0'
    then none
    else if leb c b'9'
    then some (c - b'0' + 52)
    else if ltb c b'A'
    then none
    else if leb c b'Z'
    then some (c - b'A')
    else if ltb c b'a'
    then none
    else if leb c b'z'
    then some (c - b'a' + 26)
    else none

abbrev pub padding : ℕ
padding = b'='

unfoldable pub encode64 : List ℕ → List ℕ
encode64 [] = []
encode64 (a ∷ []) = char64 (a / 4) ∷ char64 (a % 4 * 16) ∷ padding ∷ padding ∷ []
encode64 (a ∷ b ∷ []) =
    char64 (a / 4) ∷ char64 (a % 4 * 16 + b / 16) ∷ char64 (b % 16 * 4) ∷ padding ∷ []
encode64 (a ∷ b ∷ c ∷ bytes) =
    char64 (a / 4)
    ∷ char64 (a % 4 * 16 + b / 16)
    ∷ char64 (b % 16 * 4 + c / 64)
    ∷ char64 (c % 64)
    ∷ encode64 bytes

abbrev pub one_byte : Option ℕ → Option ℕ → Result (List ℕ)
one_byte (some w) (some x) = ok ((w * 4 + x / 16) ∷ [])
one_byte _ _ = err bad_base64

abbrev pub two_bytes : Option ℕ → Option ℕ → Option ℕ → Result (List ℕ)
two_bytes (some w) (some x) (some y) = ok ((w * 4 + x / 16) ∷ (x % 16 * 16 + y / 4) ∷ [])
two_bytes _ _ _ = err bad_base64

abbrev pub three_bytes :
    Option ℕ → Option ℕ → Option ℕ → Option ℕ → Result (List ℕ) → Result (List ℕ)
three_bytes (some w) (some x) (some y) (some z) (ok bytes) =
    ok ((w * 4 + x / 16) ∷ (x % 16 * 16 + y / 4) ∷ (y % 4 * 64 + z) ∷ bytes)
three_bytes _ _ _ _ _ = err bad_base64

abbrev pub last_group : ℕ → ℕ → ℕ → Result (List ℕ)
last_group w x y =
    if y == padding
    then one_byte (value64 w) (value64 x)
    else two_bytes (value64 w) (value64 x) (value64 y)

unfoldable pub decode_groups : List ℕ → Result (List ℕ)
decode_groups [] = ok []
decode_groups (w ∷ x ∷ y ∷ z ∷ []) =
    if z == padding
    then last_group w x y
    else three_bytes (value64 w) (value64 x) (value64 y) (value64 z) (ok [])
decode_groups (w ∷ x ∷ y ∷ z ∷ c ∷ text) =
    three_bytes (value64 w) (value64 x) (value64 y) (value64 z) (decode_groups (c ∷ text))
decode_groups _ = err bad_base64

unfoldable pub drop_breaks : List ℕ → List ℕ
drop_breaks [] = []
drop_breaks (c ∷ text) =
    let rest = drop_breaks text in if c == newline || c == 13 then rest else c ∷ rest

unfoldable pub decode64 : List ℕ → Result (List ℕ)
decode64 text = decode_groups (drop_breaks text)

value64-char64 : (n : ℕ) → n < 64 → value64 (char64 n) ≡ some n
unfolding value64 char64
value64-char64 n h = ground arith

-- A character is no padding and no line break.
record IsChar (c : ℕ) : Type 0 where
  no_padding : c ≢ padding
  no_newline : c ≢ newline
  no_return : c ≢ 13

char64-IsChar : (n : ℕ) → n < 64 → IsChar (char64 n)
unfolding char64
char64-IsChar n h = record {
  no_padding = ground arith;
  no_newline = ground arith;
  no_return = ground arith;
}

NoBreaks : List ℕ → Type 0
NoBreaks text = All (λ c. (c ≢ newline) × (c ≢ 13)) text

drop_breaks_lem : (text : List ℕ) → NoBreaks text → drop_breaks text ≡ text
unfolding drop_breaks NoBreaks
drop_breaks_lem [] h = refl
drop_breaks_lem (c ∷ text) ((n, r), h) =
    let kept : (nat_eq.beq c newline || nat_eq.beq c 13) ≡ false = ground arith in
    rw (kept, drop_breaks_lem text h) refl

char64_printed : (n : ℕ) → n < 64 → (char64 n ≢ newline) × (char64 n ≢ 13)
char64_printed n h = let c = char64-IsChar n h in (c.no_newline, c.no_return)

encode64-NoBreaks : (bytes : List ℕ) → All (λ b. b < 256) bytes → NoBreaks (encode64 bytes)
unfolding encode64 NoBreaks
encode64-NoBreaks [] h = tt
encode64-NoBreaks (a ∷ []) h = (
  char64_printed (a / 4) (omega arith),
  (char64_printed (a % 4 * 16) (omega arith), (ground arith, (ground arith, tt))),
)
encode64-NoBreaks (a ∷ b ∷ []) h = (
  char64_printed (a / 4) (omega arith),
  (
    char64_printed (a % 4 * 16 + b / 16) (omega arith),
    (char64_printed (b % 16 * 4) (omega arith), (ground arith, tt)),
  ),
)
encode64-NoBreaks (a ∷ b ∷ c ∷ bytes) h = (
  char64_printed (a / 4) (omega arith),
  (
    char64_printed (a % 4 * 16 + b / 16) (omega arith),
    (
      char64_printed (b % 16 * 4 + c / 64) (omega arith),
      (char64_printed (c % 64) (omega arith), encode64-NoBreaks bytes h.1.1.1),
    ),
  ),
)

-- A group without padding, whatever follows.
decode_groups_whole :
    (w x y z : ℕ) (text : List ℕ)
    → z ≢ padding
    → decode_groups (w ∷ x ∷ y ∷ z ∷ text)
      ≡ three_bytes (value64 w) (value64 x) (value64 y) (value64 z) (decode_groups text)
unfolding decode_groups
decode_groups_whole w x y z [] h =
    let other : nat_eq.beq z padding ≡ false = ground arith in rw other refl
decode_groups_whole w x y z (c ∷ text) h = refl

decode_groups-encode64 :
    (bytes : List ℕ) → All (λ b. b < 256) bytes → decode_groups (encode64 bytes) ≡ ok bytes
unfolding encode64 decode_groups
decode_groups-encode64 [] h = refl
decode_groups-encode64 (a ∷ []) h =
    rw (value64-char64 (a / 4) (omega arith), value64-char64 (a % 4 * 16) (omega arith))
      (ap (λ (x : ℕ). ok (x ∷ [])) (omega arith))
decode_groups-encode64 (a ∷ b ∷ []) h =
    let other : nat_eq.beq (char64 (b % 16 * 4)) padding ≡ false =
      let c = char64-IsChar (b % 16 * 4) (omega arith) in ground (arith, c.no_padding) in
    let first : a / 4 * 4 + (a % 4 * 16 + b / 16) / 16 ≡ a = omega arith in
    let second : (a % 4 * 16 + b / 16) % 16 * 16 + b % 16 * 4 / 4 ≡ b = omega arith in
    rw
      (
        other,
        value64-char64 (a / 4) (omega arith),
        value64-char64 (a % 4 * 16 + b / 16) (omega arith),
        value64-char64 (b % 16 * 4) (omega arith),
      )
      (λ i. ok (first i ∷ second i ∷ []))
decode_groups-encode64 (a ∷ b ∷ c ∷ bytes) h =
    let first : a / 4 * 4 + (a % 4 * 16 + b / 16) / 16 ≡ a = omega arith in
    let second : (a % 4 * 16 + b / 16) % 16 * 16 + (b % 16 * 4 + c / 64) / 4 ≡ b = omega arith in
    let third : (b % 16 * 4 + c / 64) % 4 * 64 + c % 64 ≡ c = omega arith in
    decode_groups_whole _ _ _ _ (encode64 bytes) (char64-IsChar (c % 64) (omega arith)).no_padding
    ∙ rw
        (
          value64-char64 (a / 4) (omega arith),
          value64-char64 (a % 4 * 16 + b / 16) (omega arith),
          value64-char64 (b % 16 * 4 + c / 64) (omega arith),
          value64-char64 (c % 64) (omega arith),
          decode_groups-encode64 bytes h.1.1.1,
        )
        (λ i. ok (first i ∷ second i ∷ third i ∷ bytes))

pub decode64-encode64 :
    (bytes : List ℕ) → All (λ b. b < 256) bytes → decode64 (encode64 bytes) ≡ ok bytes
unfolding decode64
decode64-encode64 bytes h =
    ap decode_groups (drop_breaks_lem (encode64 bytes) (encode64-NoBreaks bytes h))
    ∙ decode_groups-encode64 bytes h

IsInLine-of : (text : List ℕ) → NoBreaks text → IsInLine text
unfolding NoBreaks
IsInLine-of [] h = tt
IsInLine-of (c ∷ text) h = (h.0.0, IsInLine-of text h.1)

pub encode64-IsInLine : (bytes : List ℕ) → All (λ b. b < 256) bytes → IsInLine (encode64 bytes)
encode64-IsInLine bytes h = IsInLine-of (encode64 bytes) (encode64-NoBreaks bytes h)
