-- ===== src/Base/Word.antt =====
-- uint64 arithmetic: sums, differences and products wrap around; a division by zero panics.
use Prim.Native.Nat.{ℕ, ◌+◌, ◌-◌, ◌*◌, ◌/◌, ◌%◌, ◌^◌}
use basiccoin.Base.Tests.{nat_beq, if◌then◌else◌}
use basiccoin.Base.Result.{Result, ok, panic}

abbrev pub add64 : ℕ → ℕ → ℕ
add64 a b = (a + b) % 2 ^ 64

abbrev pub sub64 : ℕ → ℕ → ℕ
sub64 a b = (a + 2 ^ 64 - b) % 2 ^ 64

abbrev pub mul64 : ℕ → ℕ → ℕ
mul64 a b = (a * b) % 2 ^ 64

abbrev pub div64 : ℕ → ℕ → Result ℕ
div64 a b = if nat_beq b 0 then panic else ok (a / b)

abbrev pub mod64 : ℕ → ℕ → Result ℕ
mod64 a b = if nat_beq b 0 then panic else ok (a % b)
