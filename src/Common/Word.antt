-- ===== src/Common/Word.antt =====
-- Unsigned machine integers as native numbers: casts to a width, shifts, the bitwise complement,
-- and the reading of a 32-bit pattern as a signed number.
use Prim.Native.Nat.{ℕ, zero, suc, ◌+◌, ◌-◌, ◌*◌, ◌/◌, ◌%◌, ◌^◌}
use t89emu.Common.Int.{ℤ, pos, negsuc}
use t89emu.Common.Tests.{ltb, if◌then◌else◌}

abbrev u8 : ℕ → ℕ
u8 n = n % 2 ^ 8

abbrev u16 : ℕ → ℕ
u16 n = n % 2 ^ 16

abbrev pub u32 : ℕ → ℕ
u32 n = n % 2 ^ 32

abbrev pub u64 : ℕ → ℕ
u64 n = n % 2 ^ 64

infixl 72 ◌<<<◌ ◌>>>◌
abbrev pub ◌<<<◌ : ℕ → ℕ → ℕ
x <<< k = x * 2 ^ k

abbrev pub ◌>>>◌ : ℕ → ℕ → ℕ
x >>> k = x / 2 ^ k

-- uint32_t a + b, a - b and ~a.
abbrev pub add32 : ℕ → ℕ → ℕ
add32 a b = u32 (a + b)

abbrev pub sub32 : ℕ → ℕ → ℕ
sub32 a b = u32 (a + 2 ^ 32 - b)

abbrev pub not32 : ℕ → ℕ
not32 a = 2 ^ 32 - 1 - a

-- Digit `i` of a number, lowest first.
abbrev pub bit : ℕ → ℕ → ℕ
bit a zero = a % 2
bit a (suc i) = bit (a / 2) i

-- The number that a 32-bit pattern stands for in two's complement.
abbrev pub signed32 : ℕ → ℤ
signed32 w = if ltb w (2 ^ 31) then pos w else negsuc (2 ^ 32 - w - 1)
