-- ===== src/Core/Alu.antt =====
-- t89emu/src/Alu.cpp. A shift by 32 or more has no defined result in C++: `none`.
pub mod Laws
use t89emu.Common.{
  ℕ, ◌*◌, ◌/◌, ◌^◌, ◌==◌, ltb, if◌then◌else◌, to_int, true, false, Option, none, some, u32, add32,
  sub32, ◌>>>◌, ◌<<<◌, bit_and, bit_or, bit_xor,
}

abbrev pub add : ℕ
add = 0

abbrev pub sub : ℕ
sub = 1

abbrev pub or : ℕ
or = 2

abbrev pub and : ℕ
and = 3

abbrev pub xor : ℕ
xor = 4

abbrev pub srl : ℕ
srl = 5

abbrev pub sra : ℕ
sra = 6

abbrev pub sll : ℕ
sll = 7

abbrev pub slt : ℕ
slt = 8

abbrev pub sltu : ℕ
sltu = 9

-- `v` is computed only for an amount that the width allows.
shift : (ℕ → ℕ) → ℕ → Option ℕ
shift v b = elim (ltb b 32) [ true ↦ some (v b) | false ↦ none ]

-- `-(A >> 31)`: all ones for a negative pattern, 0 otherwise.
sign_mask : ℕ → ℕ
sign_mask a = sub32 0 (a >>> 31)

unfoldable pub execute : ℕ → ℕ → ℕ → Option ℕ
unfolding shift sign_mask
execute a b alu_op =
    if alu_op == add
    then some (add32 a b)
    else if alu_op == sub
    then some (sub32 a b)
    else if alu_op == or
    then some (bit_or a b)
    else if alu_op == and
    then some (bit_and a b)
    else if alu_op == xor
    then some (bit_xor a b)
    else if alu_op == srl
    then shift (λ k. a >>> k) b
    else if alu_op == sra
    then shift (λ k. bit_xor (bit_xor (sign_mask a) a >>> k) (sign_mask a)) b
    else if alu_op == sll
    then shift (λ k. u32 (a <<< k)) b
    else if alu_op == slt
    then some (to_int ((sub32 a b >>> 31) == 1))
    else if alu_op == sltu
    then some (to_int (ltb a b))
    else some 0
