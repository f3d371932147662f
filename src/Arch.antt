-- ===== src/Arch.antt =====
-- t89emu/include/Architecture.h: access sizes; the opcodes and the codes are in the children.
pub mod Opcode
pub mod Code
use t89emu.Common.{ℕ}

abbrev pub byte : ℕ
byte = 1

abbrev pub halfword : ℕ
halfword = 2

abbrev pub word : ℕ
word = 4
