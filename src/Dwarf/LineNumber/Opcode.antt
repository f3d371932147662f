-- ===== src/Dwarf/LineNumber/Opcode.antt =====
-- The operation codes of t89emu/include/Dwarf/DwarfEncodings.h.
use t89emu.Common.{ℕ}

abbrev pub copy : ℕ
copy = 0x01

abbrev pub advance_pc : ℕ
advance_pc = 0x02

abbrev pub advance_line : ℕ
advance_line = 0x03

abbrev pub set_file : ℕ
set_file = 0x04

abbrev pub set_column : ℕ
set_column = 0x05

abbrev pub negate_stmt : ℕ
negate_stmt = 0x06

abbrev pub set_basic_block : ℕ
set_basic_block = 0x07

abbrev pub const_add_pc : ℕ
const_add_pc = 0x08

abbrev pub fixed_advance_pc : ℕ
fixed_advance_pc = 0x09

abbrev pub set_prologue_end : ℕ
set_prologue_end = 0x0a

abbrev pub set_epilogue_end : ℕ
set_epilogue_end = 0x0b

abbrev pub set_isa : ℕ
set_isa = 0x0c

abbrev pub end_sequence : ℕ
end_sequence = 0x01

abbrev pub set_address : ℕ
set_address = 0x02

abbrev pub set_discriminator : ℕ
set_discriminator = 0x04
