-- ===== src/Dwarf/Encoding/Attribute.antt =====
-- t89emu/include/Dwarf/DwarfEncodings.h: the attributes that the program reads.
use t89emu.Common.{ℕ}

abbrev pub location : ℕ
location = 0x02

abbrev pub name : ℕ
name = 0x03

abbrev pub byte_size : ℕ
byte_size = 0x0b

abbrev pub low_pc : ℕ
low_pc = 0x11

abbrev pub high_pc : ℕ
high_pc = 0x12

abbrev pub decl_line : ℕ
decl_line = 0x3b

abbrev pub encoding : ℕ
encoding = 0x3e

abbrev pub frame_base : ℕ
frame_base = 0x40

abbrev type_ref : ℕ
type_ref = 0x49

abbrev pub endianity : ℕ
endianity = 0x65
