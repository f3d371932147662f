-- ===== src/Dwarf/Encoding/Operation.antt =====
-- t89emu/include/Dwarf/DwarfEncodings.h: the operations of a location expression that the program knows.
use t89emu.Common.{ℕ}

abbrev pub addr : ℕ
addr = 0x03

abbrev pub lit0 : ℕ
lit0 = 0x30

abbrev pub lit31 : ℕ
lit31 = 0x4f

abbrev pub fbreg : ℕ
fbreg = 0x91

abbrev pub call_frame_cfa : ℕ
call_frame_cfa = 0x9c
