-- ===== src/Arch/Opcode.antt =====
-- t89emu/include/Architecture.h: the major opcodes.
use t89emu.Common.{ℕ}

abbrev pub lui : ℕ
lui = 0b0110111

abbrev pub auipc : ℕ
auipc = 0b0010111

abbrev pub jal : ℕ
jal = 0b1101111

abbrev pub jalr : ℕ
jalr = 0b1100111

abbrev pub btype : ℕ
btype = 0b1100011

abbrev pub load : ℕ
load = 0b0000011

abbrev pub store : ℕ
store = 0b0100011

abbrev pub itype : ℕ
itype = 0b0010011

abbrev pub rtype : ℕ
rtype = 0b0110011

abbrev pub priv : ℕ
priv = 0b1110011
