-- ===== src/Dwarf/Encoding/Form.antt =====
-- t89emu/include/Dwarf/DwarfEncodings.h: the forms of an attribute.
use t89emu.Common.{ℕ}

abbrev pub addr : ℕ
addr = 0x01

abbrev pub block2 : ℕ
block2 = 0x03

abbrev pub block4 : ℕ
block4 = 0x04

abbrev pub data2 : ℕ
data2 = 0x05

abbrev pub data4 : ℕ
data4 = 0x06

abbrev pub data8 : ℕ
data8 = 0x07

abbrev pub string : ℕ
string = 0x08

abbrev pub block : ℕ
block = 0x09

abbrev pub block1 : ℕ
block1 = 0x0a

abbrev pub data1 : ℕ
data1 = 0x0b

abbrev pub flag : ℕ
flag = 0x0c

abbrev pub sdata : ℕ
sdata = 0x0d

abbrev pub strp : ℕ
strp = 0x0e

abbrev pub udata : ℕ
udata = 0x0f

abbrev pub ref_addr : ℕ
ref_addr = 0x10

abbrev pub ref1 : ℕ
ref1 = 0x11

abbrev pub ref2 : ℕ
ref2 = 0x12

abbrev pub ref4 : ℕ
ref4 = 0x13

abbrev pub ref8 : ℕ
ref8 = 0x14

abbrev pub ref_udata : ℕ
ref_udata = 0x15

abbrev pub indirect : ℕ
indirect = 0x16

abbrev pub sec_offset : ℕ
sec_offset = 0x17

abbrev pub exprloc : ℕ
exprloc = 0x18

abbrev pub flag_present : ℕ
flag_present = 0x19

abbrev pub strx : ℕ
strx = 0x1a

abbrev pub addrx : ℕ
addrx = 0x1b

abbrev ref_sup4 : ℕ
ref_sup4 = 0x1c

abbrev strp_sup : ℕ
strp_sup = 0x1d

abbrev pub data16 : ℕ
data16 = 0x1e

abbrev pub line_strp : ℕ
line_strp = 0x1f

abbrev pub ref_sig8 : ℕ
ref_sig8 = 0x20

abbrev pub implicit_const : ℕ
implicit_const = 0x21

abbrev pub loclistx : ℕ
loclistx = 0x22

abbrev pub rnglistx : ℕ
rnglistx = 0x23

abbrev ref_sup8 : ℕ
ref_sup8 = 0x24

abbrev pub strx1 : ℕ
strx1 = 0x25

abbrev pub strx2 : ℕ
strx2 = 0x26

abbrev pub strx3 : ℕ
strx3 = 0x27

abbrev pub strx4 : ℕ
strx4 = 0x28

abbrev pub addrx1 : ℕ
addrx1 = 0x29

abbrev pub addrx2 : ℕ
addrx2 = 0x2a

abbrev pub addrx3 : ℕ
addrx3 = 0x2b

abbrev pub addrx4 : ℕ
addrx4 = 0x2c
