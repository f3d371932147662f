-- ===== src/Dwarf/Encoding/Tag.antt =====
-- t89emu/include/Dwarf/DwarfEncodings.h: the tags that the program tells apart.
use t89emu.Common.{ℕ}

abbrev pub array_type : ℕ
array_type = 0x01

abbrev pub class_type : ℕ
class_type = 0x02

abbrev pub entry_point : ℕ
entry_point = 0x03

abbrev pub enumeration_type : ℕ
enumeration_type = 0x04

abbrev pub formal_parameter : ℕ
formal_parameter = 0x05

abbrev pub pointer_type : ℕ
pointer_type = 0x0f

abbrev pub reference_type : ℕ
reference_type = 0x10

abbrev pub string_type : ℕ
string_type = 0x12

abbrev pub structure_type : ℕ
structure_type = 0x13

abbrev pub typedef : ℕ
typedef = 0x16

abbrev pub union_type : ℕ
union_type = 0x17

abbrev pub inlined_subroutine : ℕ
inlined_subroutine = 0x1d

abbrev pub ptr_to_member_type : ℕ
ptr_to_member_type = 0x1f

abbrev pub base_type : ℕ
base_type = 0x24

abbrev pub const_type : ℕ
const_type = 0x26

abbrev pub subprogram : ℕ
subprogram = 0x2e

abbrev pub variable : ℕ
variable = 0x34

abbrev pub volatile_type : ℕ
volatile_type = 0x35

abbrev pub restrict_type : ℕ
restrict_type = 0x37

abbrev pub unspecified_type : ℕ
unspecified_type = 0x3b

abbrev pub rvalue_reference_type : ℕ
rvalue_reference_type = 0x42

abbrev pub atomic_type : ℕ
atomic_type = 0x47
