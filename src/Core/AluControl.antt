-- ===== src/Core/AluControl.antt =====
-- t89emu/src/AluControlUnit.cpp. Indexing a vector out of range has no behaviour: `none`.
pub mod Laws
use t89emu.Common.{ℕ, ◌==◌, if◌then◌else◌, Option, some, List, [], ◌∷◌, get_elem?}
use t89emu.Arch.Opcode

abbrev i_operations : List ℕ
i_operations = 0b0000 ∷ 0b0111 ∷ 0b1000 ∷ 0b1001 ∷ 0b0100 ∷ 0xeeee ∷ 0b0010 ∷ 0b0011 ∷ []

abbrev r_operations : List ℕ
r_operations = 0xeeee ∷ 0b0111 ∷ 0b1000 ∷ 0b1001 ∷ 0b0100 ∷ 0xeeee ∷ 0b0010 ∷ 0b0011 ∷ []

unfoldable pub get_alu_operation : ℕ → ℕ → ℕ → Option ℕ
get_alu_operation opcode funct7 funct3 =
    if opcode == Opcode.itype
    then (if funct3 == 5
        then some (if funct7 == 0b0000000 then 0b0101 else 0b0110)
        else get_elem? i_operations funct3)
    else if opcode == Opcode.rtype
    then (if funct3 == 0
        then some (if funct7 == 0b0000000 then 0b0000 else 0b0001)
        else if funct3 == 5
        then some (if funct7 == 0b0000000 then 0b0101 else 0b0110)
        else get_elem? r_operations funct3)
    else if opcode == Opcode.btype
    then some 0b0001
    else some 0b0000
