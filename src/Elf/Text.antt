-- ===== src/Elf/Text.antt =====
-- t89emu/src/ElfParser.cpp, `generateInstructionStr` and `getCsrName`: the text of an instruction, up to the
-- characters that `sprintf` makes of it.
use t89emu.Common.{
  ℕ, ◌/◌, ◌%◌, ◌^◌, ◌==◌, if◌then◌else◌, none, some, List, [], ◌∷◌, get_elem?, add32,
}
use t89emu.Arch.Opcode
use t89emu.Arch.Code
use t89emu.Result.{Result, ok, exited, fault, ◌>>=◌}
use t89emu.Core.Immediate.{get_immediate}

-- The names are lists of characters.

abbrev branch_instructions : List (List ℕ)
branch_instructions =
    (98 ∷ 101 ∷ 113 ∷ [])
    ∷ (98 ∷ 110 ∷ 101 ∷ [])
    ∷ (110 ∷ 97 ∷ 110 ∷ [])
    ∷ (110 ∷ 97 ∷ 110 ∷ [])
    ∷ (98 ∷ 108 ∷ 116 ∷ [])
    ∷ (98 ∷ 103 ∷ 101 ∷ [])
    ∷ (98 ∷ 108 ∷ 116 ∷ 117 ∷ [])
    ∷ (98 ∷ 103 ∷ 101 ∷ 117 ∷ [])
    ∷ []

abbrev load_instructions : List (List ℕ)
load_instructions =
    (108 ∷ 98 ∷ [])
    ∷ (108 ∷ 104 ∷ [])
    ∷ (108 ∷ 119 ∷ [])
    ∷ (110 ∷ 97 ∷ 110 ∷ [])
    ∷ (108 ∷ 98 ∷ 117 ∷ [])
    ∷ (108 ∷ 104 ∷ 117 ∷ [])
    ∷ []

abbrev store_instructions : List (List ℕ)
store_instructions = (115 ∷ 98 ∷ []) ∷ (115 ∷ 104 ∷ []) ∷ (115 ∷ 119 ∷ []) ∷ []

abbrev i_instructions : List (List ℕ)
i_instructions =
    (97 ∷ 100 ∷ 100 ∷ 105 ∷ [])
    ∷ (115 ∷ 108 ∷ 108 ∷ 105 ∷ [])
    ∷ (115 ∷ 108 ∷ 116 ∷ 105 ∷ [])
    ∷ (115 ∷ 108 ∷ 116 ∷ 105 ∷ 117 ∷ [])
    ∷ (120 ∷ 111 ∷ 114 ∷ 105 ∷ [])
    ∷ (110 ∷ 97 ∷ 110 ∷ [])
    ∷ (111 ∷ 114 ∷ 105 ∷ [])
    ∷ (97 ∷ 110 ∷ 100 ∷ 105 ∷ [])
    ∷ []

abbrev r_instructions : List (List ℕ)
r_instructions =
    (110 ∷ 97 ∷ 110 ∷ [])
    ∷ (115 ∷ 108 ∷ 108 ∷ [])
    ∷ (115 ∷ 108 ∷ 116 ∷ [])
    ∷ (115 ∷ 108 ∷ 116 ∷ 117 ∷ [])
    ∷ (120 ∷ 111 ∷ 114 ∷ [])
    ∷ (110 ∷ 97 ∷ 110 ∷ [])
    ∷ (111 ∷ 114 ∷ [])
    ∷ (97 ∷ 110 ∷ 100 ∷ [])
    ∷ []

abbrev csr_instructions : List (List ℕ)
csr_instructions =
    (110 ∷ 97 ∷ 110 ∷ [])
    ∷ (99 ∷ 115 ∷ 114 ∷ 114 ∷ 119 ∷ [])
    ∷ (99 ∷ 115 ∷ 114 ∷ 114 ∷ 115 ∷ [])
    ∷ (99 ∷ 115 ∷ 114 ∷ 114 ∷ 99 ∷ [])
    ∷ []

abbrev lui_name : List ℕ
lui_name = 108 ∷ 117 ∷ 105 ∷ []

abbrev auipc_name : List ℕ
auipc_name = 97 ∷ 117 ∷ 105 ∷ 112 ∷ 99 ∷ []

abbrev jal_name : List ℕ
jal_name = 106 ∷ 97 ∷ 108 ∷ []

abbrev jalr_name : List ℕ
jalr_name = 106 ∷ 97 ∷ 108 ∷ 114 ∷ []

abbrev slli_name : List ℕ
slli_name = 115 ∷ 108 ∷ 108 ∷ 105 ∷ []

abbrev srli_name : List ℕ
srli_name = 115 ∷ 114 ∷ 108 ∷ 105 ∷ []

abbrev srai_name : List ℕ
srai_name = 115 ∷ 114 ∷ 97 ∷ 105 ∷ []

abbrev add_name : List ℕ
add_name = 97 ∷ 100 ∷ 100 ∷ []

abbrev sub_name : List ℕ
sub_name = 115 ∷ 117 ∷ 98 ∷ []

abbrev srl_name : List ℕ
srl_name = 115 ∷ 114 ∷ 108 ∷ []

abbrev sra_name : List ℕ
sra_name = 115 ∷ 114 ∷ 97 ∷ []

abbrev mret_name : List ℕ
mret_name = 109 ∷ 114 ∷ 101 ∷ 116 ∷ []

abbrev ecall_name : List ℕ
ecall_name = 101 ∷ 99 ∷ 97 ∷ 108 ∷ 108 ∷ []

abbrev csr_names : List (ℕ × List ℕ)
csr_names =
    (768, 109 ∷ 115 ∷ 116 ∷ 97 ∷ 116 ∷ 117 ∷ 115 ∷ [])
    ∷ (769, 109 ∷ 105 ∷ 115 ∷ 97 ∷ [])
    ∷ (772, 109 ∷ 105 ∷ 101 ∷ [])
    ∷ (773, 109 ∷ 116 ∷ 118 ∷ 101 ∷ 99 ∷ [])
    ∷ (832, 109 ∷ 115 ∷ 99 ∷ 114 ∷ 97 ∷ 116 ∷ 99 ∷ 104 ∷ [])
    ∷ (833, 109 ∷ 101 ∷ 112 ∷ 99 ∷ [])
    ∷ (834, 109 ∷ 99 ∷ 97 ∷ 117 ∷ 115 ∷ 101 ∷ [])
    ∷ (835, 109 ∷ 116 ∷ 118 ∷ 97 ∷ 108 ∷ [])
    ∷ (836, 109 ∷ 105 ∷ 112 ∷ [])
    ∷ (2816, 109 ∷ 99 ∷ 121 ∷ 99 ∷ 108 ∷ 101 ∷ [])
    ∷ (2818, 109 ∷ 105 ∷ 110 ∷ 115 ∷ 116 ∷ 114 ∷ 101 ∷ 116 ∷ [])
    ∷ (2944, 109 ∷ 99 ∷ 121 ∷ 99 ∷ 108 ∷ 101 ∷ 104 ∷ [])
    ∷ (2946, 109 ∷ 105 ∷ 110 ∷ 115 ∷ 116 ∷ 114 ∷ 101 ∷ 116 ∷ 104 ∷ [])
    ∷ (3857, 109 ∷ 118 ∷ 101 ∷ 110 ∷ 100 ∷ 111 ∷ 114 ∷ 105 ∷ 100 ∷ [])
    ∷ (3858, 109 ∷ 97 ∷ 114 ∷ 99 ∷ 104 ∷ 105 ∷ 100 ∷ [])
    ∷ (3859, 109 ∷ 105 ∷ 109 ∷ 112 ∷ 105 ∷ 100 ∷ [])
    ∷ (3860, 109 ∷ 104 ∷ 97 ∷ 114 ∷ 116 ∷ 105 ∷ 100 ∷ [])
    ∷ []

-- "CSR_UNKWN"
abbrev unknown_csr : List ℕ
unknown_csr = 67 ∷ 83 ∷ 82 ∷ 95 ∷ 85 ∷ 78 ∷ 75 ∷ 87 ∷ 78 ∷ []

unfoldable name_in : List (ℕ × List ℕ) → ℕ → List ℕ
name_in [] csr_addr = unknown_csr
name_in ((a, name) ∷ names) csr_addr =
    let rest = name_in names csr_addr in if a == csr_addr then name else rest

unfoldable get_csr_name : ℕ → List ℕ
unfolding name_in
get_csr_name csr_addr = name_in csr_names csr_addr

-- The formats with their arguments, registers by number: "%s %s,0x%x", "%s %s,%x", "%s %s,%d(%s)", "%s %s,%s,%x",
-- "%s %s,%s,0x%x", "%s %s,%s,%d", "%s %s,%s,%s" for three registers and for a control register, a name alone, and
-- "%08x".
pub data Text : Type 0 where
  upper jump : List ℕ → ℕ → ℕ → Text
  indirect : List ℕ → ℕ → ℕ → ℕ → Text
  branch shift constant registers : List ℕ → ℕ → ℕ → ℕ → Text
  csr : List ℕ → ℕ → List ℕ → ℕ → Text
  plain : List ℕ → Text
  raw : ℕ → Text

-- `at`: an index outside the table throws `std::out_of_range`, which nothing catches, so the program ends.
unfoldable name_at : List (List ℕ) → ℕ → Result (List ℕ)
name_at names i = elim (get_elem? names i) [ none ↦ exited | some name ↦ ok name ]

-- The two variants of an instruction that funct7 tells apart; for any other nothing is written to the buffer,
-- which is then read.
unfoldable variant_text : ℕ → Text → Text → Result Text
variant_text funct7 first second =
    if funct7 == 0 then ok first else if funct7 == 0b0100000 then ok second else fault

-- The fields of an instruction word.
pub record Fields : Type 0 where
  pub funct3 : ℕ
  pub funct7 : ℕ
  pub rs1 : ℕ
  pub rs2 : ℕ
  pub rd : ℕ
  pub immediate : ℕ
  pub csr_addr : ℕ

unfoldable pub fields : ℕ → Fields
fields w = record {
  funct3 = w / 2 ^ 12 % 8;
  funct7 = w / 2 ^ 25 % 128;
  rs1 = w / 2 ^ 15 % 32;
  rs2 = w / 2 ^ 20 % 32;
  rd = w / 2 ^ 7 % 32;
  immediate = get_immediate w;
  csr_addr = w / 2 ^ 20 % 4096;
}

unfoldable itype_text : Fields → Result Text
unfolding name_at variant_text
itype_text f =
    if f.funct3 == 0b101
    then variant_text f.funct7 (shift srli_name f.rd f.rs1 f.immediate)
        (shift srai_name f.rd f.rs1 f.immediate)
    else if f.funct3 == 0b001
    then ok (shift slli_name f.rd f.rs1 f.immediate)
    else (do name ← name_at i_instructions f.funct3; ok (constant name f.rd f.rs1 f.immediate))

unfoldable rtype_text : Fields → Result Text
unfolding name_at variant_text
rtype_text f =
    if f.funct3 == 0b000
    then variant_text f.funct7 (registers add_name f.rd f.rs1 f.rs2)
        (registers sub_name f.rd f.rs1 f.rs2)
    else if f.funct3 == 0b101
    then variant_text f.funct7 (registers srl_name f.rd f.rs1 f.rs2)
        (registers sra_name f.rd f.rs1 f.rs2)
    else (do name ← name_at r_instructions f.funct3; ok (registers name f.rd f.rs1 f.rs2))

unfoldable priv_text : Fields → Result Text
unfolding name_at get_csr_name
priv_text f =
    if f.funct3 == 0b000
    then (if f.immediate == Code.mret_imm
        then ok (plain mret_name)
        else if f.immediate == Code.ecall_imm
        then ok (plain ecall_name)
        else fault)
    else (do
      name ← name_at csr_instructions f.funct3
      ok (csr name f.rd (get_csr_name f.csr_addr) f.rs1))

unfoldable pub generate_instruction_str : ℕ → ℕ → Result Text
unfolding fields itype_text rtype_text priv_text name_at
generate_instruction_str w addr =
    let opcode = w % 128 in
    let f = fields w in
    if opcode == Opcode.lui
    then ok (upper lui_name f.rd (f.immediate / 2 ^ 12 % 2 ^ 20))
    else if opcode == Opcode.auipc
    then ok (upper auipc_name f.rd (f.immediate / 2 ^ 12 % 2 ^ 20))
    else if opcode == Opcode.jal
    then ok (jump jal_name f.rd (add32 f.immediate addr))
    else if opcode == Opcode.jalr
    then ok (indirect jalr_name f.rd f.immediate f.rs1)
    else if opcode == Opcode.btype
    then (do
      name ← name_at branch_instructions f.funct3
      ok (branch name f.rs1 f.rs2 (add32 f.immediate addr)))
    else if opcode == Opcode.load
    then (do name ← name_at load_instructions f.funct3; ok (indirect name f.rd f.immediate f.rs1))
    else if opcode == Opcode.store
    then (do name ← name_at store_instructions f.funct3; ok (indirect name f.rs2 f.immediate f.rs1))
    else if opcode == Opcode.itype
    then itype_text f
    else if opcode == Opcode.rtype
    then rtype_text f
    else if opcode == Opcode.priv
    then priv_text f
    else ok (raw w)
