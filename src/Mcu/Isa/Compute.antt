-- ===== src/Mcu/Isa/Compute.antt =====
-- The ALU and the branch conditions against the operations of the abstract machine.
use t89emu.Common.{
  ℕ, ◌+◌, ◌*◌, ◌/◌, ◌%◌, ◌^◌, ◌<◌, ◌≡◌, ◌≢◌, refl, arith, some, not, ◌==◌, ◌||◌, if◌then◌else◌,
  Bool, true, false,
}
use native.Mathlib.Nat.{mod-eq_of_lt}
use t89emu.Arch.Opcode
use t89emu.Core.Alu
use t89emu.Core.AluControl.{get_alu_operation}
use t89emu.Core.Alu.Laws.{FitsSigned, execute-sra_value}
use t89emu.State.NextPc.{branch_alu}
use t89emu.Mcu.Isa.{
  Operation, add, sub, sll, slt, sltu, xor, srl, sra, or, and, Condition, beq, bne, blt, bge, bltu,
  bgeu, compute, holds, extend,
}

-- The ALU's code of an operation, and the funct3 of an operation and of a condition.
abbrev pub alu_code : Operation → ℕ
alu_code add = Alu.add
alu_code sub = Alu.sub
alu_code sll = Alu.sll
alu_code slt = Alu.slt
alu_code sltu = Alu.sltu
alu_code xor = Alu.xor
alu_code srl = Alu.srl
alu_code sra = Alu.sra
alu_code or = Alu.or
alu_code and = Alu.and

abbrev pub funct3 : Operation → ℕ
funct3 add = 0
funct3 sub = 0
funct3 sll = 1
funct3 slt = 2
funct3 sltu = 3
funct3 xor = 4
funct3 srl = 5
funct3 sra = 5
funct3 or = 6
funct3 and = 7

abbrev pub condition3 : Condition → ℕ
condition3 beq = 0
condition3 bne = 1
condition3 blt = 4
condition3 bge = 5
condition3 bltu = 6
condition3 bgeu = 7

abbrev pub is_shift : Operation → Bool
is_shift sll = true
is_shift srl = true
is_shift sra = true
is_shift _ = false

-- Digit 5 of funct7 tells SUB from ADD and SRA from SRL.
abbrev pub variant : Operation → ℕ
variant sub = 32
variant sra = 32
variant _ = 0

-- What the emulator's ALU asks of the operands: a shift's amount below 32, and for SLT a difference
-- that fits.
abbrev pub Suits : Operation → ℕ → ℕ → Type 0
Suits sll a b = b < 32
Suits srl a b = b < 32
Suits sra a b = b < 32
Suits slt a b = FitsSigned a b
Suits _ a b = Unit {0}

abbrev pub SuitsCondition : Condition → ℕ → ℕ → Type 0
SuitsCondition blt a b = FitsSigned a b
SuitsCondition bge a b = FitsSigned a b
SuitsCondition _ a b = Unit {0}

pub execute-compute :
    (op : Operation) (a b : ℕ)
    → a < 2 ^ 32
    → b < 2 ^ 32
    → Suits op a b
    → Alu.execute a b (alu_code op) ≡ some (compute op a b)
unfolding Alu.execute
execute-compute add a b ha hb ok = refl
execute-compute sub a b ha hb ok = ground arith
execute-compute sll a b ha hb ok = rw (mod-eq_of_lt ok) (ground arith)
execute-compute slt a b ha hb ok = ground arith
execute-compute sltu a b ha hb ok = refl
execute-compute xor a b ha hb ok = refl
execute-compute srl a b ha hb ok = rw (mod-eq_of_lt ok) (ground arith)
execute-compute sra a b ha hb ok = rw (mod-eq_of_lt ok) (execute-sra_value a b ha ok)
execute-compute or a b ha hb ok = refl
execute-compute and a b ha hb ok = refl

pub branch_alu-holds :
    (c : Condition) (a b : ℕ)
    → a < 2 ^ 32
    → b < 2 ^ 32
    → SuitsCondition c a b
    → not (branch_alu a b (condition3 c) == 0) ≡ holds c a b
unfolding branch_alu
branch_alu-holds beq a b ha hb ok = ground arith
branch_alu-holds bne a b ha hb ok = ground arith
branch_alu-holds blt a b ha hb ok = ground arith
branch_alu-holds bge a b ha hb ok = ground arith
branch_alu-holds bltu a b ha hb ok = ground arith
branch_alu-holds bgeu a b ha hb ok = ground arith

pub funct3-lt : (op : Operation) → funct3 op < 8
funct3-lt add = omega arith
funct3-lt sub = omega arith
funct3-lt sll = omega arith
funct3-lt slt = omega arith
funct3-lt sltu = omega arith
funct3-lt xor = omega arith
funct3-lt srl = omega arith
funct3-lt sra = omega arith
funct3-lt or = omega arith
funct3-lt and = omega arith

pub variant-lt : (op : Operation) → variant op < 128
variant-lt add = omega arith
variant-lt sub = omega arith
variant-lt sll = omega arith
variant-lt slt = omega arith
variant-lt sltu = omega arith
variant-lt xor = omega arith
variant-lt srl = omega arith
variant-lt sra = omega arith
variant-lt or = omega arith
variant-lt and = omega arith

pub condition3-lt : (k : Condition) → condition3 k < 8
condition3-lt beq = omega arith
condition3-lt bne = omega arith
condition3-lt blt = omega arith
condition3-lt bge = omega arith
condition3-lt bltu = omega arith
condition3-lt bgeu = omega arith

-- The control unit finds the operation of a register and of an immediate form.
pub rtype_operation :
    (op : Operation) → get_alu_operation Opcode.rtype (variant op) (funct3 op) ≡ some (alu_code op)
unfolding get_alu_operation
rtype_operation add = refl
rtype_operation sub = refl
rtype_operation sll = refl
rtype_operation slt = refl
rtype_operation sltu = refl
rtype_operation xor = refl
rtype_operation srl = refl
rtype_operation sra = refl
rtype_operation or = refl
rtype_operation and = refl

abbrev ImmediateFits : Operation → ℕ → Type 0
ImmediateFits op v = v < (if is_shift op then 32 else 2 ^ 12)

pub itype_operation :
    (op : Operation) (v : ℕ)
    → op ≢ sub
    → ImmediateFits op v
    → get_alu_operation Opcode.itype ((v + variant op * 32) / 2 ^ 5) (funct3 op)
      ≡ some (alu_code op)
unfolding get_alu_operation
itype_operation add v n h = refl
itype_operation sub v n h = absurd (n refl)
itype_operation sll v n h = refl
itype_operation slt v n h = refl
itype_operation sltu v n h = refl
itype_operation xor v n h = refl
itype_operation srl v n h = ground arith
itype_operation sra v n h = ground arith
itype_operation or v n h = refl
itype_operation and v n h = refl

pub itype_digits :
    (op : Operation) (v : ℕ) → op ≢ sub → ImmediateFits op v → v + variant op * 32 < 2 ^ 12
itype_digits add v n h = omega arith
itype_digits sub v n h = absurd (n refl)
itype_digits sll v n h = omega arith
itype_digits slt v n h = omega arith
itype_digits sltu v n h = omega arith
itype_digits xor v n h = omega arith
itype_digits srl v n h = omega arith
itype_digits sra v n h = omega arith
itype_digits or v n h = omega arith
itype_digits and v n h = omega arith

pub itype_word : (op : Operation) (v : ℕ) → ImmediateFits op v → extend 12 v < 2 ^ 32
itype_word add v h = ground arith
itype_word sub v h = ground arith
itype_word sll v h = ground arith
itype_word slt v h = ground arith
itype_word sltu v h = ground arith
itype_word xor v h = ground arith
itype_word srl v h = ground arith
itype_word sra v h = ground arith
itype_word or v h = ground arith
itype_word and v h = ground arith

pub itype_immediate :
    (op : Operation) (v : ℕ)
    → op ≢ sub
    → ImmediateFits op v
    → (if (funct3 op == 1) || (funct3 op == 5)
        then (v + variant op * 32) % 32
        else extend 12 (v + variant op * 32))
      ≡ extend 12 v
itype_immediate add v n h = ground arith
itype_immediate sub v n h = absurd (n refl)
itype_immediate sll v n h = ground arith
itype_immediate slt v n h = ground arith
itype_immediate sltu v n h = ground arith
itype_immediate xor v n h = ground arith
itype_immediate srl v n h = ground arith
itype_immediate sra v n h = ground arith
itype_immediate or v n h = ground arith
itype_immediate and v n h = ground arith
