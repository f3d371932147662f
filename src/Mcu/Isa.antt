-- ===== src/Mcu/Isa.antt =====
-- The computations in registers, branches and jumps of the RISC-V manual as an abstract machine: registers, an
-- address, and what each instruction does to them. It is the contract of `executeInstruction` in
-- t89emu/src/Mcu.cpp for these; loads, stores and system instructions are not part of it.
pub mod Decode
pub mod Compute
pub mod Refine
use t89emu.Common.{
  ℕ, ◌+◌, ◌-◌, ◌*◌, ◌/◌, ◌%◌, ◌^◌, ◌<◌, ◌≡◌, ◌≢◌, ◌⊎◌, ◌==◌, ltb, leb, not, Bool, if◌then◌else◌,
  to_int, bit_and, bit_or, bit_xor,
}

pub data Operation : Type 0 where
  add sub sll slt sltu xor srl sra or and : Operation

pub data Condition : Type 0 where
  beq bne blt bge bltu bgeu : Condition

-- Destination and source registers by number; the last number is the immediate as it is encoded.
pub data Instruction : Type 0 where
  lui auipc : ℕ → ℕ → Instruction
  jal : ℕ → ℕ → Instruction
  jalr : ℕ → ℕ → ℕ → Instruction
  branch : Condition → ℕ → ℕ → ℕ → Instruction
  immediate : Operation → ℕ → ℕ → ℕ → Instruction
  register : Operation → ℕ → ℕ → ℕ → Instruction

pub record State : Type 0 where
  pub x : ℕ → ℕ
  pub pc : ℕ

-- A pattern of `k` digits in two's complement, as a 32-bit pattern.
abbrev pub extend : ℕ → ℕ → ℕ
extend k v = if leb (2 ^ (k - 1)) v then 2 ^ 32 - (2 ^ k - v) else v

-- The signed order: that of the patterns moved by 2 ^ 31.
abbrev signed_less : ℕ → ℕ → Bool
signed_less a b = ltb ((a + 2 ^ 31) % 2 ^ 32) ((b + 2 ^ 31) % 2 ^ 32)

-- Shifts take the low five digits of the second operand.
abbrev pub compute : Operation → ℕ → ℕ → ℕ
compute add a b = (a + b) % 2 ^ 32
compute sub a b = if leb b a then a - b else 2 ^ 32 - (b - a)
compute sll a b = a * 2 ^ (b % 32) % 2 ^ 32
compute slt a b = to_int (signed_less a b)
compute sltu a b = to_int (ltb a b)
compute xor a b = bit_xor a b
compute srl a b = a / 2 ^ (b % 32)
compute sra a b =
    if ltb a (2 ^ 31) then a / 2 ^ (b % 32) else 2 ^ 32 - 1 - (2 ^ 32 - 1 - a) / 2 ^ (b % 32)
compute or a b = bit_or a b
compute and a b = bit_and a b

abbrev pub holds : Condition → ℕ → ℕ → Bool
holds beq a b = a == b
holds bne a b = not (a == b)
holds blt a b = signed_less a b
holds bge a b = not (signed_less a b)
holds bltu a b = ltb a b
holds bgeu a b = leb b a

-- Register x0 is 0, whatever is written to it.
abbrev pub set : (ℕ → ℕ) → ℕ → ℕ → ℕ → ℕ
set x rd v r = if rd == r then (if r == 0 then 0 else v) else x r

abbrev pub next : State → State
next s = record s { pc = (s.pc + 4) % 2 ^ 32 }

abbrev pub step : Instruction → State → State
step (lui rd v) s = next (record s { x = set s.x rd (v * 2 ^ 12) })
step (auipc rd v) s = next (record s { x = set s.x rd ((s.pc + v * 2 ^ 12) % 2 ^ 32) })
step (jal rd v) s = record {
  x = set s.x rd ((s.pc + 4) % 2 ^ 32);
  pc = (s.pc + extend 21 v) % 2 ^ 32;
}
step (jalr rd rs1 v) s = record {
  x = set s.x rd ((s.pc + 4) % 2 ^ 32);
  pc = (s.x rs1 + extend 12 v) % 2 ^ 32 / 2 * 2;
}
step (branch c rs1 rs2 v) s = record s {
  pc = (s.pc + (if holds c (s.x rs1) (s.x rs2) then extend 13 v else 4)) % 2 ^ 32;
}
step (immediate op rd rs1 v) s =
    next (record s { x = set s.x rd (compute op (s.x rs1) (extend 12 v)) })
step (register op rd rs1 rs2) s =
    next (record s { x = set s.x rd (compute op (s.x rs1) (s.x rs2)) })
