-- ===== src/State/NextPc.antt =====
-- t89emu/src/NextPc.cpp and t89emu/src/ProgramCounter.cpp.
pub mod Laws
use t89emu.Common.{ℕ, ◌%◌, ◌==◌, ltb, leb, not, if◌then◌else◌, to_int, ◌&&◌, add32, sub32, ◌>>>◌}
use t89emu.Arch.Opcode
use t89emu.Arch.Code

pub record ProgramCounter : Type 0 where
  pub pc : ℕ

pub record NextPc : Type 0 where
  pub next_pc : ℕ

-- The branch condition; any result but 0 means that the branch is taken.
unfoldable pub branch_alu : ℕ → ℕ → ℕ → ℕ
branch_alu a b funct3 =
    let alu_out = sub32 a b in
    if funct3 == 0b000
    then to_int (alu_out == 0)
    else if funct3 == 0b001
    then alu_out
    else if funct3 == 0b100
    then to_int ((alu_out >>> 31) == 1)
    else if funct3 == 0b101
    then to_int ((alu_out >>> 31) == 0)
    else if funct3 == 0b110
    then to_int (ltb a b)
    else if funct3 == 0b111
    then to_int (leb b a)
    else 0

-- The new address, before it is checked.
unfoldable pub target : NextPc → ℕ → ℕ → ℕ → ℕ → ℕ → ℕ → ℕ
target n offset opcode funct3 a b mepc =
    if opcode == Opcode.jal
    then add32 n.next_pc offset
    else if opcode == Opcode.jalr
    then add32 a offset
    else if opcode == Opcode.btype
    then add32 n.next_pc (if not (branch_alu a b funct3 == 0) then offset else 4)
    else if opcode == Opcode.priv
    then (if (funct3 == 0) && (offset == Code.mret_imm) then mepc else add32 n.next_pc 4)
    else add32 n.next_pc 4

-- The new state and the status.
unfoldable pub calculate_next_pc : NextPc → ℕ → ℕ → ℕ → ℕ → ℕ → ℕ → NextPc × ℕ
calculate_next_pc n offset opcode funct3 a b mepc =
    let next = target n offset opcode funct3 a b mepc in
    (
      record { next_pc = next },
      if not (next % 4 == 0) then Code.instruction_address_misaligned else Code.status_ok,
    )
