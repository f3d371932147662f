-- ===== src/State/NextPc/Laws.antt =====
-- Branch conditions and the next address.
use t89emu.Common.{
  ℕ, ◌+◌, ◌%◌, ◌^◌, ◌<◌, ◌≤◌, ◌≡◌, ◌≢◌, ◌↔◌, ◌⊎◌, arith, signed32, ◌==◌, if◌then◌else◌,
}
use t89emu.Common.Int.{◌<ℤ◌}
use t89emu.Core.Alu.Laws.{FitsSigned, sign_of_difference, sign_of_difference_lem}
use t89emu.Arch.Opcode
use t89emu.Arch.Code
use t89emu.State.NextPc.{NextPc, branch_alu, target, calculate_next_pc}

-- BEQ, BNE, BLTU and BGEU, on two words, branch exactly when the words are equal, different, in the
-- unsigned order, or not in it.
branch_alu_unsigned :
    (a b : ℕ)
    → a < 2 ^ 32
    → b < 2 ^ 32
    → ((branch_alu a b 0b000 ≢ 0) ↔ (a ≡ b))
      × ((branch_alu a b 0b001 ≢ 0) ↔ (a ≢ b))
      × ((branch_alu a b 0b110 ≢ 0) ↔ (a < b))
      × ((branch_alu a b 0b111 ≢ 0) ↔ (b ≤ a))
unfolding branch_alu
branch_alu_unsigned a b ha hb = ground arith

branch_alu_sign :
    (a b : ℕ)
    → ((branch_alu a b 0b100 ≢ 0) ↔ (sign_of_difference a b ≡ 1))
      × ((branch_alu a b 0b101 ≢ 0) ↔ (sign_of_difference a b ≢ 1))
unfolding branch_alu sign_of_difference
branch_alu_sign a b = ground arith

-- BLT and BGE, on two words, branch on the signed order if the signed difference of the operands fits
-- in 32 digits, and on its opposite if it does not.
pub branch_alu_signed :
    (a b : ℕ)
    → a < 2 ^ 32
    → b < 2 ^ 32
    → ((branch_alu a b 0b100 ≢ 0) ↔ (
        (FitsSigned a b × (signed32 a <ℤ signed32 b))
        ⊎ ((¬ FitsSigned a b) × (¬ (signed32 a <ℤ signed32 b)))))
      × ((branch_alu a b 0b101 ≢ 0) ↔ (
          (FitsSigned a b × (¬ (signed32 a <ℤ signed32 b)))
          ⊎ ((¬ FitsSigned a b) × (signed32 a <ℤ signed32 b))))
branch_alu_signed a b ha hb = ground (arith, sign_of_difference_lem a b ha hb, branch_alu_sign a b)

-- Whatever the instruction, the new address is stored, and the status is success for a multiple of 4
-- and the misaligned address exception otherwise. The address is 4 on, with wrap-around, unless the
-- instruction is a jump, a branch or MRET.
calculate_next_pc_lem :
    (n : NextPc) (offset opcode funct3 a b mepc : ℕ)
    → let (n', status) = calculate_next_pc n offset opcode funct3 a b mepc in
      (status
        ≡ (if n'.next_pc % 4 == 0 then Code.status_ok else Code.instruction_address_misaligned))
      × ((n'.next_pc ≡ (n.next_pc + 4) % 2 ^ 32)
          ⊎ (opcode ≡ Opcode.jal)
          ⊎ (opcode ≡ Opcode.jalr)
          ⊎ (opcode ≡ Opcode.btype)
          ⊎ ((opcode ≡ Opcode.priv) × (funct3 ≡ 0) × (offset ≡ Code.mret_imm)))
unfolding calculate_next_pc target
calculate_next_pc_lem n offset opcode funct3 a b mepc = ground arith
