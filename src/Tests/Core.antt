-- ===== src/Tests/Core.antt =====
-- The ALU, the immediate generator and the next program counter on concrete words.
use t89emu.Common.{
  ℕ, ◌+◌, ◌-◌, ◌*◌, ◌/◌, ◌<◌, ◌≤◌, ◌≡◌, ◌≢◌, ◌⊎◌, ◌↔◌, refl, arith, none, some, signed32, Ensures,
  ◌%◌, ◌^◌,
}
use t89emu.Common.Int.{◌<ℤ◌}
use t89emu.Arch.Opcode
use t89emu.Core.Alu
use t89emu.Core.Alu.Laws.{FitsSigned, execute_compare, execute-sra, execute-lt}
use t89emu.Core.AluControl.{get_alu_operation}
use t89emu.Core.AluControl.Laws.{itype_always_defined}
use t89emu.Core.Immediate.{get_immediate}
use t89emu.Core.Immediate.Formats.{sign_extend}
use t89emu.Core.Immediate.RoundTrip.{
  encode_s, encode_j, get_immediate-encode_j, get_immediate-encode_s,
}
use t89emu.State.NextPc.{NextPc, branch_alu}
use t89emu.State.NextPc.Laws.{branch_alu_signed}

-- The least number against 1: the difference does not fit.
execute_compare_example :
    ((Alu.execute 0x80000000 1 Alu.sltu ≡ some 1) ↔ (0x80000000 < 1))
    × ((Alu.execute 0x80000000 1 Alu.slt ≡ some 1) ↔ (
        (FitsSigned 0x80000000 1 × (signed32 0x80000000 <ℤ signed32 1))
        ⊎ ((¬ FitsSigned 0x80000000 1) × (¬ (signed32 0x80000000 <ℤ signed32 1)))))
execute_compare_example = execute_compare 0x80000000 1 (omega arith) (omega arith)

slt_overflow : Alu.execute 0x80000000 1 Alu.slt ≡ some 0
unfolding Alu.execute
slt_overflow = refl

-- -7 shifted right by 1 is -4.
execute-sra_example :
    (r : ℕ) × (Alu.execute 0xfffffff9 1 Alu.sra ≡ some r)
    × (((0xfffffff9 < 2 ^ 31) × (r * 2 ^ 1 ≤ 0xfffffff9) × (0xfffffff9 < (r + 1) * 2 ^ 1))
        ⊎ ((2 ^ 31 ≤ 0xfffffff9)
            × (2 ^ 31 ≤ r)
            × (2 ^ 32 - 0xfffffff9 ≤ (2 ^ 32 - r) * 2 ^ 1)
            × ((2 ^ 32 - r - 1) * 2 ^ 1 < 2 ^ 32 - 0xfffffff9)))
execute-sra_example = execute-sra 0xfffffff9 1 (omega arith) (omega arith)

sra_run : Alu.execute 0xfffffff9 1 Alu.sra ≡ some 0xfffffffc
unfolding Alu.execute
sra_run = refl

execute-lt_example : Ensures (λ r. r < 2 ^ 32) (Alu.execute 0xffffffff 0xffffffff Alu.add)
execute-lt_example = execute-lt 0xffffffff 0xffffffff Alu.add (omega arith) (omega arith)

-- SRAI x1, x1, 3.
itype_always_defined_example :
    (op : ℕ) × (get_alu_operation Opcode.itype 0b0100000 (0x4030d093 / 2 ^ 12 % 8) ≡ some op)
    × (Alu.execute 0x80000000 (get_immediate 0x4030d093) op ≢ none)
itype_always_defined_example =
    itype_always_defined 0x4030d093 0x80000000 0b0100000 (omega arith) (omega arith)

get_immediate-encode_j_example : get_immediate (encode_j 1 0x1ffffc) ≡ sign_extend 21 0x1ffffc
get_immediate-encode_j_example =
    get_immediate-encode_j 1 0x1ffffc (omega arith) (omega arith) (omega arith)

get_immediate-encode_s_example : get_immediate (encode_s 2 2 3 0xff0) ≡ sign_extend 12 0xff0
get_immediate-encode_s_example =
    get_immediate-encode_s 2 2 3 0xff0 (omega arith) (omega arith) (omega arith) (omega arith)

abbrev five : ℕ
five = 5

abbrev ones : ℕ
ones = 0xffffffff

branch_alu_signed_example :
    ((branch_alu five ones 0b100 ≢ 0) ↔ (
      (FitsSigned five ones × (signed32 five <ℤ signed32 ones))
      ⊎ ((¬ FitsSigned five ones) × (¬ (signed32 five <ℤ signed32 ones)))))
    × ((branch_alu five ones 0b101 ≢ 0) ↔ (
        (FitsSigned five ones × (¬ (signed32 five <ℤ signed32 ones)))
        ⊎ ((¬ FitsSigned five ones) × (signed32 five <ℤ signed32 ones))))
branch_alu_signed_example = branch_alu_signed five ones (omega arith) (omega arith)

abbrev next_at : NextPc
next_at = record { next_pc = 0x100 }
