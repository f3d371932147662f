-- ===== src/Core/AluControl/Laws.antt =====
-- The control unit and the immediate generator together: which operations the ALU is asked for.
use t89emu.Common.{
  ℕ, zero, suc, ◌/◌, ◌%◌, ◌^◌, ◌<◌, ◌≡◌, ◌≢◌, ◌⊎◌, arith, some, none, Ensures, Ensures-get,
}
use t89emu.Arch.Opcode
use t89emu.Core.Alu.{execute, srl, sra, sll}
use t89emu.Core.Alu.Laws.{execute-none_iff}
use t89emu.Core.AluControl.{get_alu_operation}
use t89emu.Core.Immediate.{get_immediate}
use t89emu.Core.Immediate.RoundTrip.{get_immediate-itype}

-- The operation is one that the ALU knows, and it is a shift only for funct3 1 or 5.
abbrev IsOperation : ℕ → ℕ → Type 0
IsOperation funct3 op =
    (op < 10) × ((op ≡ srl) ⊎ (op ≡ sra) ⊎ (op ≡ sll) → (funct3 ≡ 1) ⊎ (funct3 ≡ 5))

IsOperation-bounds :
    (opcode funct7 funct3 : ℕ)
    → Ensures (IsOperation funct3) (get_alu_operation opcode funct7 funct3)
unfolding get_alu_operation
IsOperation-bounds opcode funct7 zero = ground arith
IsOperation-bounds opcode funct7 (suc zero) = ground arith
IsOperation-bounds opcode funct7 (suc (suc zero)) = ground arith
IsOperation-bounds opcode funct7 (suc (suc (suc zero))) = ground arith
IsOperation-bounds opcode funct7 (suc (suc (suc (suc zero)))) = ground arith
IsOperation-bounds opcode funct7 (suc (suc (suc (suc (suc zero))))) = ground arith
IsOperation-bounds opcode funct7 (suc (suc (suc (suc (suc (suc zero)))))) = ground arith
IsOperation-bounds opcode funct7 (suc (suc (suc (suc (suc (suc (suc zero))))))) = ground arith
IsOperation-bounds opcode funct7 (suc (suc (suc (suc (suc (suc (suc (suc f)))))))) = ground arith

operation-ne-none :
    (opcode funct7 funct3 : ℕ) → funct3 < 8 → get_alu_operation opcode funct7 funct3 ≢ none
unfolding get_alu_operation
operation-ne-none opcode funct7 zero h = ground arith
operation-ne-none opcode funct7 (suc zero) h = ground arith
operation-ne-none opcode funct7 (suc (suc zero)) h = ground arith
operation-ne-none opcode funct7 (suc (suc (suc zero))) h = ground arith
operation-ne-none opcode funct7 (suc (suc (suc (suc zero)))) h = ground arith
operation-ne-none opcode funct7 (suc (suc (suc (suc (suc zero))))) h = ground arith
operation-ne-none opcode funct7 (suc (suc (suc (suc (suc (suc zero)))))) h = ground arith
operation-ne-none opcode funct7 (suc (suc (suc (suc (suc (suc (suc zero))))))) h = ground arith
operation-ne-none opcode funct7 (suc (suc (suc (suc (suc (suc (suc (suc f)))))))) h =
    absurd (omega arith)

-- For every opcode and every three-digit funct3 the control unit finds an entry.
get_alu_operation_total :
    (opcode funct7 funct3 : ℕ)
    → funct3 < 8
    → (op : ℕ) × (get_alu_operation opcode funct7 funct3 ≡ some op) × IsOperation funct3 op
get_alu_operation_total opcode funct7 funct3 h =
    Ensures-get (IsOperation funct3) (get_alu_operation opcode funct7 funct3)
      (operation-ne-none opcode funct7 funct3 h) (IsOperation-bounds opcode funct7 funct3)

shift_immediate :
    (x : ℕ)
    → x < 2 ^ 32
    → x % 128 ≡ Opcode.itype
    → (x / 2 ^ 12 % 8 ≡ 1) ⊎ (x / 2 ^ 12 % 8 ≡ 5)
    → get_immediate x < 32
shift_immediate x h o f = ground (arith, get_immediate-itype x h o)

-- An immediate operation always has a result: for each 32-bit word of that opcode, each funct7 and each
-- operand, the control unit names an operation that the ALU defines on the generated immediate. (The
-- generator keeps five digits of a shift's amount.)
pub itype_always_defined :
    (x a funct7 : ℕ)
    → x < 2 ^ 32
    → x % 128 ≡ Opcode.itype
    → (op : ℕ) × (get_alu_operation Opcode.itype funct7 (x / 2 ^ 12 % 8) ≡ some op)
      × (execute a (get_immediate x) op ≢ none)
itype_always_defined x a funct7 h o =
    let (op, e, bounds) =
      get_alu_operation_total Opcode.itype funct7 (x / 2 ^ 12 % 8) (omega arith) in
    (
      op,
      e,
      λ bad.
          let (which, wide) = (execute-none_iff a (get_immediate x) op).0 bad in
          omega (arith, shift_immediate x h o (bounds.1 which)),
    )
