-- ===== src/Mcu/Isa/Refine.antt =====
-- `executeInstruction` as an implementation of the abstract machine.
use t89emu.Common.{
  ℕ, ◌+◌, ◌*◌, ◌/◌, ◌%◌, ◌^◌, ◌<◌, ◌≡◌, ◌≢◌, ◌∙◌, ◌⊎◌, inl, inr, refl, arith, some, none, add32,
  if◌then◌else◌,
}
use t89emu.Arch.{word}
use t89emu.Arch.Opcode
use t89emu.Arch.Code
use t89emu.Core.Immediate.RoundTrip.{encode_i, encode_b, encode_u, encode_j}
use t89emu.State.NextPc.{target}
use t89emu.Bus
use t89emu.Mcu.Decode.{decode}
use t89emu.Mcu.Invariant.{IsWellFormed}
use t89emu.Mcu.Execute.{Mcu, proceed, dispatch, execute_instruction}
use t89emu.Mcu.Execute.Cases.{
  with_registers, dispatch-lui, dispatch-auipc, dispatch-jal, dispatch-jalr, dispatch-itype,
  dispatch-rtype, dispatch-branch, execute_at,
}
use t89emu.Mcu.Isa.{
  Operation, sub, Condition, Instruction, lui, auipc, jal, jalr, branch, immediate, register, State,
  extend, compute, holds, set, step,
}
use t89emu.Mcu.Isa.Compute.{
  alu_code, funct3, condition3, is_shift, variant, funct3-lt, condition3-lt, itype_operation,
  rtype_operation, itype_immediate, itype_digits, itype_word, variant-lt, Suits, SuitsCondition,
  execute-compute, branch_alu-holds,
}
use t89emu.Mcu.Isa.Decode.{
  encode_r, decode-encode_u, decode-encode_j, decode-encode_b, decode-encode_r, decode-encode_i,
}

abbrev pub view : Mcu → State
view c = record { x = c.rf.registers; pc = c.pc.pc }

-- The machine that shows another state, with both counters at its address.
abbrev pub with_state : Mcu → State → Mcu
with_state c s = record c {
  rf = record { registers = s.x };
  pc = record { pc = s.pc };
  next_pc = record { next_pc = s.pc };
}

abbrev pub encode : Instruction → ℕ
encode (lui rd v) = encode_u Opcode.lui rd v
encode (auipc rd v) = encode_u Opcode.auipc rd v
encode (jal rd v) = encode_j rd v
encode (jalr rd rs1 v) = encode_i Opcode.jalr rd 0 rs1 v
encode (branch c rs1 rs2 v) = encode_b (condition3 c) rs1 rs2 v
encode (immediate op rd rs1 v) = encode_i Opcode.itype rd (funct3 op) rs1 (v + variant op * 32)
encode (register op rd rs1 rs2) = encode_r (variant op) rs2 rs1 (funct3 op) rd

-- The fields fit, the offsets are even, and there is no SUB of an immediate.
abbrev IsEncodable : Instruction → Type 0
IsEncodable (lui rd v) = (rd < 32) × (v < 2 ^ 20)
IsEncodable (auipc rd v) = (rd < 32) × (v < 2 ^ 20)
IsEncodable (jal rd v) = (rd < 32) × (v < 2 ^ 21) × (v % 2 ≡ 0)
IsEncodable (jalr rd rs1 v) = (rd < 32) × (rs1 < 32) × (v < 2 ^ 12)
IsEncodable (branch c rs1 rs2 v) = (rs1 < 32) × (rs2 < 32) × (v < 2 ^ 13) × (v % 2 ≡ 0)
IsEncodable (immediate op rd rs1 v) =
    (op ≢ sub) × (rd < 32) × (rs1 < 32) × (v < (if is_shift op then 32 else 2 ^ 12))
IsEncodable (register op rd rs1 rs2) = (rd < 32) × (rs1 < 32) × (rs2 < 32)

-- Where the emulator keeps to the manual: operands that its ALU compares and shifts rightly, and an even
-- sum for a jump through a register.
abbrev IsFaithful : Instruction → State → Type 0
IsFaithful (jalr rd rs1 v) s = (s.x rs1 + extend 12 v) % 2 ^ 32 % 2 ≡ 0
IsFaithful (branch c rs1 rs2 v) s = SuitsCondition c (s.x rs1) (s.x rs2)
IsFaithful (immediate op rd rs1 v) s = Suits op (s.x rs1) (extend 12 v)
IsFaithful (register op rd rs1 rs2) s = Suits op (s.x rs1) (s.x rs2)
IsFaithful _ s = Unit {0}

abbrev Fetches : Mcu → ℕ → Type 0
Fetches c w = Bus.read c.bus c.devices c.pc.pc word none ≡ some (Code.status_ok, some w)

-- A word is executed as the instruction `i`.
abbrev Executes : Mcu → Instruction → Type 0
Executes c i =
    (step i (view c)).pc % 4 ≡ 0
    → execute_instruction c ≡ some (with_state c (step i (view c)), Code.status_ok)

module _ (c : Mcu) (wf : IsWellFormed c) (same : c.next_pc.next_pc ≡ c.pc.pc) where
  -- An instruction that writes a register and goes on behind itself.
  refines-plain :
      (w rd v : ℕ)
      → Fetches c w
      → ((decode w).opcode ≡ Opcode.lui)
        ⊎ ((decode w).opcode ≡ Opcode.auipc)
        ⊎ ((decode w).opcode ≡ Opcode.itype)
        ⊎ ((decode w).opcode ≡ Opcode.rtype)
      → dispatch c c.pc.pc (decode w)
        ≡ some (proceed (with_registers c (set c.rf.registers rd v)) 0 0)
      → (c.pc.pc + 4) % 2 ^ 32 % 4 ≡ 0
      → execute_instruction c
        ≡ some (
          with_state c (record { x = set c.rf.registers rd v; pc = (c.pc.pc + 4) % 2 ^ 32 }),
          Code.status_ok,
        )
  refines-plain w rd v fetch o e aligned =
      execute_at c (with_registers c (set c.rf.registers rd v)) w 0 0 ((c.pc.pc + 4) % 2 ^ 32) fetch
        e (unfold target in rw same (ground arith)) aligned

  refines-lui :
      (rd v : ℕ) → IsEncodable (lui rd v) → Fetches c (encode (lui rd v)) → Executes c (lui rd v)
  refines-lui rd v (hrd, hv) fetch =
      let w = encode (lui rd v) in
      let (o, r, m) = decode-encode_u Opcode.lui rd v (inl refl) hrd hv in
      refines-plain w rd (v * 2 ^ 12) fetch (inl o)
        (dispatch-lui c c.pc.pc (decode w) (rw r hrd) o ∙ rw (r, m))

  refines-auipc :
      (rd v : ℕ)
      → IsEncodable (auipc rd v)
      → Fetches c (encode (auipc rd v))
      → Executes c (auipc rd v)
  refines-auipc rd v (hrd, hv) fetch =
      let w = encode (auipc rd v) in
      let (o, r, m) = decode-encode_u Opcode.auipc rd v (inr refl) hrd hv in
      refines-plain w rd ((c.pc.pc + v * 2 ^ 12) % 2 ^ 32) fetch (inr (inl o))
        (dispatch-auipc c c.pc.pc (decode w) (rw r hrd) o ∙ rw (r, m))

  refines-jal :
      (rd v : ℕ) → IsEncodable (jal rd v) → Fetches c (encode (jal rd v)) → Executes c (jal rd v)
  refines-jal rd v (hrd, hv, even) fetch =
      let w = encode (jal rd v) in
      let (o, r, m) = decode-encode_j rd v hrd hv even in
      execute_at c (with_registers c (set c.rf.registers rd (add32 c.pc.pc 4))) w 0 0
        ((c.pc.pc + extend 21 v) % 2 ^ 32) fetch
        (dispatch-jal c c.pc.pc (decode w) (rw r hrd) o ∙ rw r) (unfold target in rw (o, m, same))

  refines-jalr :
      (rd rs1 v : ℕ)
      → IsEncodable (jalr rd rs1 v)
      → IsFaithful (jalr rd rs1 v) (view c)
      → Fetches c (encode (jalr rd rs1 v))
      → Executes c (jalr rd rs1 v)
  refines-jalr rd rs1 v (hrd, h1, hv) even fetch =
      let w = encode (jalr rd rs1 v) in
      let (o, r, f, r1, f7, m) =
        decode-encode_i Opcode.jalr rd 0 rs1 v (inl refl) hrd (omega arith) h1 hv in
      execute_at c (with_registers c (set c.rf.registers rd (add32 c.pc.pc 4))) w
        (c.rf.registers rs1) 0 ((c.rf.registers rs1 + extend 12 v) % 2 ^ 32 / 2 * 2) fetch
        (dispatch-jalr c c.pc.pc (decode w) (rw r hrd) o (rw r1 h1) ∙ rw (r, r1))
        (unfold target in rw (o, m) (omega arith))

  refines-branch :
      (k : Condition) (rs1 rs2 v : ℕ)
      → IsEncodable (branch k rs1 rs2 v)
      → IsFaithful (branch k rs1 rs2 v) (view c)
      → Fetches c (encode (branch k rs1 rs2 v))
      → Executes c (branch k rs1 rs2 v)
  refines-branch k rs1 rs2 v (h1, h2, hv, even) suits fetch aligned =
      let w = encode (branch k rs1 rs2 v) in
      let (o, f, r1, r2, m) =
        decode-encode_b (condition3 k) rs1 rs2 v (condition3-lt k) h1 h2 hv even in
      let a = c.rf.registers rs1 in
      let b = c.rf.registers rs2 in
      let taken = branch_alu-holds k a b (wf.registers.words rs1) (wf.registers.words rs2) suits in
      execute_at c c w a b ((c.pc.pc + (if holds k a b then extend 13 v else 4)) % 2 ^ 32) fetch
        (dispatch-branch c c.pc.pc (decode w) o (rw r1 h1) (rw r2 h2) ∙ rw (r1, r2))
        (unfold target in rw (o, f, m, same, taken)) aligned

  refines-immediate :
      (op : Operation) (rd rs1 v : ℕ)
      → IsEncodable (immediate op rd rs1 v)
      → IsFaithful (immediate op rd rs1 v) (view c)
      → Fetches c (encode (immediate op rd rs1 v))
      → Executes c (immediate op rd rs1 v)
  refines-immediate op rd rs1 v (no_sub, hrd, h1, hv) suits fetch =
      let w = encode (immediate op rd rs1 v) in
      let (o, r, f, r1, f7, m) =
        decode-encode_i Opcode.itype rd (funct3 op) rs1 (v + variant op * 32) (inr refl) hrd
          (funct3-lt op) h1 (itype_digits op v no_sub hv) in
      refines-plain w rd (compute op (c.rf.registers rs1) (extend 12 v)) fetch (inr (inr (inl o))) (
        dispatch-itype c c.pc.pc (decode w) (rw r hrd) (alu_code op)
          (compute op (c.rf.registers rs1) (extend 12 v)) o (rw r1 h1)
          (rw (f, f7) (itype_operation op v no_sub hv))
          (rw (r1, m, itype_immediate op v no_sub hv)
            (execute-compute op (c.rf.registers rs1) (extend 12 v) (wf.registers.words rs1)
              (itype_word op v hv) suits))
        ∙ rw r)

  refines-register :
      (op : Operation) (rd rs1 rs2 : ℕ)
      → IsEncodable (register op rd rs1 rs2)
      → IsFaithful (register op rd rs1 rs2) (view c)
      → Fetches c (encode (register op rd rs1 rs2))
      → Executes c (register op rd rs1 rs2)
  refines-register op rd rs1 rs2 (hrd, h1, h2) suits fetch =
      let w = encode (register op rd rs1 rs2) in
      let (o, r, f, r1, r2, f7) =
        decode-encode_r (variant op) rs2 rs1 (funct3 op) rd (variant-lt op) h2 h1 (funct3-lt op)
          hrd in
      let a = c.rf.registers rs1 in
      let b = c.rf.registers rs2 in
      refines-plain w rd (compute op a b) fetch (inr (inr (inr o))) (
        dispatch-rtype c c.pc.pc (decode w) (rw r hrd) (alu_code op) (compute op a b) o (rw r1 h1)
          (rw r2 h2) (rw (f, f7) (rtype_operation op))
          (rw (r1, r2)
            (execute-compute op a b (wf.registers.words rs1) (wf.registers.words rs2) suits))
        ∙ rw r)

-- An instruction that computes in registers, branches or jumps (LUI, AUIPC, JAL, JALR, the branches, and the
-- operations on an immediate or on two registers; not loads, stores, FENCE, ECALL, MRET or those on control
-- registers) is executed as the manual says: on a well-formed machine whose counters agree, where the bus yields
-- its machine code and the next address is a multiple of 4, and where, for a shift, the second operand is below
-- 32, for SLT, SLTI, BLT and BGE, the signed difference fits in 32 digits, and for JALR, the sum of register and
-- offset is even, `executeInstruction` succeeds, and the registers and the address become those of the abstract
-- machine; nothing else changes.
pub execute_instruction_refines :
    (c : Mcu) (i : Instruction)
    → IsWellFormed c
    → c.next_pc.next_pc ≡ c.pc.pc
    → IsEncodable i
    → IsFaithful i (view c)
    → Bus.read c.bus c.devices c.pc.pc word none ≡ some (Code.status_ok, some (encode i))
    → (step i (view c)).pc % 4 ≡ 0
    → execute_instruction c ≡ some (with_state c (step i (view c)), Code.status_ok)
execute_instruction_refines c (lui rd v) wf same fits ok = refines-lui c wf same rd v fits
execute_instruction_refines c (auipc rd v) wf same fits ok = refines-auipc c wf same rd v fits
execute_instruction_refines c (jal rd v) wf same fits ok = refines-jal c wf same rd v fits
execute_instruction_refines c (jalr rd rs1 v) wf same fits ok =
    refines-jalr c wf same rd rs1 v fits ok
execute_instruction_refines c (branch k rs1 rs2 v) wf same fits ok =
    refines-branch c wf same k rs1 rs2 v fits ok
execute_instruction_refines c (immediate op rd rs1 v) wf same fits ok =
    refines-immediate c wf same op rd rs1 v fits ok
execute_instruction_refines c (register op rd rs1 rs2) wf same fits ok =
    refines-register c wf same op rd rs1 rs2 fits ok
