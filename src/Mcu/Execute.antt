-- ===== src/Mcu/Execute.antt =====
-- t89emu/src/Mcu.cpp, `executeInstruction`. One function for each case of its `switch`; a case goes on
-- to the program counter with the operands A and B, or returns early with an exception code.
pub mod Safety
pub mod Precise
pub mod Cases
use t89emu.Common.{
  ℕ, ◌==◌, not, if◌then◌else◌, to_int, Option, none, some, ◌>>=◌, add32, bit_and, bit_or,
}
use t89emu.Arch.{word}
use t89emu.Arch.Opcode
use t89emu.Arch.Code
use t89emu.Core.Alu
use t89emu.Core.AluControl.{get_alu_operation}
use t89emu.Core.MemControl.{get_mem_size}
use t89emu.State.RegisterFile
use t89emu.State.RegisterFile.{RegisterFile}
use t89emu.State.Csr
use t89emu.State.Csr.{Csr}
use t89emu.State.NextPc.{ProgramCounter, NextPc, calculate_next_pc}
use t89emu.Bus
use t89emu.Bus.{Bus, Devices}
use t89emu.Mcu.Decode.{Decoded, decode}

pub record Mcu : Type 0 where
  pub rf : RegisterFile
  pub pc : ProgramCounter
  pub csr : Csr
  pub next_pc : NextPc
  pub bus : Bus
  pub devices : Devices

-- How a case ends: with the operands of a branch or a jump, or with an exception.
pub data Flow : Type 0 where
  proceed : Mcu → ℕ → ℕ → Flow
  throw : Mcu → ℕ → Flow

-- `rf->write(value, rd)`, and on with A = B = 0.
unfoldable pub write_back : Mcu → ℕ → ℕ → Option Flow
write_back c value rd = do
  rf ← RegisterFile.write c.rf value rd
  some (proceed (record c { rf = rf }) 0 0)

exec_auipc : Mcu → ℕ → Decoded → Option Flow
exec_auipc c pc_addr d = do
  alu_opcode ← get_alu_operation d.opcode 0 0
  alu_output ← Alu.execute pc_addr d.immediate alu_opcode
  write_back c alu_output d.rd

exec_jal : Mcu → ℕ → Decoded → Option Flow
exec_jal c pc_addr d = do
  alu_opcode ← get_alu_operation d.opcode 0 0
  alu_output ← Alu.execute pc_addr 4 alu_opcode
  write_back c alu_output d.rd

-- A is read before the link is written.
exec_jalr : Mcu → ℕ → Decoded → Option Flow
exec_jalr c pc_addr d = do
  a ← RegisterFile.read c.rf d.rs1
  alu_opcode ← get_alu_operation d.opcode 0 0
  alu_output ← Alu.execute pc_addr 4 alu_opcode
  rf ← RegisterFile.write c.rf alu_output d.rd
  some (proceed (record c { rf = rf }) a 0)

exec_branch : Mcu → Decoded → Option Flow
exec_branch c d = do
  a ← RegisterFile.read c.rf d.rs1
  b ← RegisterFile.read c.rf d.rs2
  some (proceed c a b)

-- `readValue` is a local variable that is not initialised.
exec_load : Mcu → Decoded → Option Flow
exec_load c d = do
  base ← RegisterFile.read c.rf d.rs1
  (exception_code, read_value) ←
      Bus.read c.bus c.devices (add32 base d.immediate) (get_mem_size d.funct3) none
  if not (exception_code == Code.status_ok)
      then some (throw c exception_code)
      else (do value ← read_value; write_back c value d.rd)

exec_store : Mcu → Decoded → Option Flow
exec_store c d = do
  base ← RegisterFile.read c.rf d.rs1
  value ← RegisterFile.read c.rf d.rs2
  (exception_code, devices) ←
      Bus.write c.bus c.devices (add32 base d.immediate) value (get_mem_size d.funct3)
  let c' = record c { devices = devices }
  if not (exception_code == Code.status_ok)
      then some (throw c' exception_code)
      else some (proceed c' 0 0)

exec_itype : Mcu → Decoded → Option Flow
exec_itype c d = do
  alu_opcode ← get_alu_operation d.opcode d.funct7 d.funct3
  a ← RegisterFile.read c.rf d.rs1
  alu_output ← Alu.execute a d.immediate alu_opcode
  write_back c alu_output d.rd

exec_rtype : Mcu → Decoded → Option Flow
exec_rtype c d = do
  alu_opcode ← get_alu_operation d.opcode d.funct7 d.funct3
  a ← RegisterFile.read c.rf d.rs1
  b ← RegisterFile.read c.rf d.rs2
  alu_output ← Alu.execute a b alu_opcode
  write_back c alu_output d.rd

-- MRET's part in the control registers.
unfoldable pub restore_status : Csr → Csr
restore_status csr =
    let csr' = if not (Csr.get_mpie csr == 0) then Csr.set_mie csr else csr in
    Csr.set_mpp Csr.machine_mode (Csr.set_mpie csr')

-- The three register forms. `rd` is written first, then `rs1` is read.
exec_csrrw : Mcu → Decoded → Option Flow
exec_csrrw c d = do
  rf ← RegisterFile.write c.rf (Csr.read_csr c.csr d.csr_addr) d.rd
  a ← RegisterFile.read rf d.rs1
  some (proceed (record c { rf = rf; csr = Csr.write_csr c.csr d.csr_addr a }) 0 0)

exec_csrrs : Mcu → Decoded → Option Flow
exec_csrrs c d = do
  rf ← RegisterFile.write c.rf (Csr.read_csr c.csr d.csr_addr) d.rd
  a ← RegisterFile.read rf d.rs1
  let value = bit_or a (Csr.read_csr c.csr d.csr_addr)
  let csr = if not (d.rs1 == 0) then Csr.write_csr c.csr d.csr_addr value else c.csr
  some (proceed (record c { rf = rf; csr = csr }) 0 0)

-- The mask is `!rf->read(rs1)`, which is 1 or 0.
exec_csrrc : Mcu → Decoded → Option Flow
exec_csrrc c d = do
  rf ← RegisterFile.write c.rf (Csr.read_csr c.csr d.csr_addr) d.rd
  a ← RegisterFile.read rf d.rs1
  let value = bit_and (to_int (a == 0)) (Csr.read_csr c.csr d.csr_addr)
  let csr = if not (d.rs1 == 0) then Csr.write_csr c.csr d.csr_addr value else c.csr
  some (proceed (record c { rf = rf; csr = csr }) 0 0)

exec_priv : Mcu → Decoded → Option Flow
unfolding restore_status exec_csrrw exec_csrrs exec_csrrc
exec_priv c d =
    if d.funct3 == 0b000
    then (if d.immediate == Code.mret_imm
        then some (proceed (record c { csr = restore_status c.csr }) 0 0)
        else if d.immediate == Code.ecall_imm
        then some (throw c Code.ecall_from_m_mode)
        else some (proceed c 0 0))
    else if d.funct3 == 0b001
    then exec_csrrw c d
    else if d.funct3 == 0b010
    then exec_csrrs c d
    else if d.funct3 == 0b011
    then exec_csrrc c d
    else some (proceed c 0 0)

unfoldable pub dispatch : Mcu → ℕ → Decoded → Option Flow
unfolding write_back exec_auipc exec_jal exec_jalr exec_branch exec_load exec_store exec_itype
    exec_rtype exec_priv
dispatch c pc_addr d =
    if d.opcode == Opcode.lui
    then write_back c d.immediate d.rd
    else if d.opcode == Opcode.auipc
    then exec_auipc c pc_addr d
    else if d.opcode == Opcode.jal
    then exec_jal c pc_addr d
    else if d.opcode == Opcode.jalr
    then exec_jalr c pc_addr d
    else if d.opcode == Opcode.btype
    then exec_branch c d
    else if d.opcode == Opcode.load
    then exec_load c d
    else if d.opcode == Opcode.store
    then exec_store c d
    else if d.opcode == Opcode.itype
    then exec_itype c d
    else if d.opcode == Opcode.rtype
    then exec_rtype c d
    else if d.opcode == Opcode.priv
    then exec_priv c d
    else some (throw c Code.illegal_instruction)

-- The last stage; the program counter follows only if the new address is aligned.
unfoldable pub finish : Decoded → Flow → Mcu × ℕ
finish d (throw c code) = (c, code)
finish d (proceed c a b) =
    let (next, code) =
      calculate_next_pc c.next_pc d.immediate d.opcode d.funct3 a b (Csr.get_mepc c.csr) in
    let c' = record c { next_pc = next } in
    if not (code == Code.status_ok)
    then (c', code)
    else (record c' { pc = record { pc = next.next_pc } }, Code.status_ok)

unfoldable pub execute_instruction : Mcu → Option (Mcu × ℕ)
execute_instruction c = do
  let pc_addr = c.pc.pc
  (exception_code, fetched) ← Bus.read c.bus c.devices pc_addr word none
  if not (exception_code == Code.status_ok) then some (c, exception_code) else (do
    instruction ← fetched
    let d = decode instruction
    flow ← dispatch c pc_addr d
    some (finish d flow))
