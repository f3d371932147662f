-- ===== src/Mcu/Execute/Cases.antt =====
-- What each case of the switch comes to, once its registers exist and its operation is known.
use t89emu.Common.{
  ℕ, ◌%◌, ◌<◌, ◌≡◌, ap, arith, fun_ext, some, none, ◌==◌, not, add32, if◌then◌else◌, update,
}
use t89emu.Arch.{word}
use t89emu.Arch.Opcode
use t89emu.Arch.Code
use t89emu.Core.Alu
use t89emu.Core.AluControl.{get_alu_operation}
use t89emu.State.RegisterFile
use t89emu.State.RegisterFile.{RegisterFile}
use t89emu.State.Csr
use t89emu.State.NextPc.{target, calculate_next_pc}
use t89emu.Bus
use t89emu.Mcu.Decode.{Decoded, decode}
use t89emu.Mcu.Execute.{
  Mcu, proceed, write_back, exec_auipc, exec_jal, exec_jalr, exec_branch, exec_itype, exec_rtype,
  dispatch, finish, execute_instruction,
}
use t89emu.Mcu.Isa.{set}

abbrev pub with_registers : Mcu → (ℕ → ℕ) → Mcu
with_registers c x = record c { rf = record { registers = x } }

write-set :
    (rf : RegisterFile) (v rd : ℕ)
    → rd < 32
    → RegisterFile.write rf v rd ≡ some (record { registers = set rf.registers rd v })
unfolding RegisterFile.write
write-set rf v rd h =
    let same : update rf.registers rd (if not (rd == 0) then v else 0) ≡ set rf.registers rd v =
      fun_ext λ r. ground arith in
    ground arith

read_lem : (rf : RegisterFile) (r : ℕ) → r < 32 → RegisterFile.read rf r ≡ some (rf.registers r)
unfolding RegisterFile.read
read_lem rf r h = ground arith

-- The cases of the switch that end in a write.
module _ (c : Mcu) (pc : ℕ) (d : Decoded) (hrd : d.rd < 32) where
  write_back_lem :
      (v : ℕ)
      → write_back c v d.rd ≡ some (proceed (with_registers c (set c.rf.registers d.rd v)) 0 0)
  unfolding write_back
  write_back_lem v = rw (write-set c.rf v d.rd hrd)

  pub dispatch-lui :
      d.opcode ≡ Opcode.lui
      → dispatch c pc d
        ≡ some (proceed (with_registers c (set c.rf.registers d.rd d.immediate)) 0 0)
  unfolding dispatch
  dispatch-lui o = rw (o, write_back_lem d.immediate)

  pub dispatch-auipc :
      d.opcode ≡ Opcode.auipc
      → dispatch c pc d
        ≡ some (proceed (with_registers c (set c.rf.registers d.rd (add32 pc d.immediate))) 0 0)
  unfolding dispatch exec_auipc get_alu_operation Alu.execute
  dispatch-auipc o = rw (o, write_back_lem (add32 pc d.immediate))

  pub dispatch-jal :
      d.opcode ≡ Opcode.jal
      → dispatch c pc d
        ≡ some (proceed (with_registers c (set c.rf.registers d.rd (add32 pc 4))) 0 0)
  unfolding dispatch exec_jal get_alu_operation Alu.execute
  dispatch-jal o = rw (o, write_back_lem (add32 pc 4))

  pub dispatch-jalr :
      d.opcode ≡ Opcode.jalr
      → d.rs1 < 32
      → dispatch c pc d
        ≡ some (
            proceed
              (with_registers c (set c.rf.registers d.rd (add32 pc 4)))
              (c.rf.registers d.rs1)
              0)
  unfolding dispatch exec_jalr get_alu_operation Alu.execute
  dispatch-jalr o h1 = rw (o, read_lem c.rf d.rs1 h1, write-set c.rf (add32 pc 4) d.rd hrd)

  pub dispatch-itype :
      (op v : ℕ)
      → d.opcode ≡ Opcode.itype
      → d.rs1 < 32
      → get_alu_operation Opcode.itype d.funct7 d.funct3 ≡ some op
      → Alu.execute (c.rf.registers d.rs1) d.immediate op ≡ some v
      → dispatch c pc d ≡ some (proceed (with_registers c (set c.rf.registers d.rd v)) 0 0)
  unfolding dispatch exec_itype
  dispatch-itype op v o h1 e f = rw (o, e, read_lem c.rf d.rs1 h1, f, write_back_lem v)

  pub dispatch-rtype :
      (op v : ℕ)
      → d.opcode ≡ Opcode.rtype
      → d.rs1 < 32
      → d.rs2 < 32
      → get_alu_operation Opcode.rtype d.funct7 d.funct3 ≡ some op
      → Alu.execute (c.rf.registers d.rs1) (c.rf.registers d.rs2) op ≡ some v
      → dispatch c pc d ≡ some (proceed (with_registers c (set c.rf.registers d.rd v)) 0 0)
  unfolding dispatch exec_rtype
  dispatch-rtype op v o h1 h2 e f =
      rw (o, e, read_lem c.rf d.rs1 h1, read_lem c.rf d.rs2 h2, f, write_back_lem v)

pub dispatch-branch :
    (c : Mcu) (pc : ℕ) (d : Decoded)
    → d.opcode ≡ Opcode.btype
    → d.rs1 < 32
    → d.rs2 < 32
    → dispatch c pc d ≡ some (proceed c (c.rf.registers d.rs1) (c.rf.registers d.rs2))
unfolding dispatch exec_branch
dispatch-branch c pc d o h1 h2 = rw (o, read_lem c.rf d.rs1 h1, read_lem c.rf d.rs2 h2)

-- The last stage, for an aligned address.
finish_lem :
    (c : Mcu) (d : Decoded) (a b t : ℕ)
    → target c.next_pc d.immediate d.opcode d.funct3 a b (Csr.get_mepc c.csr) ≡ t
    → t % 4 ≡ 0
    → finish d (proceed c a b)
      ≡ (record c { next_pc = record { next_pc = t }; pc = record { pc = t } }, Code.status_ok)
unfolding finish calculate_next_pc
finish_lem c d a b t e h = rw (e, h)

pub execute_at :
    (c c' : Mcu) (w a b t : ℕ)
    → Bus.read c.bus c.devices c.pc.pc word none ≡ some (Code.status_ok, some w)
    → dispatch c c.pc.pc (decode w) ≡ some (proceed c' a b)
    → target c'.next_pc
        (decode w).immediate
        (decode w).opcode
        (decode w).funct3
        a
        b
        (Csr.get_mepc c'.csr)
      ≡ t
    → t % 4 ≡ 0
    → execute_instruction c
      ≡ some
          (record c' { next_pc = record { next_pc = t }; pc = record { pc = t } }, Code.status_ok)
unfolding execute_instruction
execute_at c c' w a b t fetch e f h = rw (fetch, e) (ap some (finish_lem c' (decode w) a b t f h))
