-- ===== src/Mcu/Execute/Precise.antt =====
-- Which exceptions leave the machine as it was.
use t89emu.Common.{
  ℕ, ◌≡◌, ◌≢◌, refl, ap, arith, Option, none, some, ◌>>=◌, Ensures, Ensures-if, Ensures-bind,
  Ensures-some, Ensures_trivial, ◌==◌, not, add32,
}
use t89emu.Arch.{word}
use t89emu.Arch.Code
use t89emu.Arch.Opcode
use t89emu.Core.Alu
use t89emu.Core.AluControl.{get_alu_operation}
use t89emu.Core.MemControl.{get_mem_size}
use t89emu.State.RegisterFile
use t89emu.State.RegisterFile.{RegisterFile}
use t89emu.State.Csr
use t89emu.State.NextPc.{calculate_next_pc}
use t89emu.Bus
use t89emu.Bus.{Bus, Devices}
use t89emu.Bus.Precise.{Unchanged, write-Unchanged}
use t89emu.Mcu.Decode.{Decoded, decode}
use t89emu.Mcu.Execute.{
  Mcu, Flow, proceed, throw, write_back, exec_auipc, exec_jal, exec_jalr, exec_branch, exec_load,
  exec_store, exec_itype, exec_rtype, exec_priv, exec_csrrw, exec_csrrs, exec_csrrc, dispatch,
  finish, execute_instruction,
}

-- A case of the switch that throws has changed nothing.
abbrev Precise : Mcu → Flow → Type 0
Precise c (proceed c' a b) = Unit {0}
Precise c (throw c' code) = c' ≡ c

module _ (c : Mcu) where
  write_back-Precise : (value rd : ℕ) → Ensures (Precise c) (write_back c value rd)
  unfolding write_back
  write_back-Precise value rd =
      Ensures-bind (λ _. Unit {0}) (Precise c) (RegisterFile.write c.rf value rd) _
        (Ensures_trivial (RegisterFile.write c.rf value rd)) (λ _ _. tt)

  after {ℓ} :
      {A : Type ℓ} (m : Option A) (f : A → Option Flow)
      → ((a : A) → Ensures (Precise c) (f a))
      → Ensures (Precise c) (m >>= f)
  after m f k = Ensures-bind (λ _. Unit {0}) (Precise c) m f (Ensures_trivial m) (λ a _. k a)

  exec_load-Precise : (d : Decoded) → Ensures (Precise c) (exec_load c d)
  unfolding exec_load
  exec_load-Precise d = after (RegisterFile.read c.rf d.rs1) _ λ base.
      after (Bus.read c.bus c.devices (add32 base d.immediate) (get_mem_size d.funct3) none) _ λ r.
        Ensures-if (Precise c) (not (r.0 == Code.status_ok)) _ _ (λ _. refl)
          λ _. after r.1 _ λ v. write_back-Precise v d.rd

  exec_store-Precise : (d : Decoded) → Ensures (Precise c) (exec_store c d)
  unfolding exec_store
  exec_store-Precise d = after (RegisterFile.read c.rf d.rs1) _ λ base.
      after (RegisterFile.read c.rf d.rs2) _ λ value.
        Ensures-bind (Unchanged c.devices) (Precise c)
          (Bus.write c.bus c.devices (add32 base d.immediate) value (get_mem_size d.funct3)) _
          (write-Unchanged c.bus c.devices _ value _)
          λ r h.
            Ensures-if (Precise c) (not (r.0 == Code.status_ok)) _ _
              (λ bad. ap (λ ds. record c { devices = ds }) (h (ground arith))) (λ _. tt)

  csr_form-Precise :
      (d : Decoded) (f : RegisterFile → ℕ → Option Flow)
      → ((rf : RegisterFile) (a : ℕ) → Ensures (Precise c) (f rf a))
      → Ensures (Precise c) (
          RegisterFile.write c.rf (Csr.read_csr c.csr d.csr_addr) d.rd >>= λ rf.
          RegisterFile.read rf d.rs1 >>= f rf)
  csr_form-Precise d f k =
      after (RegisterFile.write c.rf (Csr.read_csr c.csr d.csr_addr) d.rd) _
        λ rf. after (RegisterFile.read rf d.rs1) _ (k rf)

  exec_priv-Precise : (d : Decoded) → Ensures (Precise c) (exec_priv c d)
  unfolding exec_priv exec_csrrw exec_csrrs exec_csrrc
  exec_priv-Precise d =
      Ensures-if (Precise c) (d.funct3 == 0b000) _ _
        (λ _.
          Ensures-if (Precise c) (d.immediate == Code.mret_imm) _ _ (λ _. tt)
            λ _. Ensures-if (Precise c) (d.immediate == Code.ecall_imm) _ _ (λ _. refl) (λ _. tt))
        λ _.
          Ensures-if (Precise c) (d.funct3 == 0b001) _ _ (λ _. csr_form-Precise d _ (λ _ _. tt))
            λ _.
              Ensures-if (Precise c) (d.funct3 == 0b010) _ _ (λ _. csr_form-Precise d _ (λ _ _. tt))
                λ _.
                  Ensures-if (Precise c) (d.funct3 == 0b011) _ _
                    (λ _. csr_form-Precise d _ (λ _ _. tt)) (λ _. tt)

  dispatch-Precise : (pc : ℕ) (d : Decoded) → Ensures (Precise c) (dispatch c pc d)
  unfolding dispatch exec_auipc exec_jal exec_jalr exec_branch exec_itype exec_rtype
  dispatch-Precise pc d =
      let compute : (a b op : ℕ)
          → Ensures (Precise c) (Alu.execute a b op >>= λ v. write_back c v d.rd) =
        λ a b op. after (Alu.execute a b op) _ (λ v. write_back-Precise v d.rd) in
      let op0 = get_alu_operation d.opcode 0 0 in
      let op = get_alu_operation d.opcode d.funct7 d.funct3 in
      let reg = RegisterFile.read c.rf in
      Ensures-if (Precise c) (d.opcode == Opcode.lui) _ _ (λ _. write_back-Precise d.immediate d.rd)
        λ _.
          Ensures-if (Precise c) (d.opcode == Opcode.auipc) _ _
            (λ _. after op0 _ (λ o. compute pc d.immediate o))
            λ _.
              Ensures-if (Precise c) (d.opcode == Opcode.jal) _ _
                (λ _. after op0 _ (λ o. compute pc 4 o))
                λ _.
                  Ensures-if (Precise c) (d.opcode == Opcode.jalr) _ _
                    (λ _. after (reg d.rs1) _ λ a. after op0 _ λ o.
                      after (Alu.execute pc 4 o) _
                        λ v. after (RegisterFile.write c.rf v d.rd) _ λ _. tt)
                    λ _.
                      Ensures-if (Precise c) (d.opcode == Opcode.btype) _ _
                        (λ _. after (reg d.rs1) _ λ a. after (reg d.rs2) _ λ b. tt)
                        λ _.
                          Ensures-if (Precise c) (d.opcode == Opcode.load) _ _
                            (λ _. exec_load-Precise d)
                            λ _.
                              Ensures-if (Precise c) (d.opcode == Opcode.store) _ _
                                (λ _. exec_store-Precise d)
                                λ _.
                                  Ensures-if (Precise c) (d.opcode == Opcode.itype) _ _
                                    (λ _.
                                      after op _
                                        λ o. after (reg d.rs1) _ λ a. compute a d.immediate o)
                                    λ _.
                                      Ensures-if (Precise c) (d.opcode == Opcode.rtype) _ _
                                        (λ _. after op _ λ o.
                                          after (reg d.rs1) _
                                            λ a. after (reg d.rs2) _ λ b. compute a b o)
                                        λ _.
                                          Ensures-if (Precise c) (d.opcode == Opcode.priv) _ _
                                            (λ _. exec_priv-Precise d) λ _. refl

-- The status of the last stage is its own only for a misaligned address.
finish-Precise :
    (c : Mcu) (d : Decoded) (f : Flow)
    → Precise c f
    → (finish d f).1 ≢ Code.status_ok
    → (finish d f).1 ≢ Code.instruction_address_misaligned
    → (finish d f).0 ≡ c
unfolding finish
finish-Precise c d (throw c' code) p ok aligned = p
finish-Precise c d (proceed c' a b) p ok aligned = unfold calculate_next_pc in ground arith

-- An exception, except a misaligned address, leaves the whole machine as it was before the
-- instruction: registers, control registers, memory and both counters.
pub execute_instruction_precise :
    (c c' : Mcu) (status : ℕ)
    → execute_instruction c ≡ some (c', status)
    → status ≢ Code.status_ok
    → status ≢ Code.instruction_address_misaligned
    → c' ≡ c
unfolding execute_instruction
execute_instruction_precise c c' status e = Ensures-some P (execute_instruction c) holds e
  where
    P : Mcu × ℕ → Type 0
    P r = r.1 ≢ Code.status_ok → r.1 ≢ Code.instruction_address_misaligned → r.0 ≡ c

    holds : Ensures P (execute_instruction c)
    holds =
        Ensures-bind (λ _. Unit {0}) P (Bus.read c.bus c.devices c.pc.pc word none) _
          (Ensures_trivial (Bus.read c.bus c.devices c.pc.pc word none))
          λ r _.
            Ensures-if P (not (r.0 == Code.status_ok)) _ _ (λ _ _ _. refl)
              λ _.
                Ensures-bind (λ _. Unit {0}) P r.1 _ (Ensures_trivial r.1)
                  λ i _.
                    Ensures-bind (Precise c) P (dispatch c c.pc.pc (decode i)) _
                      (dispatch-Precise c c.pc.pc (decode i)) (finish-Precise c (decode i))
