-- ===== src/Mcu/Execute/Safety.antt =====
-- Each case of the switch keeps a well-formed machine well formed.
use t89emu.Common.{
  ℕ, ◌<◌, ◌≡◌, refl, inl, inr, arith, Option, none, ◌>>=◌, Ensures, Ensures-if, Ensures-bind,
  Ensures_trivial, true, ◌==◌, not, add32, to_int, bit_and, bit_or,
}
use t89emu.Common.Bits.{bit_or-lt, bit_and-le}
use t89emu.Arch.Code
use t89emu.Arch.Opcode
use t89emu.Core.Alu
use t89emu.Core.Alu.Laws.{execute-lt}
use t89emu.Core.AluControl.{get_alu_operation}
use t89emu.Core.MemControl.{get_mem_size}
use t89emu.Device.Memory.Access.{IsStatus, IsWord, IsAnswer}
use t89emu.Bus
use t89emu.Bus.{Bus, Devices}
use t89emu.Bus.Access.{KeepsDevices, read-IsAnswer, write-WriteOk}
use t89emu.State.RegisterFile
use t89emu.State.RegisterFile.{RegisterFile}
use t89emu.State.Csr
use t89emu.State.Csr.{Csr}
use t89emu.State.Words.{
  IsRegisterFile, IsCsr, write-IsRegisterFile, read-lt, write_csr-IsCsr, set_mie-IsCsr,
  set_mpie-IsCsr, set_mpp-IsCsr, if-IsCsr,
}
use t89emu.Mcu.Decode.{Decoded}
use t89emu.Mcu.Invariant.{
  IsWellFormed, Follows, Follows-refl, Follows-of_same, KeepsDevices-DevicesOk, FlowOk,
}
use t89emu.Mcu.Execute.{
  Mcu, Flow, proceed, write_back, exec_auipc, exec_jal, exec_jalr, exec_branch, exec_load,
  exec_store, exec_itype, exec_rtype, exec_priv, exec_csrrw, exec_csrrs, exec_csrrc, restore_status,
  dispatch,
}

module _ (c : Mcu) (h : IsWellFormed c) where
  -- A machine with other registers.
  with_rf : {rf : RegisterFile} → IsRegisterFile rf → IsWellFormed (record c { rf = rf })
  with_rf r = record {
    registers = r;
    csrs = h.csrs;
    pc_word = h.pc_word;
    next_word = h.next_word;
    memory = h.memory;
  }

  with_csr :
      {rf : RegisterFile} {csr : Csr}
      → IsRegisterFile rf
      → IsCsr csr
      → IsWellFormed (record c { rf = rf; csr = csr })
  with_csr r s = record {
    registers = r;
    csrs = s;
    pc_word = h.pc_word;
    next_word = h.next_word;
    memory = h.memory;
  }

  -- Steps of the cases.
  reading :
      (reg : ℕ) (f : ℕ → Option Flow)
      → ((v : ℕ) → IsWord v → Ensures (FlowOk c) (f v))
      → Ensures (FlowOk c) (RegisterFile.read c.rf reg >>= f)
  reading reg f k =
      Ensures-bind IsWord (FlowOk c) (RegisterFile.read c.rf reg) f (read-lt c.rf reg h.registers) k

  writing :
      (value reg : ℕ) (f : RegisterFile → Option Flow)
      → IsWord value
      → ((rf : RegisterFile) → IsRegisterFile rf → Ensures (FlowOk c) (f rf))
      → Ensures (FlowOk c) (RegisterFile.write c.rf value reg >>= f)
  writing value reg f hv k =
      Ensures-bind IsRegisterFile (FlowOk c) (RegisterFile.write c.rf value reg) f
        (write-IsRegisterFile c.rf value reg h.registers hv) k

  choosing :
      (m : Option ℕ) (f : ℕ → Option Flow)
      → ((v : ℕ) → Ensures (FlowOk c) (f v))
      → Ensures (FlowOk c) (m >>= f)
  choosing m f k = Ensures-bind (λ _. Unit {0}) (FlowOk c) m f (Ensures_trivial m) (λ v _. k v)

  computing :
      (a b op : ℕ) (f : ℕ → Option Flow)
      → IsWord a
      → IsWord b
      → ((v : ℕ) → IsWord v → Ensures (FlowOk c) (f v))
      → Ensures (FlowOk c) (Alu.execute a b op >>= f)
  computing a b op f ha hb k =
      Ensures-bind IsWord (FlowOk c) (Alu.execute a b op) f (execute-lt a b op ha hb) k

  -- On to the last stage with the first operand given and the second 0.
  on :
      {c' : Mcu}
      → IsWellFormed c'
      → Follows c c'
      → (a : ℕ) → IsWord a
      → c'.pc ≡ c.pc
      → c'.next_pc ≡ c.next_pc
      → FlowOk c (proceed c' a 0)
  on w f a ha p n = (w, f, ha, omega arith, p, n)

  write_back-FlowOk : (value rd : ℕ) → IsWord value → Ensures (FlowOk c) (write_back c value rd)
  unfolding write_back
  write_back-FlowOk value rd hv =
      writing value rd _ hv
        (λ rf r. on (with_rf r) (Follows-of_same c _ refl refl) 0 (omega arith) refl refl)

  exec_auipc-FlowOk :
      (pc : ℕ) (d : Decoded)
      → IsWord pc
      → IsWord d.immediate
      → Ensures (FlowOk c) (exec_auipc c pc d)
  unfolding exec_auipc
  exec_auipc-FlowOk pc d hp hi =
      choosing (get_alu_operation d.opcode 0 0) _
        λ op. computing pc d.immediate op _ hp hi λ v hv. write_back-FlowOk v d.rd hv

  exec_jal-FlowOk : (pc : ℕ) (d : Decoded) → IsWord pc → Ensures (FlowOk c) (exec_jal c pc d)
  unfolding exec_jal
  exec_jal-FlowOk pc d hp =
      choosing (get_alu_operation d.opcode 0 0) _
        λ op. computing pc 4 op _ hp (omega arith) λ v hv. write_back-FlowOk v d.rd hv

  exec_jalr-FlowOk : (pc : ℕ) (d : Decoded) → IsWord pc → Ensures (FlowOk c) (exec_jalr c pc d)
  unfolding exec_jalr
  exec_jalr-FlowOk pc d hp = reading d.rs1 _ λ a ha.
      choosing (get_alu_operation d.opcode 0 0) _ λ op. computing pc 4 op _ hp (omega arith) λ v hv.
        writing v d.rd _ hv λ rf r. on (with_rf r) (Follows-of_same c _ refl refl) a ha refl refl

  exec_branch-FlowOk : (d : Decoded) → Ensures (FlowOk c) (exec_branch c d)
  unfolding exec_branch
  exec_branch-FlowOk d =
      reading d.rs1 _ λ a ha. reading d.rs2 _ λ b hb. (h, Follows-refl c, ha, hb, refl, refl)

  exec_itype-FlowOk : (d : Decoded) → IsWord d.immediate → Ensures (FlowOk c) (exec_itype c d)
  unfolding exec_itype
  exec_itype-FlowOk d hi = choosing (get_alu_operation d.opcode d.funct7 d.funct3) _ λ op.
      reading d.rs1 _ λ a ha. computing a d.immediate op _ ha hi λ v hv. write_back-FlowOk v d.rd hv

  exec_rtype-FlowOk : (d : Decoded) → Ensures (FlowOk c) (exec_rtype c d)
  unfolding exec_rtype
  exec_rtype-FlowOk d = choosing (get_alu_operation d.opcode d.funct7 d.funct3) _ λ op.
      reading d.rs1 _
        λ a ha. reading d.rs2 _ λ b hb. computing a b op _ ha hb λ v hv. write_back-FlowOk v d.rd hv

  -- A status that is not success is the code of an exception.
  exception-lt : (s : ℕ) → IsStatus s → not (s == Code.status_ok) ≡ true → s < 16
  exception-lt s (inl e) bad = absurd (ground arith)
  exception-lt s (inr l) bad = l

  exec_load-FlowOk : (d : Decoded) → Ensures (FlowOk c) (exec_load c d)
  unfolding exec_load
  exec_load-FlowOk d = reading d.rs1 _ λ base hb.
      Ensures-bind IsAnswer (FlowOk c)
        (Bus.read c.bus c.devices (add32 base d.immediate) (get_mem_size d.funct3) none) _
        (read-IsAnswer c.bus c.devices _ _ h.memory)
        λ r hr.
          Ensures-if (FlowOk c) (not (r.0 == Code.status_ok)) _ _
            (λ bad. (h, Follows-refl c, exception-lt r.0 hr.0 bad))
            (λ _. Ensures-bind IsWord (FlowOk c) r.1 _ hr.1 (λ v hv. write_back-FlowOk v d.rd hv))

  with_devices :
      {ds : Devices} → KeepsDevices c.devices ds → IsWellFormed (record c { devices = ds })
  with_devices k = record {
    registers = h.registers;
    csrs = h.csrs;
    pc_word = h.pc_word;
    next_word = h.next_word;
    memory = KeepsDevices-DevicesOk k h.memory;
  }

  exec_store-FlowOk : (d : Decoded) → Ensures (FlowOk c) (exec_store c d)
  unfolding exec_store
  exec_store-FlowOk d = reading d.rs1 _ λ base hb. reading d.rs2 _ λ value hv.
      Ensures-bind (λ r. IsStatus r.0 × KeepsDevices c.devices r.1) (FlowOk c)
        (Bus.write c.bus c.devices (add32 base d.immediate) value (get_mem_size d.funct3)) _
        (write-WriteOk c.bus c.devices _ value _)
        λ r hr.
          let f : Follows c (record c { devices = r.1 }) = record {
            bus_same = refl;
            devices_keep = hr.1;
          } in
          Ensures-if (FlowOk c) (not (r.0 == Code.status_ok)) _ _
            (λ bad. (with_devices hr.1, f, exception-lt r.0 hr.0 bad))
            (λ _. on (with_devices hr.1) f 0 (omega arith) refl refl)

  restore_status-IsCsr : IsCsr (restore_status c.csr)
  unfolding restore_status
  restore_status-IsCsr = set_mpp-IsCsr _ (
      set_mpie-IsCsr _
        (if-IsCsr (not (Csr.get_mpie c.csr == 0)) _ c.csr (set_mie-IsCsr c.csr h.csrs) h.csrs))

  read_csr-IsWord : (a : ℕ) → IsWord (Csr.read_csr c.csr a)
  unfolding Csr.read_csr
  read_csr-IsWord a = h.csrs a

  -- The three register forms share their first steps.
  csr_steps :
      (d : Decoded) (f : RegisterFile → ℕ → Option Flow)
      → ((rf : RegisterFile) → IsRegisterFile rf → (a : ℕ) → IsWord a → Ensures (FlowOk c) (f rf a))
      → Ensures (FlowOk c) (
          RegisterFile.write c.rf (Csr.read_csr c.csr d.csr_addr) d.rd >>= λ rf.
          RegisterFile.read rf d.rs1 >>= f rf)
  csr_steps d f k =
      writing (Csr.read_csr c.csr d.csr_addr) d.rd _ (read_csr-IsWord d.csr_addr) λ rf r.
        Ensures-bind IsWord (FlowOk c) (RegisterFile.read rf d.rs1) _ (read-lt rf d.rs1 r) (k rf r)

  exec_csrrw-FlowOk : (d : Decoded) → Ensures (FlowOk c) (exec_csrrw c d)
  unfolding exec_csrrw
  exec_csrrw-FlowOk d = csr_steps d _ λ rf r a ha.
      on (with_csr r (write_csr-IsCsr c.csr d.csr_addr a h.csrs ha)) (Follows-of_same c _ refl refl)
        0 (omega arith) refl refl

  exec_csrrs-FlowOk : (d : Decoded) → Ensures (FlowOk c) (exec_csrrs c d)
  unfolding exec_csrrs
  exec_csrrs-FlowOk d = csr_steps d _ λ rf r a ha.
      let v = bit_or a (Csr.read_csr c.csr d.csr_addr) in
      on
        (with_csr r (
          if-IsCsr (not (d.rs1 == 0)) _ c.csr
            (write_csr-IsCsr c.csr d.csr_addr v h.csrs
              (bit_or-lt 32 a (Csr.read_csr c.csr d.csr_addr) ha (read_csr-IsWord d.csr_addr)))
            h.csrs))
        (Follows-of_same c _ refl refl) 0 (omega arith) refl refl

  exec_csrrc-FlowOk : (d : Decoded) → Ensures (FlowOk c) (exec_csrrc c d)
  unfolding exec_csrrc
  exec_csrrc-FlowOk d = csr_steps d _ λ rf r a ha.
      let old = Csr.read_csr c.csr d.csr_addr in
      on
        (with_csr r (
          if-IsCsr (not (d.rs1 == 0)) _ c.csr
            (write_csr-IsCsr c.csr d.csr_addr (bit_and (to_int (a == 0)) old) h.csrs
              (omega (arith, bit_and-le (to_int (a == 0)) old, read_csr-IsWord d.csr_addr)))
            h.csrs))
        (Follows-of_same c _ refl refl) 0 (omega arith) refl refl

  exec_priv-FlowOk : (d : Decoded) → Ensures (FlowOk c) (exec_priv c d)
  unfolding exec_priv
  exec_priv-FlowOk d =
      let stay : FlowOk c (proceed c 0 0) = on h (Follows-refl c) 0 (omega arith) refl refl in
      Ensures-if (FlowOk c) (d.funct3 == 0b000) _ _
        (λ _.
          Ensures-if (FlowOk c) (d.immediate == Code.mret_imm) _ _
            (λ _.
              on (with_csr h.registers restore_status-IsCsr) (Follows-of_same c _ refl refl) 0
                (omega arith) refl refl)
            λ _.
              Ensures-if (FlowOk c) (d.immediate == Code.ecall_imm) _ _
                (λ _. (h, Follows-refl c, omega arith)) (λ _. stay))
        λ _.
          Ensures-if (FlowOk c) (d.funct3 == 0b001) _ _ (λ _. exec_csrrw-FlowOk d)
            λ _.
              Ensures-if (FlowOk c) (d.funct3 == 0b010) _ _ (λ _. exec_csrrs-FlowOk d)
                λ _.
                  Ensures-if (FlowOk c) (d.funct3 == 0b011) _ _ (λ _. exec_csrrc-FlowOk d)
                    (λ _. stay)

  pub dispatch-FlowOk :
      (pc : ℕ) (d : Decoded) → IsWord pc → IsWord d.immediate → Ensures (FlowOk c) (dispatch c pc d)
  unfolding dispatch
  dispatch-FlowOk pc d hp hi =
      Ensures-if (FlowOk c) (d.opcode == Opcode.lui) _ _
        (λ _. write_back-FlowOk d.immediate d.rd hi)
        λ _.
          Ensures-if (FlowOk c) (d.opcode == Opcode.auipc) _ _ (λ _. exec_auipc-FlowOk pc d hp hi)
            λ _.
              Ensures-if (FlowOk c) (d.opcode == Opcode.jal) _ _ (λ _. exec_jal-FlowOk pc d hp)
                λ _.
                  Ensures-if (FlowOk c) (d.opcode == Opcode.jalr) _ _
                    (λ _. exec_jalr-FlowOk pc d hp)
                    λ _.
                      Ensures-if (FlowOk c) (d.opcode == Opcode.btype) _ _
                        (λ _. exec_branch-FlowOk d)
                        λ _.
                          Ensures-if (FlowOk c) (d.opcode == Opcode.load) _ _
                            (λ _. exec_load-FlowOk d)
                            λ _.
                              Ensures-if (FlowOk c) (d.opcode == Opcode.store) _ _
                                (λ _. exec_store-FlowOk d)
                                λ _.
                                  Ensures-if (FlowOk c) (d.opcode == Opcode.itype) _ _
                                    (λ _. exec_itype-FlowOk d hi)
                                    λ _.
                                      Ensures-if (FlowOk c) (d.opcode == Opcode.rtype) _ _
                                        (λ _. exec_rtype-FlowOk d)
                                        λ _.
                                          Ensures-if (FlowOk c) (d.opcode == Opcode.priv) _ _
                                            (λ _. exec_priv-FlowOk d)
                                            λ _. (h, Follows-refl c, omega arith)
