-- ===== src/State/Trap.antt =====
-- t89emu/src/Trap.cpp.
pub mod Laws
use t89emu.Common.{ℕ, ◌*◌, ◌-◌, ◌==◌, leb, not, if◌then◌else◌, add32, u32}
use t89emu.Arch.Code
use t89emu.State.Csr
use t89emu.State.Csr.{Csr}
use t89emu.State.NextPc.{ProgramCounter, NextPc}

-- The entry of the vector table: interrupts first, then exceptions from entry 16 on.
unfoldable pub vector_table_offset : ℕ → ℕ
vector_table_offset mcause = if leb 0x80000000 mcause then mcause - 0x80000000 else add32 16 mcause

unfoldable pub handler : Csr → ℕ → ℕ
unfolding vector_table_offset
handler csr mcause = add32 (Csr.get_mtvec csr) (u32 (4 * vector_table_offset mcause))

-- What the trap does to the control registers.
unfoldable pub save_status : Csr → ℕ → ℕ → Csr
save_status csr pc mcause =
    let csr1 = Csr.set_mepc pc csr in
    let csr2 =
      if mcause == Code.ecall_from_m_mode
      then Csr.set_mepc (add32 (Csr.get_mepc csr1) 4) csr1
      else csr1 in
    let csr3 = Csr.set_mcause mcause csr2 in
    let csr4 = if not (Csr.get_mie csr3 == 0) then Csr.set_mpie csr3 else csr3 in
    Csr.reset_mie (Csr.set_mpp Csr.machine_mode (Csr.reset_mie csr4))

unfoldable pub take_trap : Csr → ProgramCounter → ℕ → Csr × ProgramCounter × NextPc
unfolding save_status handler
take_trap csr pc mcause =
    let csr' = save_status csr pc.pc mcause in
    let jump = handler csr' mcause in (csr', record { pc = jump }, record { next_pc = jump })
