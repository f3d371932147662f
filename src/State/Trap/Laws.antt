-- ===== src/State/Trap/Laws.antt =====
-- What a trap saves, and what MRET gives back.
use t89emu.Common.{
  ℕ, ◌+◌, ◌*◌, ◌-◌, ◌<◌, ◌^◌, ◌≡◌, refl, ◌≢◌, arith, bit, bit_and, bit_or, not32, max, add32, ◌==◌,
  leb, if◌then◌else◌, ◌⊎◌,
}
use t89emu.Common.Bits.{bit-bit_and, bit-bit_or}
use t89emu.Arch.Code
use t89emu.State.Csr.{
  Csr, mstatus, mepc, mcause, mtvec, get_mie, get_mpie, get_mpp, set_mpie, set_mpp, reset_mie,
  set_mepc, set_mcause, get_mepc, get_mtvec, write_csr,
}
use t89emu.State.Csr.Fields.{get_mie-bit, get_mpie-bit, get_mpp-bits}
use t89emu.State.NextPc.{ProgramCounter}
use t89emu.State.Trap.{save_status, take_trap, vector_table_offset}

-- The status word of a trap, from the old word with the old enable digit already copied.
abbrev masked : ℕ → ℕ
masked w = bit_and (bit_or (bit_and w (not32 8)) 6144) (not32 8)

masked_bits :
    (w : ℕ)
    → (bit (masked w) 3 ≡ 0)
      × (bit (masked w) 7 ≡ bit w 7)
      × (bit (masked w) 11 ≡ 1)
      × (bit (masked w) 12 ≡ 1)
masked_bits w = omega (
  arith,
  bit-bit_and 3 (bit_or (bit_and w (not32 8)) 6144) (not32 8),
  bit-bit_and 7 (bit_or (bit_and w (not32 8)) 6144) (not32 8),
  bit-bit_and 11 (bit_or (bit_and w (not32 8)) 6144) (not32 8),
  bit-bit_and 12 (bit_or (bit_and w (not32 8)) 6144) (not32 8),
  bit-bit_or 7 (bit_and w (not32 8)) 6144,
  bit-bit_or 11 (bit_and w (not32 8)) 6144,
  bit-bit_or 12 (bit_and w (not32 8)) 6144,
  bit-bit_and 7 w (not32 8),
)

-- The status word: the enable digit is copied to MPIE if it is set, then masked.
abbrev stacked : Csr → ℕ
stacked csr = if get_mie csr == 0 then csr.registers mstatus else bit_or (csr.registers mstatus) 128

save_status-mstatus :
    (csr : Csr) (pc cause : ℕ) → (save_status csr pc cause).registers mstatus ≡ masked (stacked csr)
unfolding save_status get_mie get_mepc set_mpie set_mpp reset_mie set_mepc set_mcause write_csr
save_status-mstatus csr pc cause = ground arith

stacked_bits : (csr : Csr) → (bit (stacked csr) 7 ≡ max (get_mie csr) (get_mpie csr))
stacked_bits csr =
    ground (arith, get_mie-bit csr, get_mpie-bit csr, bit-bit_or 7 (csr.registers mstatus) 128)

pub save_status_fields :
    (csr : Csr) (pc cause : ℕ)
    → (get_mie (save_status csr pc cause) ≡ 0)
      × (get_mpie (save_status csr pc cause) ≡ max (get_mie csr) (get_mpie csr))
      × (get_mpp (save_status csr pc cause) ≡ 3)
save_status_fields csr pc cause = omega (
  arith,
  save_status-mstatus csr pc cause,
  get_mie-bit (save_status csr pc cause),
  get_mpie-bit (save_status csr pc cause),
  get_mpp-bits (save_status csr pc cause),
  masked_bits (stacked csr),
  stacked_bits csr,
)

save_status_rest :
    (csr : Csr) (pc cause : ℕ)
    → ((save_status csr pc cause).registers mepc
        ≡ (if cause == Code.ecall_from_m_mode then add32 pc 4 else pc))
      × ((save_status csr pc cause).registers mcause ≡ cause)
      × ((a : ℕ)
          → a ≢ mstatus
          → a ≢ mepc
          → a ≢ mcause
          → (save_status csr pc cause).registers a ≡ csr.registers a)
unfolding save_status get_mie get_mepc set_mpie set_mpp reset_mie set_mepc set_mcause write_csr
save_status_rest csr pc cause = (ground arith, ground arith, λ a p q r. ground arith)

-- A trap saves the program counter (the next instruction for an environment call) and the cause,
-- stacks the interrupt enable in MPIE on top of what was there, turns interrupts off, records machine
-- mode, leaves every other control register alone, and jumps, in both counters, to the entry of the
-- vector table: interrupt n at 4 * n, exception n at 64 + 4 * n from its base.
pub take_trap_saves :
    (csr : Csr) (p : ProgramCounter) (cause : ℕ)
    → cause < 2 ^ 32
    → let (csr', p', n') = take_trap csr p cause in
      (get_mie csr' ≡ 0)
      × (get_mpie csr' ≡ max (get_mie csr) (get_mpie csr))
      × (get_mpp csr' ≡ 3)
      × (csr'.registers mepc ≡ (if cause == Code.ecall_from_m_mode then add32 p.pc 4 else p.pc))
      × (csr'.registers mcause ≡ cause)
      × ((a : ℕ) → (csr'.registers a ≡ csr.registers a) ⊎ (a ≡ mstatus) ⊎ (a ≡ mepc) ⊎ (a ≡ mcause))
      × (p'.pc
          ≡ add32
              (csr.registers mtvec)
              (4 * (if leb 0x80000000 cause then cause - 0x80000000 else 16 + cause)))
      × (n'.next_pc ≡ p'.pc)
unfolding take_trap vector_table_offset get_mtvec
take_trap_saves csr p cause h =
    let fields = save_status_fields csr p.pc cause in
    let rest = save_status_rest csr p.pc cause in
    (
      fields.0,
      fields.1,
      fields.2,
      rest.0,
      rest.1,
      λ a. ground (arith, rest.2 a),
      ground (arith, rest.2 mtvec),
      refl,
    )
