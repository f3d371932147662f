-- ===== src/State/Words.antt =====
-- Register contents stay within 32 digits.
use t89emu.Common.{
  ℕ, ◌<◌, ◌^◌, ◌≡◌, ◌==◌, arith, Bool, not, if◌then◌else◌, true, false, bit_and, bit_or, not32,
  update, Ensures, Bool-cases, inl, inr, ltb, add32,
}
use t89emu.Common.Bits.{bit_or-lt, bit_and-le}
use t89emu.Arch.Code
use t89emu.State.RegisterFile
use t89emu.State.RegisterFile.{RegisterFile}
use t89emu.State.Csr.{
  Csr, mstatus, mip, mepc, mcause, write_csr, set_mie, set_mpie, set_mpp, set_mtip, set_msip,
  reset_mie, reset_mtip, set_mepc, set_mcause, get_mepc, machine_mode, get_mie,
}
use t89emu.State.NextPc.{ProgramCounter}
use t89emu.State.Trap.{save_status, handler, take_trap}

abbrev pub Words : (ℕ → ℕ) → Type 0
Words f = (i : ℕ) → f i < 2 ^ 32

update-Words : (f : ℕ → ℕ) (k v : ℕ) → Words f → v < 2 ^ 32 → Words (update f k v)
update-Words f k v h hv i = ground (arith, h i)

-- A register file of words with 0 in register 0.
pub record IsRegisterFile (rf : RegisterFile) : Type 0 where
  pub words : Words rf.registers
  pub zero_register : rf.registers 0 ≡ 0

pub write-IsRegisterFile :
    (rf : RegisterFile) (value reg : ℕ)
    → IsRegisterFile rf
    → value < 2 ^ 32
    → Ensures IsRegisterFile (RegisterFile.write rf value reg)
unfolding RegisterFile.write
write-IsRegisterFile rf value reg h hv = elim (Bool-cases (ltb reg 32)) [
  | inl fits ↦ rw fits (record {
    words =
        update-Words rf.registers reg (if not (reg == 0) then value else 0) h.words (ground arith);
    zero_register = ground (arith, h.zero_register);
  })
  | inr out ↦ rw out tt
]

pub read-lt :
    (rf : RegisterFile) (reg : ℕ)
    → IsRegisterFile rf
    → Ensures (λ v. v < 2 ^ 32) (RegisterFile.read rf reg)
unfolding RegisterFile.read
read-lt rf reg h = ground (arith, h.words reg)

-- The setters and resetters.
set_digits-Words :
    (f : ℕ → ℕ) (k mask : ℕ) → Words f → mask < 2 ^ 32 → Words (update f k (bit_or (f k) mask))
set_digits-Words f k mask h m = update-Words f k _ h (bit_or-lt 32 (f k) mask (h k) m)

reset_digits-Words :
    (f : ℕ → ℕ) (k mask : ℕ) → Words f → Words (update f k (bit_and (f k) (not32 mask)))
reset_digits-Words f k mask h = update-Words f k _ h (omega (arith, bit_and-le (f k) (not32 mask)))

abbrev pub IsCsr : Csr → Type 0
IsCsr c = Words c.registers

pub write_csr-IsCsr :
    (c : Csr) (address value : ℕ) → IsCsr c → value < 2 ^ 32 → IsCsr (write_csr c address value)
unfolding write_csr
write_csr-IsCsr c address value h hv = update-Words c.registers address value h hv

pub set_mie-IsCsr : (c : Csr) → IsCsr c → IsCsr (set_mie c)
unfolding set_mie
set_mie-IsCsr c h = set_digits-Words c.registers mstatus 8 h (omega arith)

pub set_mpie-IsCsr : (c : Csr) → IsCsr c → IsCsr (set_mpie c)
unfolding set_mpie
set_mpie-IsCsr c h = set_digits-Words c.registers mstatus 128 h (omega arith)

pub set_mpp-IsCsr : (c : Csr) → IsCsr c → IsCsr (set_mpp machine_mode c)
unfolding set_mpp
set_mpp-IsCsr c h = set_digits-Words c.registers mstatus 6144 h (omega arith)

pub set_mtip-IsCsr : (c : Csr) → IsCsr c → IsCsr (set_mtip c)
unfolding set_mtip
set_mtip-IsCsr c h = set_digits-Words c.registers mip 128 h (omega arith)

pub set_msip-IsCsr : (c : Csr) → IsCsr c → IsCsr (set_msip c)
unfolding set_msip
set_msip-IsCsr c h = set_digits-Words c.registers mip 8 h (omega arith)

pub reset_mtip-IsCsr : (c : Csr) → IsCsr c → IsCsr (reset_mtip c)
unfolding reset_mtip
reset_mtip-IsCsr c h = reset_digits-Words c.registers mip 128 h

reset_mie-IsCsr : (c : Csr) → IsCsr c → IsCsr (reset_mie c)
unfolding reset_mie
reset_mie-IsCsr c h = reset_digits-Words c.registers mstatus 8 h

pub if-IsCsr : (b : Bool) (c d : Csr) → IsCsr c → IsCsr d → IsCsr (if b then c else d)
if-IsCsr true c d h k = h
if-IsCsr false c d h k = k

save_status-IsCsr :
    (csr : Csr) (pc cause : ℕ)
    → IsCsr csr
    → pc < 2 ^ 32
    → cause < 2 ^ 32
    → IsCsr (save_status csr pc cause)
unfolding save_status set_mepc set_mcause
save_status-IsCsr csr pc cause h hp hc =
    let c1 = write_csr csr mepc pc in
    let h1 = write_csr-IsCsr csr mepc pc h hp in
    let c2 =
      if cause == Code.ecall_from_m_mode then write_csr c1 mepc (add32 (get_mepc c1) 4) else c1 in
    let h2 =
      if-IsCsr (cause == Code.ecall_from_m_mode) _ c1
        (write_csr-IsCsr c1 mepc (add32 (get_mepc c1) 4) h1 (omega arith)) h1 in
    let c3 = write_csr c2 mcause cause in
    let h3 = write_csr-IsCsr c2 mcause cause h2 hc in
    let h4 = if-IsCsr (not (get_mie c3 == 0)) (set_mpie c3) c3 (set_mpie-IsCsr c3 h3) h3 in
    reset_mie-IsCsr _ (set_mpp-IsCsr _ (reset_mie-IsCsr _ h4))

-- A trap leaves words in the registers and in both counters.
pub take_trap-IsCsr :
    (csr : Csr) (p : ProgramCounter) (cause : ℕ)
    → IsCsr csr
    → p.pc < 2 ^ 32
    → cause < 2 ^ 32
    → IsCsr (take_trap csr p cause).0
      × ((take_trap csr p cause).1.pc < 2 ^ 32)
      × ((take_trap csr p cause).2.next_pc < 2 ^ 32)
unfolding take_trap handler
take_trap-IsCsr csr p cause h hp hc =
    (save_status-IsCsr csr p.pc cause h hp hc, omega arith, omega arith)
