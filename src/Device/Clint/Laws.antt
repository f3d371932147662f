-- ===== src/Device/Clint/Laws.antt =====
-- One cycle of the interruptor.
use t89emu.Common.{
  ◌+◌, ◌%◌, ◌^◌, ◌≡◌, inr, arith, ◌==◌, leb, if◌then◌else◌, to_int, u64, ◌≤◌, ◌↔◌, ◌⊎◌, ◌≢◌, true,
  false,
}
use t89emu.Arch.Code
use t89emu.State.Csr.{
  Csr, get_mtip, get_msip, set_mtip, reset_mtip, get_mie, get_msie, get_mtie, set_msip,
}
use t89emu.State.Csr.Fields.{
  get_mtip-set_mtip, get_mtip-reset_mtip, get_mtip-set_msip, get_msip-set_msip, get_msip-set_mtip,
  get_msip-reset_mtip,
}
use t89emu.Device.Memory.Bytes.{load_le, load_le-store_le, load_le_ext, store_le_frame}
use t89emu.Device.Clint.{
  ClintMemoryDevice, mcycle, mtimecmp, msip, tick, next_cycle, check_interrupts,
}

mcycle-tick : (d : ClintMemoryDevice) → mcycle (tick d) ≡ u64 (mcycle d + 1)
unfolding mcycle tick
mcycle-tick d = omega (arith, load_le-store_le 8 d.mem 0 (u64 (load_le 8 d.mem 0 + 1)))

mtimecmp-tick : (d : ClintMemoryDevice) → mtimecmp (tick d) ≡ mtimecmp d
unfolding mtimecmp tick
mtimecmp-tick d =
    load_le_ext 8 _ d.mem 8 (λ i p q. store_le_frame 8 d.mem 0 _ i (inr (omega arith)))

msip-tick : (d : ClintMemoryDevice) → msip (tick d) ≡ msip d
unfolding msip tick
msip-tick d = load_le_ext 4 _ d.mem 0x14 (λ i p q. store_le_frame 8 d.mem 0 _ i (inr (omega arith)))

-- A cycle adds 1 to the 64-bit counter, with wrap-around, and leaves the compare register and the
-- software interrupt word; the timer is then pending exactly when the counter has reached the compare
-- register; a software interrupt becomes pending when its word is 1, and otherwise stays as it was.
pub next_cycle_lem :
    (d : ClintMemoryDevice) (csr : Csr)
    → let (d', csr') = next_cycle d csr in
      (mcycle d' ≡ (mcycle d + 1) % 2 ^ 64)
      × (mtimecmp d' ≡ mtimecmp d)
      × (msip d' ≡ msip d)
      × (get_mtip csr' ≡ to_int (leb (mtimecmp d) ((mcycle d + 1) % 2 ^ 64)))
      × (get_msip csr' ≡ (if msip d == 1 then 1 else get_msip csr))
unfolding next_cycle
next_cycle_lem d csr = (
  mcycle-tick d,
  mtimecmp-tick d,
  msip-tick d,
  rw (mcycle-tick d, mtimecmp-tick d, msip-tick d)
      (ground (
        arith,
        get_mtip-set_mtip csr,
        get_mtip-reset_mtip csr,
        get_mtip-set_msip (set_mtip csr),
        get_mtip-set_msip (reset_mtip csr),
      )),
  rw (mcycle-tick d, mtimecmp-tick d, msip-tick d)
      (ground (
        arith,
        get_msip-set_mtip csr,
        get_msip-reset_mtip csr,
        get_msip-set_msip (set_mtip csr),
        get_msip-set_msip (reset_mtip csr),
      )),
)

enables-same :
    (d : ClintMemoryDevice) (csr : Csr)
    → let csr' = (next_cycle d csr).1 in
      (get_mie csr' ≡ get_mie csr) × (get_msie csr' ≡ get_msie csr) × (get_mtie csr' ≡ get_mtie csr)
unfolding next_cycle get_mie get_msie get_mtie set_mtip reset_mtip set_msip
enables-same d csr = (ground arith, ground arith, ground arith)

-- In the cycle in which the device ticks, an interrupt is found exactly when interrupts are enabled and
-- either the software interrupt word is 1 and enabled, or the counter, one on, has reached the compare
-- register and the timer is enabled; the software interrupt goes first.
pub check_interrupts_lem :
    (d : ClintMemoryDevice) (csr : Csr)
    → let (d', csr') = next_cycle d csr in
      let (d'', pending) = check_interrupts d' csr' in
      let software = (msip d ≡ 1) × (get_msie csr ≢ 0) in
      let timer = (mtimecmp d ≤ (mcycle d + 1) % 2 ^ 64) × (get_mtie csr ≢ 0) in
      ((pending ≡ true) ↔ ((get_mie csr ≢ 0) × (software ⊎ timer)))
      × ((pending ≡ false)
          ⊎ (software × (d''.interrupt_type ≡ Code.machine_software_interrupt))
          ⊎ ((¬ software) × (d''.interrupt_type ≡ Code.machine_timer_interrupt)))
unfolding check_interrupts
check_interrupts_lem d csr = ground (arith, next_cycle_lem d csr, enables-same d csr)
