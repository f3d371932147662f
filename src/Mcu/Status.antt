-- ===== src/Mcu/Status.antt =====
-- A trap followed by MRET, seen in the status register.
use t89emu.Common.{ℕ, ◌<◌, ◌≡◌, ◌==◌, if◌then◌else◌, arith, bit_or, max, ◌⊎◌, ◌↔◌}
use t89emu.Common.Bits.{bit-bit_or}
use t89emu.State.Csr.{Csr, mstatus, get_mie, get_mpie, get_mpp, set_mie, set_mpie, set_mpp}
use t89emu.State.Csr.Fields.{get_mie-bit, get_mpie-bit, get_mpp-bits}
use t89emu.State.Trap.{save_status}
use t89emu.State.Trap.Laws.{save_status_fields}
use t89emu.Mcu.Execute.{restore_status}

-- The word that MRET leaves.
abbrev returned : Csr → ℕ
returned csr =
    bit_or
      (bit_or
        (if get_mpie csr == 0 then csr.registers mstatus else bit_or (csr.registers mstatus) 8) 128)
      6144

restore_status-mstatus : (csr : Csr) → (restore_status csr).registers mstatus ≡ returned csr
unfolding restore_status set_mie set_mpie set_mpp get_mpie
restore_status-mstatus csr = ground arith

-- MRET turns interrupts on if MPIE is set and never turns them off; it sets MPIE and keeps machine mode.
restore_status_fields :
    (csr : Csr)
    → (get_mie (restore_status csr) ≡ max (get_mie csr) (get_mpie csr))
      × (get_mpie (restore_status csr) ≡ 1)
      × (get_mpp (restore_status csr) ≡ 3)
restore_status_fields csr =
    let w = csr.registers mstatus in
    let v = if get_mpie csr == 0 then w else bit_or w 8 in
    ground (
      arith,
      restore_status-mstatus csr,
      get_mie-bit (restore_status csr),
      get_mpie-bit (restore_status csr),
      get_mpp-bits (restore_status csr),
      get_mie-bit csr,
      get_mpie-bit csr,
      bit-bit_or 3 w 8,
      bit-bit_or 3 v 128,
      bit-bit_or 7 v 128,
      bit-bit_or 3 (bit_or v 128) 6144,
      bit-bit_or 7 (bit_or v 128) 6144,
      bit-bit_or 11 (bit_or v 128) 6144,
      bit-bit_or 12 (bit_or v 128) 6144,
    )

get_mie-le : (c : Csr) → get_mie c < 2
get_mie-le c = omega (arith, get_mie-bit c)

-- After a trap and its MRET the interrupt enable is what it was exactly when it was on or MPIE was
-- clear. With interrupts off and MPIE set, as inside a handler after an earlier MRET, the return from
-- a nested exception turns them on.
pub trap_return_restores :
    (csr : Csr) (pc cause : ℕ)
    → let csr' = restore_status (save_status csr pc cause) in
      (get_mie csr' ≡ max (get_mie csr) (get_mpie csr))
      × ((get_mie csr' ≡ get_mie csr) ↔ ((get_mie csr ≡ 1) ⊎ (get_mpie csr ≡ 0)))
trap_return_restores csr pc cause = ground (
  arith,
  save_status_fields csr pc cause,
  restore_status_fields (save_status csr pc cause),
  get_mie-bit csr,
  get_mpie-bit csr,
)
