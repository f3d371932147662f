-- ===== src/Mcu/Init.antt =====
-- The state that the constructor makes.
use t89emu.Common.{ℕ, ◌<◌, ◌^◌, ◌≡◌, refl, arith, [], ◌∷◌}
use t89emu.State.Csr.{get_mie}
use t89emu.Device.Memory.{get_end_address}
use t89emu.Bus.{rom, ram, vram, clint, base_part}
use t89emu.Mcu.{init}
use t89emu.Mcu.Invariant.{IsWellFormed}

-- For a 32-bit entry address the constructor makes a well-formed machine, stopped at the entry address in both
-- counters, with interrupts off, and with its four devices on the bus in this order; the frame buffer
-- ends at 0x20024550 and the interruptor at 0x30000018.
pub init-IsWellFormed :
    (rom_base ram_base entry : ℕ)
    → entry < 2 ^ 32
    → let c = init rom_base ram_base entry in
      IsWellFormed c
      × (c.pc.pc ≡ entry)
      × (c.next_pc.next_pc ≡ entry)
      × (get_mie c.csr ≡ 0)
      × (c.bus.devices ≡ rom ∷ ram ∷ vram ∷ clint ∷ [])
      × (get_end_address (base_part c.devices vram) ≡ 0x20024550)
      × (get_end_address (base_part c.devices clint) ≡ 0x30000018)
unfolding init get_mie get_end_address base_part
init-IsWellFormed rom_base ram_base entry h = (
  record {
    registers = record { words = λ i. omega arith; zero_register = refl };
    csrs = λ i. omega arith;
    pc_word = h;
    next_word = h;
    memory = record {
      rom_bytes = λ i. omega arith;
      ram_bytes = λ i. omega arith;
      video_bytes = λ i. omega arith;
      clint_bytes = λ i. omega arith;
    };
  },
  refl,
  refl,
  refl,
  refl,
  refl,
  refl,
)
