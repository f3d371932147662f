-- ===== src/Tests/Devices.antt =====
-- RAM, the bus and the interruptor on concrete accesses.
use t89emu.Common.{
  ℕ, ◌+◌, ◌-◌, ◌%◌, ◌^◌, ◌≤◌, ◌≡◌, ◌↔◌, inl, refl, arith, none, some, ◌==◌, if◌then◌else◌, leb,
  to_int, [], ◌∷◌, ◌++◌, List, All, ◌≢◌, ◌⊎◌, true, false,
}
use t89emu.Arch.{byte, word}
use t89emu.Arch.Code
use t89emu.Bus
use t89emu.Bus.{
  Bus, Devices, DeviceRef, rom, ram, vram, clint, base_part, in_range, read_device, write_device,
}
use t89emu.Bus.Route.{HoldsAddress, accesses_routed}
use t89emu.Bus.Ends.{read_behind_device}
use t89emu.Device.Memory.{MemoryDevice}
use t89emu.Device.Memory.Bytes.{load_le}
use t89emu.Device.Ram
use t89emu.Device.Ram.Laws.{Holds, read-write, read_inside, read-byte_iff}
use t89emu.Device.Clint.{ClintMemoryDevice, mcycle, mtimecmp, msip, next_cycle, check_interrupts}
use t89emu.Device.Clint.Laws.{next_cycle_lem, check_interrupts_lem}
use t89emu.State.Csr
use t89emu.State.Csr.{get_mtip, get_msip, get_mie, get_msie, get_mtie}
use t89emu.Mcu.{init}
use t89emu.Tests.Program.{empty}

-- Sixteen bytes at 0x100.
abbrev small : MemoryDevice
small = record { base_address = 0x100; device_size = 16; mem = λ i. i }

small-Holds : (addr size : ℕ) → 0x100 ≤ addr → addr + size ≤ 0x110 → Holds small addr size
small-Holds addr size l h = record { fits = omega arith; above = l; below = h }

read-write_example :
    (d' : MemoryDevice) × (Ram.write small 0x104 0x12345678 word ≡ some (Code.status_ok, d'))
    × (Ram.read d' 0x104 word none ≡ some (Code.status_ok, some (0x12345678 % 2 ^ 32)))
    × (Ram.read d' 0x108 word none ≡ Ram.read small 0x108 word none)
read-write_example =
    read-write small 0x104 0x108 0x12345678 none (omega arith)
      (small-Holds 0x104 word (omega arith) (omega arith)) (omega arith) (omega arith)
      (small-Holds 0x108 word (omega arith) (omega arith))

-- The last byte: a load of it leaves the buffer.
read_inside_example : Ram.read small 0x10f byte none ≡ (
    if leb (0x10f + 4) (0x100 + 16)
    then some (Code.status_ok, some (load_le 4 small.mem (0x10f - 0x100)))
    else none)
read_inside_example =
    read_inside small 0x10f byte none (inl refl) (omega arith)
      (small-Holds 0x10f byte (omega arith) (omega arith))

read-byte_iff_example :
    (Ram.read small 0x100 byte none ≡ some (Code.status_ok, some (small.mem (0x100 - 0x100))))
    ↔ (load_le 3 small.mem (0x100 - 0x100 + 1) ≡ 0)
read-byte_iff_example =
    read-byte_iff small 0x100 none (small-Holds 0x100 4 (omega arith) (omega arith))

accesses_routed_example :
    let bus : Bus = record { devices = rom ∷ ram ∷ vram ∷ clint ∷ [] } in
    let ds = empty.devices in
    (All (λ q. ¬ HoldsAddress ds 0x10000004 q) (rom ∷ ram ∷ vram ∷ clint ∷ [])
      × (Bus.read bus ds 0x10000004 word none ≡ some (Code.load_access_fault, none))
      × (Bus.write bus ds 0x10000004 7 word ≡ some (Code.store_access_fault, ds)))
    ⊎ ((front : List DeviceRef) × (r : DeviceRef) × (back : List DeviceRef) × (rom ∷ ram ∷ vram
            ∷ clint ∷ []
          ≡ front ++ (r ∷ back))
        × All (λ q. ¬ HoldsAddress ds 0x10000004 q) front
        × HoldsAddress ds 0x10000004 r
        × (Bus.read bus ds 0x10000004 word none ≡ read_device ds r 0x10000004 word none)
        × (Bus.write bus ds 0x10000004 7 word ≡ write_device ds r 0x10000004 7 word))
accesses_routed_example =
    accesses_routed (record { devices = rom ∷ ram ∷ vram ∷ clint ∷ [] }) empty.devices 0x10000004 7
      word none

-- Just behind ROM.
read_behind_device_example :
    let bus : Bus = record { devices = rom ∷ ram ∷ vram ∷ clint ∷ [] } in
    Bus.read bus empty.devices 0x200000 word none ≡ none
read_behind_device_example =
    read_behind_device empty.devices [] (ram ∷ vram ∷ clint ∷ []) rom 0x200000 none (omega arith)
      (omega arith) tt (unfold init base_part in refl)

-- The timer compare register is 0, the software interrupt word 1.
abbrev interruptor : ClintMemoryDevice
interruptor = record {
  device = record {
    base_address = 0x30000000;
    device_size = 0x18;
    mem = λ i. if i == 20 then 1 else 0;
  };
  interrupt_type = 0;
}

next_cycle_lem_example :
    let (d', csr') = next_cycle interruptor Csr.init in
    (mcycle d' ≡ (mcycle interruptor + 1) % 2 ^ 64)
    × (mtimecmp d' ≡ mtimecmp interruptor)
    × (msip d' ≡ msip interruptor)
    × (get_mtip csr' ≡ to_int (leb (mtimecmp interruptor) ((mcycle interruptor + 1) % 2 ^ 64)))
    × (get_msip csr' ≡ (if msip interruptor == 1 then 1 else get_msip Csr.init))
next_cycle_lem_example = next_cycle_lem interruptor Csr.init

check_interrupts_lem_example :
    let (d', csr') = next_cycle interruptor Csr.init in
    let (d'', pending) = check_interrupts d' csr' in
    let software = (msip interruptor ≡ 1) × (get_msie Csr.init ≢ 0) in
    let timer =
      (mtimecmp interruptor ≤ (mcycle interruptor + 1) % 2 ^ 64) × (get_mtie Csr.init ≢ 0) in
    ((pending ≡ true) ↔ ((get_mie Csr.init ≢ 0) × (software ⊎ timer)))
    × ((pending ≡ false)
        ⊎ (software × (d''.interrupt_type ≡ Code.machine_software_interrupt))
        ⊎ ((¬ software) × (d''.interrupt_type ≡ Code.machine_timer_interrupt)))
check_interrupts_lem_example = check_interrupts_lem interruptor Csr.init
