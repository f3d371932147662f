-- ===== src/Mcu.antt =====
-- t89emu/src/Mcu.cpp: the processor with its bus and devices.
pub mod Decode
pub mod Isa
pub mod Execute
pub mod Status
pub mod Invariant
pub mod Step
pub mod Init
pub mod Cycle
use t89emu.Common.{ℕ, ◌+◌, ◌*◌, ◌==◌, not, if◌then◌else◌, Option, some, ◌>>=◌, true, false}
use t89emu.Arch.Code
use t89emu.State.RegisterFile
use t89emu.State.Csr
use t89emu.State.Trap
use t89emu.Device.Memory
use t89emu.Device.Video
use t89emu.Device.Clint
use t89emu.Bus
use t89emu.Bus.{DeviceRef}
use Execute.{Mcu, execute_instruction}

abbrev clint_base : ℕ
clint_base = 0x30000000

abbrev ram_size : ℕ
ram_size = 1048576

abbrev pub rom_size : ℕ
rom_size = 2097152

abbrev screen_width : ℕ
screen_width = 512

abbrev screen_height : ℕ
screen_height = 288

abbrev text_width : ℕ
text_width = 64

abbrev text_height : ℕ
text_height = 21

abbrev video_base : ℕ
video_base = 0x20000000

abbrev video_size : ℕ
video_size = 16 + text_height * text_width + screen_width * screen_height

unfoldable pub init : ℕ → ℕ → ℕ → Mcu
unfolding RegisterFile.init Csr.init Memory.init Video.init Clint.init Bus.init Bus.add_device
init rom_base ram_base entry_pc =
    let bus1 = (Bus.add_device Bus.init DeviceRef.rom).0 in
    let bus2 = (Bus.add_device bus1 DeviceRef.ram).0 in
    let bus3 = (Bus.add_device bus2 DeviceRef.vram).0 in
    record {
      rf = RegisterFile.init;
      pc = record { pc = entry_pc };
      csr = Csr.init;
      next_pc = record { next_pc = entry_pc };
      bus = (Bus.add_device bus3 DeviceRef.clint).0;
      devices = record {
        rom_device = Memory.init rom_base rom_size;
        ram_device = Memory.init ram_base ram_size;
        video_device =
            Video.init video_base video_size screen_width screen_height text_width text_height;
        clint_device = Clint.init clint_base Clint.clint_size;
      };
    }

unfoldable pub trap : Mcu → ℕ → Mcu
trap c cause =
    let (csr, pc, next_pc) = Trap.take_trap c.csr c.pc cause in
    record c { csr = csr; pc = pc; next_pc = next_pc }

-- The first half of a cycle: the cycle counter, and the jump to an interrupt's handler.
unfoldable pub interrupt_phase : Mcu → Mcu
interrupt_phase c =
    let (clint, csr) = Clint.next_cycle c.devices.clint_device c.csr in
    let (clint', pending) = Clint.check_interrupts clint csr in
    let c' = record c { csr = csr; devices = record (c.devices) { clint_device = clint' } } in
    if pending then trap c' clint'.interrupt_type else c'

-- `none`: some access on the way has no behaviour.
unfoldable pub next_instruction : Mcu → Option Mcu
next_instruction c = do
  (c1, exception_code) ← execute_instruction (interrupt_phase c)
  if not (exception_code == Code.status_ok)
      then (do (c2, _) ← execute_instruction (trap c1 exception_code); some c2)
      else some c1
