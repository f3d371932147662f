-- ===== src/Device/Clint.antt =====
-- t89emu/src/ClintMemoryDevice.cpp: the cycle counter, the timer compare register and the software
-- interrupt word, as memory.
pub mod Laws
use t89emu.Common.{
  ℕ, ◌+◌, ◌==◌, leb, not, ◌&&◌, if◌then◌else◌, Bool, true, false, Option, some, ◌>>=◌, u64,
}
use t89emu.Arch.Code
use t89emu.Device.Memory
use t89emu.Device.Memory.{MemoryDevice, Answer, check_alignment, peek_sized, poke_sized}
use t89emu.Device.Memory.Bytes.{load_le, store_le}
use t89emu.State.Csr
use t89emu.State.Csr.{Csr}

pub record ClintMemoryDevice : Type 0 where
  pub device : MemoryDevice
  pub open device use *
  pub interrupt_type : ℕ

abbrev pub clint_size : ℕ
clint_size = 0x18

abbrev mcycle_offset : ℕ
mcycle_offset = 0x0

abbrev mtimecmp_offset : ℕ
mtimecmp_offset = 0x8

abbrev msip_offset : ℕ
msip_offset = 0x14

unfoldable pub init : ℕ → ℕ → ClintMemoryDevice
unfolding Memory.init
init base size = record { device = Memory.init base size; interrupt_type = 0 }

unfoldable pub read : ClintMemoryDevice → ℕ → ℕ → Option ℕ → Option Answer
unfolding check_alignment peek_sized
read d addr size old =
    if not (check_alignment addr size)
    then some (Code.load_address_misaligned, old)
    else do v ← peek_sized d.device size addr old; some (Code.status_ok, v)

unfoldable pub write : ClintMemoryDevice → ℕ → ℕ → ℕ → Option (ℕ × ClintMemoryDevice)
unfolding check_alignment poke_sized
write d addr value size =
    if not (check_alignment addr size) then some (Code.store_address_misaligned, d) else do
      device' ← poke_sized d.device size addr value
      some (Code.status_ok, record d { device = device' })

-- The three words, read where the code points into the buffer.
unfoldable pub mcycle : ClintMemoryDevice → ℕ
mcycle d = load_le 8 d.mem mcycle_offset

unfoldable pub mtimecmp : ClintMemoryDevice → ℕ
mtimecmp d = load_le 8 d.mem mtimecmp_offset

unfoldable pub msip : ClintMemoryDevice → ℕ
msip d = load_le 4 d.mem msip_offset

-- `(*mcycle)++`
unfoldable pub tick : ClintMemoryDevice → ClintMemoryDevice
unfolding mcycle
tick d = record d {
  device = record (d.device) { mem = store_le 8 d.mem mcycle_offset (u64 (mcycle d + 1)) };
}

unfoldable pub next_cycle : ClintMemoryDevice → Csr → ClintMemoryDevice × Csr
unfolding tick mcycle mtimecmp msip
next_cycle d csr =
    let d' = tick d in
    let csr' = if leb (mtimecmp d') (mcycle d') then Csr.set_mtip csr else Csr.reset_mtip csr in
    (d', if msip d' == 1 then Csr.set_msip csr' else csr')

unfoldable pub check_interrupts : ClintMemoryDevice → Csr → ClintMemoryDevice × Bool
unfolding msip
check_interrupts d csr =
    if Csr.get_mie csr == 0
    then (d, false)
    else if (msip d == 1) && not (Csr.get_msie csr == 0)
    then (record d { interrupt_type = Code.machine_software_interrupt }, true)
    else if not (Csr.get_mtip csr == 0) && not (Csr.get_mtie csr == 0)
    then (record d { interrupt_type = Code.machine_timer_interrupt }, true)
    else (d, false)
