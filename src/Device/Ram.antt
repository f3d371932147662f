-- ===== src/Device/Ram.antt =====
-- t89emu/src/RamMemoryDevice.cpp.
pub mod Laws
use t89emu.Common.{ℕ, not, if◌then◌else◌, Option, some, ◌>>=◌}
use t89emu.Arch.Code
use t89emu.Device.Memory.{MemoryDevice, Answer, check_alignment, peek_fall_through, poke_sized}

unfoldable pub read : MemoryDevice → ℕ → ℕ → Option ℕ → Option Answer
unfolding check_alignment peek_fall_through
read d addr size old =
    if not (check_alignment addr size)
    then some (Code.load_address_misaligned, old)
    else do v ← peek_fall_through d size addr old; some (Code.status_ok, v)

unfoldable pub write : MemoryDevice → ℕ → ℕ → ℕ → Option (ℕ × MemoryDevice)
unfolding check_alignment poke_sized
write d addr value size =
    if not (check_alignment addr size)
    then some (Code.store_address_misaligned, d)
    else do d' ← poke_sized d size addr value; some (Code.status_ok, d')
