-- ===== src/Device/Rom.antt =====
-- t89emu/src/RomMemoryDevice.cpp.
use t89emu.Common.{ℕ, not, if◌then◌else◌, Option, some, ◌>>=◌}
use t89emu.Arch.Code
use t89emu.Device.Memory.{MemoryDevice, Answer, check_alignment, peek_fall_through}

unfoldable pub read : MemoryDevice → ℕ → ℕ → Option ℕ → Option Answer
unfolding check_alignment peek_fall_through
read d addr size old =
    if not (check_alignment addr size)
    then some (Code.load_address_misaligned, old)
    else do v ← peek_fall_through d size addr old; some (Code.status_ok, v)

-- ROM takes no write: the buffer stays, and the status is an exception.
unfoldable pub write : MemoryDevice → ℕ → ℕ → ℕ → Option (ℕ × MemoryDevice)
write d addr value size = some (Code.illegal_instruction, d)
