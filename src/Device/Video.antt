-- ===== src/Device/Video.antt =====
-- t89emu/src/VideoMemoryDevice.cpp: a frame buffer with the sizes of its two modes.
use t89emu.Common.{ℕ, not, if◌then◌else◌, Option, some, ◌>>=◌}
use t89emu.Arch.Code
use t89emu.Device.Memory
use t89emu.Device.Memory.{MemoryDevice, Answer, check_alignment, peek_fall_through, poke_sized}

pub record VideoMemoryDevice : Type 0 where
  pub device : MemoryDevice
  pub open device use *
  pub g_width : ℕ
  pub g_height : ℕ
  pub t_width : ℕ
  pub t_height : ℕ

unfoldable pub init : ℕ → ℕ → ℕ → ℕ → ℕ → ℕ → VideoMemoryDevice
unfolding Memory.init
init base size g_width g_height t_width t_height = record {
  device = Memory.init base size;
  g_width = g_width;
  g_height = g_height;
  t_width = t_width;
  t_height = t_height;
}

unfoldable pub read : VideoMemoryDevice → ℕ → ℕ → Option ℕ → Option Answer
unfolding check_alignment peek_fall_through
read d addr size old =
    if not (check_alignment addr size)
    then some (Code.load_address_misaligned, old)
    else do v ← peek_fall_through d.device size addr old; some (Code.status_ok, v)

unfoldable pub write : VideoMemoryDevice → ℕ → ℕ → ℕ → Option (ℕ × VideoMemoryDevice)
unfolding check_alignment poke_sized
write d addr value size =
    if not (check_alignment addr size) then some (Code.store_address_misaligned, d) else do
      device' ← poke_sized d.device size addr value
      some (Code.status_ok, record d { device = device' })
