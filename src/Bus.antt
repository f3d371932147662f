-- ===== src/Bus.antt =====
-- t89emu/src/Bus.cpp, in the configuration that t89emu/include/Bus.h selects (BUS_EXPERIMENTAL).
-- The devices live in a store of their own, since the bus and the processor point to the same
-- objects; the bus holds references in the order in which they were added.
pub mod Access
pub mod Precise
pub mod Route
pub mod Ends
use t89emu.Common.{
  ℕ, leb, ◌&&◌, if◌then◌else◌, Option, some, List, [], ◌∷◌, ◌++◌, ◌>>=◌, Bool, length, ◌-◌,
}
use t89emu.Arch.Code
use t89emu.Device.Memory.{MemoryDevice, Answer, get_end_address}
use t89emu.Device.Rom
use t89emu.Device.Ram
use t89emu.Device.Video
use t89emu.Device.Video.{VideoMemoryDevice}
use t89emu.Device.Clint
use t89emu.Device.Clint.{ClintMemoryDevice}

pub record Devices : Type 0 where
  pub rom_device : MemoryDevice
  pub ram_device : MemoryDevice
  pub video_device : VideoMemoryDevice
  pub clint_device : ClintMemoryDevice

-- A `MemoryDevice *`; the class of the object decides which method a virtual call runs.
pub data DeviceRef : Type 0 where
  rom ram vram clint : DeviceRef

-- The part of the object that the base class declares.
unfoldable pub base_part : Devices → DeviceRef → MemoryDevice
base_part ds rom = ds.rom_device
base_part ds ram = ds.ram_device
base_part ds vram = ds.video_device.device
base_part ds clint = ds.clint_device.device

unfoldable pub read_device : Devices → DeviceRef → ℕ → ℕ → Option ℕ → Option Answer
read_device ds rom addr size old = Rom.read ds.rom_device addr size old
read_device ds ram addr size old = Ram.read ds.ram_device addr size old
read_device ds vram addr size old = Video.read ds.video_device addr size old
read_device ds clint addr size old = Clint.read ds.clint_device addr size old

unfoldable pub write_device : Devices → DeviceRef → ℕ → ℕ → ℕ → Option (ℕ × Devices)
write_device ds rom addr value size = do
  (status, d) ← Rom.write ds.rom_device addr value size
  some (status, record ds { rom_device = d })
write_device ds ram addr value size = do
  (status, d) ← Ram.write ds.ram_device addr value size
  some (status, record ds { ram_device = d })
write_device ds vram addr value size = do
  (status, d) ← Video.write ds.video_device addr value size
  some (status, record ds { video_device = d })
write_device ds clint addr value size = do
  (status, d) ← Clint.write ds.clint_device addr value size
  some (status, record ds { clint_device = d })

pub record Bus : Type 0 where
  pub devices : List DeviceRef

unfoldable pub init : Bus
init = record { devices = [] }

-- The new bus and the index of the device.
unfoldable pub add_device : Bus → DeviceRef → Bus × ℕ
add_device bus r =
    let devices = bus.devices ++ (r ∷ []) in (record { devices = devices }, length devices - 1)

-- Both ends belong to the range.
unfoldable pub in_range : MemoryDevice → ℕ → Bool
unfolding get_end_address
in_range d addr = leb d.base_address addr && leb addr (get_end_address d)

read_loop : Devices → List DeviceRef → ℕ → ℕ → Option ℕ → Option Answer
unfolding in_range base_part
read_loop ds [] addr size old = some (Code.load_access_fault, old)
read_loop ds (r ∷ rs) addr size old =
    if in_range (base_part ds r) addr
    then read_device ds r addr size old
    else read_loop ds rs addr size old

unfoldable pub read : Bus → Devices → ℕ → ℕ → Option ℕ → Option Answer
unfolding read_loop
read bus ds addr size old = read_loop ds bus.devices addr size old

write_loop : Devices → List DeviceRef → ℕ → ℕ → ℕ → Option (ℕ × Devices)
unfolding in_range base_part
write_loop ds [] addr value size = some (Code.store_access_fault, ds)
write_loop ds (r ∷ rs) addr value size =
    if in_range (base_part ds r) addr
    then write_device ds r addr value size
    else write_loop ds rs addr value size

unfoldable pub write : Bus → Devices → ℕ → ℕ → ℕ → Option (ℕ × Devices)
unfolding write_loop
write bus ds addr value size = write_loop ds bus.devices addr value size
