-- ===== src/Bus/Ends.antt =====
-- The address just behind a device.
use t89emu.Common.{
  ℕ, ◌+◌, ◌%◌, ◌^◌, ◌<◌, ◌≡◌, arith, Option, none, true, false, List, ◌∷◌, ◌++◌, All, ◌∙◌,
}
use t89emu.Arch.{word}
use t89emu.Device.Memory.{
  MemoryDevice, check_alignment, get_address, get_end_address, peek, peek_fall_through, peek_sized,
}
use t89emu.Device.Rom
use t89emu.Device.Ram
use t89emu.Device.Video
use t89emu.Device.Clint
use t89emu.Bus.{
  Bus, Devices, DeviceRef, rom, ram, vram, clint, read_device, base_part, in_range, read,
}
use t89emu.Bus.Route.{first_match}

peek_end :
    (d : MemoryDevice) (addr : ℕ)
    → addr < 2 ^ 32
    → d.base_address + d.device_size ≡ addr
    → peek d word addr ≡ none
unfolding peek get_address
peek_end d addr h e = ground arith

end_in_range :
    (d : MemoryDevice) (addr : ℕ)
    → addr < 2 ^ 32
    → d.base_address + d.device_size ≡ addr
    → in_range d addr ≡ true
unfolding in_range get_end_address
end_in_range d addr h e = ground arith

read_device_end :
    (ds : Devices) (r : DeviceRef) (addr : ℕ) (old : Option ℕ)
    → addr < 2 ^ 32
    → addr % 4 ≡ 0
    → (base_part ds r).base_address + (base_part ds r).device_size ≡ addr
    → read_device ds r addr word old ≡ none
unfolding read_device base_part Rom.read Ram.read Video.read Clint.read peek_fall_through peek_sized
    check_alignment
read_device_end ds rom addr old h a e = ground (arith, peek_end ds.rom_device addr h e)
read_device_end ds ram addr old h a e = ground (arith, peek_end ds.ram_device addr h e)
read_device_end ds vram addr old h a e = ground (arith, peek_end ds.video_device.device addr h e)
read_device_end ds clint addr old h a e = ground (arith, peek_end ds.clint_device.device addr h e)

-- The bus counts the address just behind a device as the device's own. A word load there, aligned and
-- held by no device that was added earlier, reads behind the buffer: it has no defined behaviour, where
-- an access fault would be due.
pub read_behind_device :
    (ds : Devices) (front back : List DeviceRef) (r : DeviceRef) (addr : ℕ) (old : Option ℕ)
    → addr < 2 ^ 32
    → addr % 4 ≡ 0
    → All (λ q. in_range (base_part ds q) addr ≡ false) front
    → (base_part ds r).base_address + (base_part ds r).device_size ≡ addr
    → let bus : Bus = record { devices = front ++ (r ∷ back) } in read bus ds addr word old ≡ none
read_behind_device ds front back r addr old h a free e =
    (first_match ds front back r addr 0 word old free (end_in_range (base_part ds r) addr h e)).0
    ∙ read_device_end ds r addr old h a e
