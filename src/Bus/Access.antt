-- ===== src/Bus/Access.antt =====
-- What the bus hands back, and what a write through it keeps.
use t89emu.Common.{
  ℕ, ◌≡◌, refl, inl, inr, arith, Option, none, some, Ensures, Ensures-if, Ensures-bind, ◌>>=◌, Bool,
  List, [], ◌∷◌, if◌then◌else◌,
}
use t89emu.Arch.Code
use t89emu.Device.Memory.{MemoryDevice, poke_sized}
use t89emu.Device.Memory.Bytes.{IsBytes}
use t89emu.Device.Memory.Access.{
  IsStatus, IsWord, IsAnswer, Keeps, Keeps-refl, poke_sized-Keeps, peek_sized-IsWord,
  peek_fall_through-IsWord,
}
use t89emu.Device.Rom
use t89emu.Device.Ram
use t89emu.Device.Video
use t89emu.Device.Clint
use t89emu.Bus.{
  Bus, Devices, DeviceRef, rom, ram, vram, clint, read_device, write_device, base_part, in_range,
  read_loop, write_loop, read, write,
}

pub record DevicesOk (ds : Devices) : Type 0 where
  pub rom_bytes : IsBytes ds.rom_device.mem
  pub ram_bytes : IsBytes ds.ram_device.mem
  pub video_bytes : IsBytes ds.video_device.device.mem
  pub clint_bytes : IsBytes ds.clint_device.device.mem

-- ROM is the same object with the same contents; the others keep their place.
pub record KeepsDevices (ds ds' : Devices) : Type 0 where
  pub rom_same : ds'.rom_device ≡ ds.rom_device
  pub ram_keeps : Keeps ds.ram_device ds'.ram_device
  pub video_keeps : Keeps ds.video_device.device ds'.video_device.device
  pub clint_keeps : Keeps ds.clint_device.device ds'.clint_device.device

pub KeepsDevices-refl : (ds : Devices) → KeepsDevices ds ds
KeepsDevices-refl ds = record {
  rom_same = refl;
  ram_keeps = Keeps-refl ds.ram_device;
  video_keeps = Keeps-refl ds.video_device.device;
  clint_keeps = Keeps-refl ds.clint_device.device;
}

abbrev WriteOk : Devices → ℕ × Devices → Type 0
WriteOk ds (status, ds') = IsStatus status × KeepsDevices ds ds'

answer :
    (m : Option (Option ℕ)) (b : Bool)
    → Ensures (Ensures IsWord) m
    → Ensures IsAnswer (
        if b
        then some (Code.load_address_misaligned, none)
        else (m >>= λ v. some (Code.status_ok, v)))
answer m b e =
    Ensures-if IsAnswer b _ _ (λ _. (inr (omega arith), tt))
      λ _. Ensures-bind (Ensures IsWord) IsAnswer m _ e (λ v hv. (inl refl, hv))

read_device-IsAnswer :
    (ds : Devices) (r : DeviceRef) (addr size : ℕ)
    → DevicesOk ds
    → Ensures IsAnswer (read_device ds r addr size none)
unfolding read_device Rom.read Ram.read Video.read Clint.read
read_device-IsAnswer ds rom addr size h =
    answer _ _ (peek_fall_through-IsWord ds.rom_device size addr h.rom_bytes)
read_device-IsAnswer ds ram addr size h =
    answer _ _ (peek_fall_through-IsWord ds.ram_device size addr h.ram_bytes)
read_device-IsAnswer ds vram addr size h =
    answer _ _ (peek_fall_through-IsWord ds.video_device.device size addr h.video_bytes)
read_device-IsAnswer ds clint addr size h =
    answer _ _ (peek_sized-IsWord ds.clint_device.device size addr h.clint_bytes)

abbrev WrittenOk {ℓ} : {D : Type ℓ} → MemoryDevice → (D → MemoryDevice) → ℕ × D → Type 0
WrittenOk d part (status, d') = IsStatus status × Keeps d (part d')

-- A write by one of the devices that take writes; `put` places the new buffer in the object.
stored {ℓ} :
    {D : Type ℓ} (d : MemoryDevice) (size addr value : ℕ) (old : D) (put : MemoryDevice → D)
    (part : D → MemoryDevice) (b : Bool)
    → Keeps d (part old)
    → ((d' : MemoryDevice) → Keeps d d' → Keeps d (part (put d')))
    → Ensures (WrittenOk d part) (
        if b
        then some (Code.store_address_misaligned, old)
        else (poke_sized d size addr value >>= λ d'. some (Code.status_ok, put d')))
stored d size addr value old put part b same placed =
    Ensures-if (WrittenOk d part) b _ _ (λ _. (inr (omega arith), same))
      λ _.
        Ensures-bind (Keeps d) (WrittenOk d part) (poke_sized d size addr value) _
          (poke_sized-Keeps d size addr value) (λ d' k. (inl refl, placed d' k))

write_device-WriteOk :
    (ds : Devices) (r : DeviceRef) (addr value size : ℕ)
    → Ensures (WriteOk ds) (write_device ds r addr value size)
unfolding write_device Rom.write Ram.write Video.write Clint.write
write_device-WriteOk ds rom addr value size = (inr (omega arith), KeepsDevices-refl ds)
write_device-WriteOk ds ram addr value size =
    Ensures-bind (WrittenOk ds.ram_device (λ x. x)) (WriteOk ds)
      (Ram.write ds.ram_device addr value size) _
      (stored ds.ram_device size addr value ds.ram_device (λ d'. d') (λ x. x) _ (Keeps-refl _)
        (λ d' k. k))
      (λ r h. (
        h.0,
        record {
          rom_same = refl;
          ram_keeps = h.1;
          video_keeps = Keeps-refl ds.video_device.device;
          clint_keeps = Keeps-refl ds.clint_device.device;
        },
      ))
write_device-WriteOk ds vram addr value size =
    Ensures-bind (WrittenOk ds.video_device.device (λ x. x.device)) (WriteOk ds)
      (Video.write ds.video_device addr value size) _
      (stored ds.video_device.device size addr value ds.video_device
        (λ d'. record (ds.video_device) { device = d' }) (λ x. x.device) _ (Keeps-refl _)
        (λ d' k. k))
      (λ r h. (
        h.0,
        record {
          rom_same = refl;
          ram_keeps = Keeps-refl ds.ram_device;
          video_keeps = h.1;
          clint_keeps = Keeps-refl ds.clint_device.device;
        },
      ))
write_device-WriteOk ds clint addr value size =
    Ensures-bind (WrittenOk ds.clint_device.device (λ x. x.device)) (WriteOk ds)
      (Clint.write ds.clint_device addr value size) _
      (stored ds.clint_device.device size addr value ds.clint_device
        (λ d'. record (ds.clint_device) { device = d' }) (λ x. x.device) _ (Keeps-refl _)
        (λ d' k. k))
      (λ r h. (
        h.0,
        record {
          rom_same = refl;
          ram_keeps = Keeps-refl ds.ram_device;
          video_keeps = Keeps-refl ds.video_device.device;
          clint_keeps = h.1;
        },
      ))

pub read-IsAnswer :
    (bus : Bus) (ds : Devices) (addr size : ℕ)
    → DevicesOk ds
    → Ensures IsAnswer (read bus ds addr size none)
unfolding read
read-IsAnswer bus ds addr size h = go bus.devices
  where
    go : (l : List DeviceRef) → Ensures IsAnswer (read_loop ds l addr size none)
    go [] = (inr (omega arith), tt)
    go (r ∷ rs) =
        Ensures-if IsAnswer (in_range (base_part ds r) addr) _ _
          (λ _. read_device-IsAnswer ds r addr size h) (λ _. go rs)

pub write-WriteOk :
    (bus : Bus) (ds : Devices) (addr value size : ℕ)
    → Ensures (λ r. IsStatus r.0 × KeepsDevices ds r.1) (write bus ds addr value size)
unfolding write
write-WriteOk bus ds addr value size = go bus.devices
  where
    go : (l : List DeviceRef) → Ensures (WriteOk ds) (write_loop ds l addr value size)
    go [] = (inr (omega arith), KeepsDevices-refl ds)
    go (r ∷ rs) =
        Ensures-if (WriteOk ds) (in_range (base_part ds r) addr) _ _
          (λ _. write_device-WriteOk ds r addr value size) (λ _. go rs)
