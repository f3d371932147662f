-- ===== src/Bus/Precise.antt =====
-- A write that reports an exception has changed nothing.
use t89emu.Common.{
  ℕ, ◌≡◌, ◌≢◌, refl, ap, Option, none, some, ◌>>=◌, Ensures, Ensures-if, Ensures-bind, Bool, true,
  false, if◌then◌else◌, List, [], ◌∷◌,
}
use t89emu.Arch.Code
use t89emu.Device.Memory.{MemoryDevice}
use t89emu.Device.Rom
use t89emu.Device.Ram
use t89emu.Device.Video
use t89emu.Device.Clint
use t89emu.Bus.{Bus, Devices, DeviceRef, rom, ram, vram, clint, write_device, write_loop, write}

-- Nothing was written unless the status is success.
abbrev pub Unchanged {ℓ} : {D : Type ℓ} → D → ℕ × D → Type ℓ
Unchanged d (status, d') = status ≢ Code.status_ok → d' ≡ d

stored-Unchanged {ℓ} :
    {D : Type ℓ} (d : D) (m : Option MemoryDevice) (put : MemoryDevice → D) (b : Bool)
    → Ensures (Unchanged d) (
        if b
        then some (Code.store_address_misaligned, d)
        else (m >>= λ d'. some (Code.status_ok, put d')))
stored-Unchanged d m put true = λ _. refl
stored-Unchanged d none put false = tt
stored-Unchanged d (some d') put false = λ bad. absurd (bad refl)

write_device-Unchanged :
    (ds : Devices) (r : DeviceRef) (addr value size : ℕ)
    → Ensures (Unchanged ds) (write_device ds r addr value size)
unfolding write_device Rom.write Ram.write Video.write Clint.write
write_device-Unchanged ds rom addr value size = λ _. refl
write_device-Unchanged ds ram addr value size =
    Ensures-bind (Unchanged ds.ram_device) (Unchanged ds) (Ram.write ds.ram_device addr value size)
      _ (stored-Unchanged ds.ram_device _ (λ d. d) _)
      (λ r h bad. ap (λ d. record ds { ram_device = d }) (h bad))
write_device-Unchanged ds vram addr value size =
    Ensures-bind (Unchanged ds.video_device) (Unchanged ds)
      (Video.write ds.video_device addr value size) _
      (stored-Unchanged ds.video_device _ (λ d. record (ds.video_device) { device = d }) _)
      (λ r h bad. ap (λ d. record ds { video_device = d }) (h bad))
write_device-Unchanged ds clint addr value size =
    Ensures-bind (Unchanged ds.clint_device) (Unchanged ds)
      (Clint.write ds.clint_device addr value size) _
      (stored-Unchanged ds.clint_device _ (λ d. record (ds.clint_device) { device = d }) _)
      (λ r h bad. ap (λ d. record ds { clint_device = d }) (h bad))

pub write-Unchanged :
    (bus : Bus) (ds : Devices) (addr value size : ℕ)
    → Ensures (Unchanged ds) (write bus ds addr value size)
unfolding write
write-Unchanged bus ds addr value size = go bus.devices
  where
    go : (l : List DeviceRef) → Ensures (Unchanged ds) (write_loop ds l addr value size)
    go [] = λ _. refl
    go (r ∷ rs) =
        Ensures-if (Unchanged ds) _ _ _ (λ _. write_device-Unchanged ds r addr value size)
          (λ _. go rs)
