-- ===== src/Mcu/Invariant.antt =====
-- What every state of the machine satisfies, and what no instruction changes.
use t89emu.Common.{◌<◌, ◌^◌, ◌≡◌, refl, ◌∙◌}
use t89emu.Device.Memory.{MemoryDevice}
use t89emu.Bus.{Devices}
use t89emu.Device.Memory.Access.{IsWord, Keeps}
use t89emu.Bus.Access.{DevicesOk, KeepsDevices, KeepsDevices-refl}
use t89emu.State.Words.{IsRegisterFile, IsCsr}
use t89emu.Mcu.Execute.{Mcu, Flow, proceed, throw}

-- Words in the registers and counters, 0 in register x0, bytes in memory.
pub record IsWellFormed (c : Mcu) : Type 0 where
  pub registers : IsRegisterFile c.rf
  pub csrs : IsCsr c.csr
  pub pc_word : c.pc.pc < 2 ^ 32
  pub next_word : c.next_pc.next_pc < 2 ^ 32
  pub memory : DevicesOk c.devices

-- The bus, the contents of ROM and the place of every device are the same.
pub record Follows (c c' : Mcu) : Type 0 where
  pub bus_same : c'.bus ≡ c.bus
  pub devices_keep : KeepsDevices c.devices c'.devices

pub Follows-of_same : (c c' : Mcu) → c'.bus ≡ c.bus → c'.devices ≡ c.devices → Follows c c'
Follows-of_same c c' b d = record {
  bus_same = b;
  devices_keep = rw d (KeepsDevices-refl c.devices);
}

pub Follows-refl : (c : Mcu) → Follows c c
Follows-refl c = record { bus_same = refl; devices_keep = KeepsDevices-refl c.devices }

Keeps-trans : {a b c : MemoryDevice} → Keeps a b → Keeps b c → Keeps a c
Keeps-trans h k = record {
  base = k.base ∙ h.base;
  size = k.size ∙ h.size;
  bytes = λ x. k.bytes (h.bytes x);
}

pub Follows-trans : {a b c : Mcu} → Follows a b → Follows b c → Follows a c
Follows-trans h k = record {
  bus_same = k.bus_same ∙ h.bus_same;
  devices_keep = record {
    rom_same = k.devices_keep.rom_same ∙ h.devices_keep.rom_same;
    ram_keeps = Keeps-trans h.devices_keep.ram_keeps k.devices_keep.ram_keeps;
    video_keeps = Keeps-trans h.devices_keep.video_keeps k.devices_keep.video_keeps;
    clint_keeps = Keeps-trans h.devices_keep.clint_keeps k.devices_keep.clint_keeps;
  };
}

pub KeepsDevices-DevicesOk : {ds ds' : Devices} → KeepsDevices ds ds' → DevicesOk ds → DevicesOk ds'
KeepsDevices-DevicesOk {ds} {ds'} k h = record {
  rom_bytes = rw k.rom_same h.rom_bytes;
  ram_bytes = k.ram_keeps.bytes h.ram_bytes;
  video_bytes = k.video_keeps.bytes h.video_bytes;
  clint_bytes = k.clint_keeps.bytes h.clint_bytes;
}

-- A case of the switch starts at `c`: it leaves the counters alone, and its exceptions have codes.
abbrev pub FlowOk : Mcu → Flow → Type 0
FlowOk c (proceed c' a b) =
    IsWellFormed c' × Follows c c' × IsWord a × IsWord b × (c'.pc ≡ c.pc) × (c'.next_pc ≡ c.next_pc)
FlowOk c (throw c' code) = IsWellFormed c' × Follows c c' × (code < 16)
