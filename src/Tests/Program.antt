-- ===== src/Tests/Program.antt =====
-- A machine with the program ADDI x1, x0, 5 at address 0 of its ROM, and zeros behind it.
use t89emu.Common.{
  ℕ, ◌≡◌, ◌==◌, if◌then◌else◌, arith, refl, Bool, true, false, Option, none, some, [], ◌∷◌,
}
use t89emu.Mcu.{init}
use t89emu.Mcu.Execute.{Mcu}
use t89emu.Mcu.Init.{init-IsWellFormed}
use t89emu.Mcu.Invariant.{IsWellFormed}
use t89emu.Debug.{McuDebug}

abbrev program : ℕ → ℕ
program i = if i == 0 then 0x93 else if i == 2 then 0x50 else 0

abbrev pub empty : Mcu
empty = init 0 0x10000000 0

abbrev pub machine : Mcu
machine = record empty {
  devices = record (empty.devices) {
    rom_device = record (empty.devices.rom_device) { mem = program };
  };
}

pub machine-IsWellFormed : IsWellFormed machine
machine-IsWellFormed =
    let w = (init-IsWellFormed 0 0x10000000 0 (omega arith)).0 in
    record {
      registers = w.registers;
      csrs = w.csrs;
      pc_word = w.pc_word;
      next_word = w.next_word;
      memory = record {
        rom_bytes = λ i. ground arith;
        ram_bytes = w.memory.ram_bytes;
        video_bytes = w.memory.video_bytes;
        clint_bytes = w.memory.clint_bytes;
      };
    }

-- The debugger on that machine, with a breakpoint at 4.
abbrev pub session : McuDebug
session = record { mcu = machine; latest_source_line = 0; breakpoints = 4 ∷ [] }

abbrev pub is_some {ℓ} : {A : Type ℓ} → Option A → Bool
is_some none = false
is_some (some a) = true

abbrev pub get {ℓ} : {A : Type ℓ} → A → Option A → A
get d none = d
get d (some a) = a

pub some-get {ℓ} : {A : Type ℓ} (d : A) (o : Option A) → is_some o ≡ true → o ≡ some (get d o)
some-get d none h = cc
some-get d (some a) h = refl
