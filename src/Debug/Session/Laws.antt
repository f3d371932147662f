-- ===== src/Debug/Session/Laws.antt =====
-- The machine that a debugging session starts with.
use mathlib.Core.Path.{subst}
use t89emu.Common.{
  All-get, true, false, ℕ, ◌+◌, ◌-◌, ◌≤◌, ◌<◌, ◌^◌, ◌≡◌, refl, arith, ltb, Bool-cases, ltb→lt, inl,
  inr, some, All, Ensures-some, length, get_elem?,
}
use t89emu.Result.{ok}
use t89emu.Mcu.{init, rom_size}
use t89emu.Mcu.Execute.{Mcu}
use t89emu.Mcu.Init.{init-IsWellFormed}
use t89emu.Mcu.Invariant.{IsWellFormed}
use t89emu.Device.Memory.{MemoryDevice}
use t89emu.Device.Memory.Bytes.{IsBytes}
use t89emu.Elf.{ElfProgramHeader, section_size}
use t89emu.Elf.Load.{ElfParser, get_entry_pc, get_ram_start, get_rom_start, flash_rom}
use t89emu.Elf.Load.Flash.{flash_rom_lem}
use t89emu.Debug.Session.{load_machine}

unfoldable with_rom : Mcu → MemoryDevice → Mcu
with_rom c d = record c { devices = record (c.devices) { rom_device = d } }

get_rom_start_lem :
    (e : ElfParser) (rom : ElfProgramHeader)
    → e.segments.rom_header ≡ some rom
    → get_rom_start e ≡ some rom.paddr
unfolding get_rom_start
get_rom_start_lem e rom er = rw (er) refl

get_ram_start_lem :
    (e : ElfParser) (ram : ElfProgramHeader)
    → e.segments.ram_header ≡ some ram
    → get_ram_start e ≡ some ram.paddr
unfolding get_ram_start
get_ram_start_lem e ram er = rw (er) refl

load_machine-steps :
    (e : ElfParser) (rom ram : ElfProgramHeader) (d : MemoryDevice)
    → e.segments.rom_header ≡ some rom
    → e.segments.ram_header ≡ some ram
    → flash_rom e (init rom.paddr ram.paddr e.header.entry).devices.rom_device ≡ ok d
    → load_machine e ≡ ok (with_rom (init rom.paddr ram.paddr e.header.entry) d)
unfolding load_machine get_entry_pc with_rom
load_machine-steps e rom ram d er ea f =
    rw (get_rom_start_lem e rom er, get_ram_start_lem e ram ea, f) refl

ltb-above : (a b : ℕ) → ltb a b ≡ false → b ≤ a
ltb-above a b h = ground arith

above : (n m i : ℕ) → ltb i n ≡ false → ltb i (n + m) ≡ true → (i - n < m) × (n + (i - n) ≡ i)
above n m i e g =
    let h = ltb-above i n e in let l = ltb→lt i (n + m) g in (omega arith, omega arith)

copied-byte :
    (n m : ℕ) (f : ℕ → ℕ)
    → ((i : ℕ) → i < n → f i < 256)
    → ((i : ℕ) → i < m → f (n + i) < 256)
    → ((i : ℕ) → n + m ≤ i → f i < 256)
    → (i : ℕ) → f i < 256
copied-byte n m f first second rest i = elim (Bool-cases (ltb i n)) [
  | inl e ↦ first i (ltb→lt i n e)
  | inr e ↦ elim (Bool-cases (ltb i (n + m))) [
    | inl g ↦ subst (λ j. f j < 256) (above n m i e g).1 (second (i - n) (above n m i e g).0)
    | inr g ↦ rest i (ltb-above i (n + m) g)
  ]
]

-- Where the segments are found, fit in ROM, and are in the file, whose bytes are bytes, and the entry address has 32
-- digits: the machine that the debugger makes is well-formed and starts at the entry address, and its ROM holds
-- the ROM segment at its start and the RAM segment right behind it.
pub load_machine_lem :
    (e : ElfParser) (rom ram : ElfProgramHeader)
    → e.segments.rom_header ≡ some rom
    → e.segments.ram_header ≡ some ram
    → rom.offset + section_size rom ≤ length e.file
    → ram.offset + section_size ram ≤ length e.file
    → section_size rom + section_size ram ≤ rom_size
    → e.header.entry < 2 ^ 32
    → All (λ b. b < 256) e.file
    → (c : Mcu) × (load_machine e ≡ ok c)
      × IsWellFormed c
      × (c.pc.pc ≡ e.header.entry)
      × (c.next_pc.next_pc ≡ e.header.entry)
      × (c.devices.rom_device.base_address ≡ rom.paddr)
      × ((i : ℕ)
          → i < section_size rom
          → get_elem? e.file (rom.offset + i) ≡ some (c.devices.rom_device.mem i))
      × ((i : ℕ)
          → i < section_size ram
          → get_elem? e.file (ram.offset + i)
            ≡ some (c.devices.rom_device.mem (section_size rom + i)))
unfolding init with_rom
load_machine_lem e rom ram er ea hr ha room entry bytes =
    let c = init rom.paddr ram.paddr e.header.entry in
    let w = (init-IsWellFormed rom.paddr ram.paddr e.header.entry entry).0 in
    let (d, f, first, second, rest, base, size) =
      flash_rom_lem e rom ram c.devices.rom_device er ea hr ha room in
    let n = section_size rom in
    let m = section_size ram in
    let small : (i j : ℕ) → get_elem? e.file j ≡ some (d.mem i) → d.mem i < 256 = λ i j g.
      Ensures-some (λ b. b < 256) (get_elem? e.file j) (All-get (λ b. b < 256) e.file j bytes) g in
    let first_small : (i : ℕ) → i < n → d.mem i < 256 =
      λ i h. small i (rom.offset + i) (first i h) in
    let second_small : (i : ℕ) → i < m → d.mem (n + i) < 256 =
      λ i h. small (n + i) (ram.offset + i) (second i h) in
    let rest_small : (i : ℕ) → n + m ≤ i → d.mem i < 256 =
      λ i h. rw (rest i h) (w.memory.rom_bytes i) in
    let all : IsBytes d.mem =
      λ i. copied-byte n m d.mem (first_small) (second_small) (λ j h. rest_small j h) i in
    (
      with_rom c d,
      load_machine-steps e rom ram d er ea f,
      record {
        registers = w.registers;
        csrs = w.csrs;
        pc_word = w.pc_word;
        next_word = w.next_word;
        memory = record {
          rom_bytes = all;
          ram_bytes = w.memory.ram_bytes;
          video_bytes = w.memory.video_bytes;
          clint_bytes = w.memory.clint_bytes;
        };
      },
      refl,
      refl,
      base,
      first,
      second,
    )
