-- ===== src/Elf/Load.antt =====
-- t89emu/src/ElfParser.cpp: `initStructures` and `flashRom`.
pub mod Laws
pub mod Flash
use t89emu.Common.{
  ℕ, zero, suc, ◌+◌, ◌==◌, ltb, not, ◌&&◌, Bool, true, false, if◌then◌else◌, Option, none, some,
  List, [], ◌∷◌, bit_and, update, get_elem?,
}
use t89emu.Result.{Result, ok, exited, fault, ◌>>=◌, lift}
use t89emu.Device.Memory.{MemoryDevice}
use t89emu.Elf.{
  ElfHeader, ElfProgramHeader, byte_at, half_at, word_at, read_header, get_program_header,
  section_size,
}

abbrev pub pt_load : ℕ
pt_load = 1

abbrev pub pf_x : ℕ
pf_x = 0x1

abbrev pub pf_w : ℕ
pf_w = 0x2

abbrev pub pf_r : ℕ
pf_r = 0x4

-- The bytes that the format fixes, with their places: the magic number, 32 bits, little endian, version 1.
abbrev ident : List (ℕ × ℕ)
ident = (0, 0x7f) ∷ (1, 0x45) ∷ (2, 0x4c) ∷ (3, 0x46) ∷ (4, 1) ∷ (5, 1) ∷ (6, 1) ∷ []

-- `&&` from left to right: what stands behind a mismatch is not read.
unfoldable matches : List ℕ → List (ℕ × ℕ) → Result Bool
matches file [] = ok true
matches file ((i, v) ∷ rest) = do
  b ← lift (byte_at file i)
  if b == v then matches file rest else ok false

-- An executable for RISC-V, of version 1.
unfoldable pub is_valid : List ℕ → Result Bool
unfolding matches
is_valid file = do
  good ← matches file ident
  if not good then ok false else (do
    e_type ← lift (half_at file 16)
    machine ← lift (half_at file 18)
    version ← lift (word_at file 20)
    ok ((e_type == 2) && (machine == 0xf3) && (version == 1)))

pub record Segments : Type 0 where
  pub ram_header : Option ElfProgramHeader
  pub rom_header : Option ElfProgramHeader

abbrev pub has : ℕ → ℕ → Bool
has flags flag = not (bit_and flags flag == 0)

-- One round of the loop over the program headers. A second segment that can be written exits; of those that
-- can only be executed the first is kept.
unfoldable pub select : ElfProgramHeader → Segments → Result Segments
select p s =
    if not (p.p_type == pt_load)
    then ok s
    else if has p.flags pf_r && has p.flags pf_w
    then elim s.ram_header [ some _ ↦ exited | none ↦ ok (record s { ram_header = some p }) ]
    else if has p.flags pf_r && has p.flags pf_x
    then elim s.rom_header [ some _ ↦ ok s | none ↦ ok (record s { rom_header = some p }) ]
    else ok s

-- The rounds for the program headers `i` to `i + n - 1`.
unfoldable pub select_loop : ℕ → ℕ → List ℕ → ElfHeader → Segments → Result Segments
unfolding select
select_loop zero i file h s = ok s
select_loop (suc n) i file h s = do
  p ← lift (get_program_header file h i)
  s' ← select p s
  select_loop n (i + 1) file h s'

pub record ElfParser : Type 0 where
  pub file : List ℕ
  pub header : ElfHeader
  pub segments : Segments

-- `initStructures` on the bytes of the file, and the constructor, which exits if it fails.
unfoldable pub new_elf_parser : List ℕ → Result ElfParser
unfolding is_valid select_loop
new_elf_parser [] = exited
new_elf_parser (b ∷ bs) = do
  let file = b ∷ bs
  good ← is_valid file
  if not good then exited else (do
    header ← lift (read_header file)
    segments ←
        select_loop header.phnum 0 file header (record { ram_header = none; rom_header = none })
    ok (record { file = file; header = header; segments = segments }))

unfoldable pub get_entry_pc : ElfParser → ℕ
get_entry_pc e = e.header.entry

-- The addresses of the segments; there may be none.
unfoldable pub get_ram_start : ElfParser → Option ℕ
get_ram_start e = elim e.segments.ram_header [ none ↦ none | some p ↦ some p.paddr ]

unfoldable pub get_rom_start : ElfParser → Option ℕ
get_rom_start e = elim e.segments.rom_header [ none ↦ none | some p ↦ some p.paddr ]

-- The inner loop of `flashRom`: one section into the buffer, from `dst` on. A write behind the buffer has no
-- behaviour.
unfoldable pub flash_section : ℕ → ℕ → ℕ → List ℕ → MemoryDevice → Result MemoryDevice
flash_section zero src dst file d = ok d
flash_section (suc n) src dst file d = do
  b ← lift (get_elem? file src)
  if ltb dst d.device_size
      then flash_section n (src + 1) (dst + 1) file (record d { mem = update d.mem dst b })
      else fault

-- The ROM segment, and the RAM segment right behind it.
unfoldable pub flash_rom : ElfParser → MemoryDevice → Result MemoryDevice
unfolding flash_section
flash_rom e d = do
  rom ← lift e.segments.rom_header
  d' ← flash_section (section_size rom) rom.offset 0 e.file d
  ram ← lift e.segments.ram_header
  flash_section (section_size ram) ram.offset (section_size rom) e.file d'
