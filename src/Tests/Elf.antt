-- ===== src/Tests/Elf.antt =====
-- Loading an executable, on concrete bytes.
use t89emu.Common.{ℕ, ◌+◌, ◌≤◌, ◌<◌, ◌≡◌, refl, arith, none, some, List, [], ◌∷◌, get_elem?}
use t89emu.Result.{ok, exited, ◌>>=◌}
use t89emu.Mcu.Execute.{Mcu}
use t89emu.Mcu.Invariant.{IsWellFormed}
use t89emu.Dwarf.DataStream.{decode_uint32}
use t89emu.Elf.{ElfHeader, ElfProgramHeader, section_size, get_program_header, word_at}
use t89emu.Elf.Load.{ElfParser, select_loop}
use t89emu.Elf.Load.Laws.{count, find, is_ram, is_rom, Reads, select_loop_lem}
use t89emu.Elf.Symbol.{section_lines, instructions, words_from, section_lines_lem}
use t89emu.Debug.Session.{load_machine}
use t89emu.Debug.Session.Laws.{load_machine_lem}

-- A table of one program header: 3 bytes at 0, to be loaded, read and written.
abbrev table : List ℕ
table =
    1 ∷ 0 ∷ 0 ∷ 0 ∷ 0 ∷ 0 ∷ 0 ∷ 0 ∷ 0 ∷ 0 ∷ 0 ∷ 0 ∷ 0 ∷ 1 ∷ 0 ∷ 0 ∷ 3 ∷ 0 ∷ 0 ∷ 0 ∷ 3 ∷ 0 ∷ 0 ∷ 0
    ∷ 6 ∷ 0 ∷ 0 ∷ 0 ∷ []

abbrev header : ElfHeader
header = record {
  entry = 0;
  phoff = 0;
  shoff = 0;
  phentsize = 32;
  phnum = 1;
  shentsize = 40;
  shnum = 0;
  shstrndx = 0;
}

abbrev ram_segment : ElfProgramHeader
ram_segment = record { p_type = 1; offset = 0; paddr = 256; filesz = 3; memsz = 3; flags = 6 }

abbrev rom_segment : ElfProgramHeader
rom_segment = record { p_type = 1; offset = 4; paddr = 0; filesz = 8; memsz = 4; flags = 5 }

table-Reads : Reads 1 0 table header (ram_segment ∷ [])
unfolding Reads get_program_header word_at decode_uint32
table-Reads = (refl, tt)

select_loop_lem_example :
    (count is_ram (ram_segment ∷ []) ≤ 1
      → select_loop header.phnum 0 table header (record { ram_header = none; rom_header = none })
        ≡ ok (record {
          ram_header = find is_ram (ram_segment ∷ []);
          rom_header = find is_rom (ram_segment ∷ []);
        }))
    × (2 ≤ count is_ram (ram_segment ∷ [])
        → select_loop header.phnum 0 table header (record { ram_header = none; rom_header = none })
          ≡ exited)
select_loop_lem_example = select_loop_lem table header (ram_segment ∷ []) table-Reads

abbrev parser : ElfParser
parser = record {
  file = table;
  header = header;
  segments = record { ram_header = some ram_segment; rom_header = some rom_segment };
}

load_machine_lem_example :
    (c : Mcu) × (load_machine parser ≡ ok c)
    × IsWellFormed c
    × (c.pc.pc ≡ 0)
    × (c.next_pc.next_pc ≡ 0)
    × (c.devices.rom_device.base_address ≡ 0)
    × ((i : ℕ)
        → i < section_size rom_segment
        → get_elem? table (4 + i) ≡ some (c.devices.rom_device.mem i))
    × ((i : ℕ)
        → i < section_size ram_segment
        → get_elem? table (0 + i) ≡ some (c.devices.rom_device.mem (section_size rom_segment + i)))
load_machine_lem_example =
    load_machine_lem parser rom_segment ram_segment refl refl (unfold section_size in omega arith)
      (unfold section_size in omega arith) (unfold section_size in omega arith) (omega arith)
      (ground arith)

section_lines_lem_example :
    (section_lines 1 0 ((256, 97 ∷ []) ∷ []) table ram_segment >>= λ lines. ok (instructions lines))
    ≡ words_from 1 0 table ram_segment
section_lines_lem_example = section_lines_lem 1 0 ((256, 97 ∷ []) ∷ []) table ram_segment
