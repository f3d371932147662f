-- ===== src/Debug/Session.antt =====
-- t89emu/src/McuDebug.cpp: the constructor, and what the debugger asks of the parsers.
pub mod Laws
use t89emu.Common.{ℕ, Option, none, some, List, [], ◌∷◌, drop}
use t89emu.Result.{Result, ok, fault, ◌>>=◌, lift}
use t89emu.Mcu.{init}
use t89emu.Mcu.Execute.{Mcu}
use t89emu.Debug.{McuDebug}
use t89emu.Dwarf.Expr.{Frame}
use t89emu.Dwarf.Info.Decode.{StringTables}
use t89emu.Dwarf.Parser.{
  DwarfParser, new_dwarf_parser, line_number_at_pc, local_variables, global_variables,
}
use t89emu.Dwarf.Parser.Unit.{Sections}
use t89emu.Dwarf.Variable.{Variable}
use t89emu.Elf.{ElfHeader}
use t89emu.Elf.Load.{
  ElfParser, new_elf_parser, get_entry_pc, get_ram_start, get_rom_start, flash_rom,
}
use t89emu.Elf.Section.{get_section_header, section_offset, section_length, debug_info_name}

pub record Session : Type 0 where
  pub debug : McuDebug
  pub elf_parser : ElfParser
  pub dwarf_parser : DwarfParser

-- ".debug_abbrev", ".debug_str", ".debug_line_str", ".debug_line" and ".debug_frame".
abbrev debug_abbrev_name : List ℕ
debug_abbrev_name = 46 ∷ 100 ∷ 101 ∷ 98 ∷ 117 ∷ 103 ∷ 95 ∷ 97 ∷ 98 ∷ 98 ∷ 114 ∷ 101 ∷ 118 ∷ []

abbrev debug_str_name : List ℕ
debug_str_name = 46 ∷ 100 ∷ 101 ∷ 98 ∷ 117 ∷ 103 ∷ 95 ∷ 115 ∷ 116 ∷ 114 ∷ []

abbrev debug_line_str_name : List ℕ
debug_line_str_name =
    46 ∷ 100 ∷ 101 ∷ 98 ∷ 117 ∷ 103 ∷ 95 ∷ 108 ∷ 105 ∷ 110 ∷ 101 ∷ 95 ∷ 115 ∷ 116 ∷ 114 ∷ []

abbrev debug_line_name : List ℕ
debug_line_name = 46 ∷ 100 ∷ 101 ∷ 98 ∷ 117 ∷ 103 ∷ 95 ∷ 108 ∷ 105 ∷ 110 ∷ 101 ∷ []

abbrev debug_frame_name : List ℕ
debug_frame_name = 46 ∷ 100 ∷ 101 ∷ 98 ∷ 117 ∷ 103 ∷ 95 ∷ 102 ∷ 114 ∷ 97 ∷ 109 ∷ 101 ∷ []

-- The number of the section of a name; a null pointer, which is then read, has no behaviour.
unfoldable section_number : ElfParser → List ℕ → Result ℕ
section_number e name = do found ← lift (get_section_header e.file e.header name); lift found

-- The bytes of the file from the start of a section on.
unfoldable section_bytes : ElfParser → ℕ → Result (List ℕ)
section_bytes e idx = do offset ← lift (section_offset e.file e.header idx); ok (drop offset e.file)

unfoldable find_sections : ElfParser → Result Sections
unfolding section_number section_bytes
find_sections e = do
  info ← section_number e debug_info_name
  abbrevs ← section_number e debug_abbrev_name
  strings ← section_number e debug_str_name
  line_strings ← section_number e debug_line_str_name
  lines ← section_number e debug_line_name
  frame ← section_number e debug_frame_name
  debug_info ← section_bytes e info
  debug_abbrev ← section_bytes e abbrevs
  debug_str ← section_bytes e strings
  debug_line_str ← section_bytes e line_strings
  debug_line ← section_bytes e lines
  debug_frame ← section_bytes e frame
  debug_info_size ← lift (section_length e.file e.header info)
  debug_frame_size ← lift (section_length e.file e.header frame)
  ok (record {
    debug_info = debug_info;
    debug_info_size = debug_info_size;
    debug_abbrev = debug_abbrev;
    tables = record { debug_str = debug_str; debug_line_str = debug_line_str };
    debug_line = debug_line;
    debug_frame = debug_frame;
    debug_frame_size = debug_frame_size;
  })

-- The machine at the segments' addresses, with the program in its ROM.
unfoldable pub load_machine : ElfParser → Result Mcu
load_machine e = do
  rom ← lift (get_rom_start e)
  ram ← lift (get_ram_start e)
  let c = init rom ram (get_entry_pc e)
  d ← flash_rom e c.devices.rom_device
  ok (record c { devices = record (c.devices) { rom_device = d } })

-- The constructor; `fuel` bounds the number of compile units.
unfoldable new_session : ℕ → List ℕ → Result Session
unfolding find_sections load_machine
new_session fuel file = do
  e ← new_elf_parser file
  sections ← find_sections e
  p ← new_dwarf_parser fuel sections
  c ← load_machine e
  line ← line_number_at_pc p c.pc.pc
  ok (record {
    debug = record { mcu = c; latest_source_line = line; breakpoints = [] };
    elf_parser = e;
    dwarf_parser = p;
  })

unfoldable pub get_local_variables : Session → Result (List Variable)
get_local_variables s = local_variables s.dwarf_parser s.debug.mcu.pc.pc s.debug.latest_source_line

unfoldable pub get_global_variables : Session → Result (List Variable)
get_global_variables s =
    global_variables s.dwarf_parser s.debug.mcu.pc.pc s.debug.latest_source_line

-- What `getVarInfo` hands to a variable.
unfoldable frame_of : Session → Frame
frame_of s = record {
  cfi = s.dwarf_parser.debug_frame;
  pc = s.debug.mcu.pc.pc;
  regs = s.debug.mcu.rf;
}
