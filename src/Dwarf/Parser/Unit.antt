-- ===== src/Dwarf/Parser/Unit.antt =====
-- t89emu/src/Dwarf/CompileUnit.cpp, the header and the constructor of a compile unit, and the constructor of
-- its line number information.
pub mod Laws
use t89emu.Common.{
  ℕ, ◌+◌, ◌-◌, ◌*◌, ◌^◌, ◌==◌, not, if◌then◌else◌, List, [], length, drop, add32, u64,
}
use t89emu.Dwarf.DataStream.{decode_uint8, decode_uint16, decode_uint32}
use t89emu.Dwarf.LineNumber.{LineEntry, clear_registers}
use t89emu.Dwarf.LineNumber.Step
use t89emu.Dwarf.LineNumber.Step.{generate_line_number_matrix}
use t89emu.Dwarf.LineNumber.Header.{parse_program_header, generate_file_paths}
use t89emu.Result.{Result, ok, exited, fault, out_of_fuel, ◌>>=◌, lift}
use t89emu.Dwarf.Info.Abbrev.{parse_table, empty_table}
use t89emu.Dwarf.Info.Decode.{StringTables}
use t89emu.Dwarf.Info.Tree.{DebugInfoEntry, generate_root}
use t89emu.Dwarf.Scope.{Scope, generate_scopes}

-- The bytes of the file from the start of each section on, and two sizes.
pub record Sections : Type 0 where
  pub debug_info : List ℕ
  pub debug_info_size : ℕ
  pub debug_abbrev : List ℕ
  pub tables : StringTables
  pub debug_line : List ℕ
  pub debug_frame : List ℕ
  pub debug_frame_size : ℕ

pub record CompileUnitHeader : Type 0 where
  pub unit_length : ℕ
  pub version : ℕ
  pub unit_type : ℕ
  pub address_size : ℕ
  pub debug_abbrev_offset : ℕ

abbrev header_len : ℕ
header_len = 12

-- The header is copied as a structure of 12 bytes; addresses must have 4 bytes.
unfoldable pub new_header : List ℕ → Result CompileUnitHeader
new_header bytes = do
  (unit_length, s1) ←
      lift (decode_uint32 (record { bytes = bytes; index = 0; stream_len = header_len }))
  (version, s2) ← lift (decode_uint16 s1)
  (unit_type, s3) ← lift (decode_uint8 s2)
  (address_size, s4) ← lift (decode_uint8 s3)
  (debug_abbrev_offset, s5) ← lift (decode_uint32 s4)
  if not (address_size == 4)
      then exited
      else ok (record {
        unit_length = unit_length;
        version = version;
        unit_type = unit_type;
        address_size = address_size;
        debug_abbrev_offset = debug_abbrev_offset;
      })

pub record LineTable : Type 0 where
  pub length_of_table : ℕ
  pub matrix : List LineEntry
  pub paths : List (List ℕ)

unfoldable pub matrix_result : Step.Outcome → Result (List LineEntry)
matrix_result (Step.done s) = ok s.line_matrix
matrix_result Step.fault = fault
matrix_result Step.out_of_fuel = out_of_fuel

-- `LineNumberInfo::LineNumberInfo`, with a round of the state machine for each byte.
unfoldable pub new_line_table : StringTables → ℕ → List ℕ → Result LineTable
unfolding matrix_result
new_line_table tables address_size bytes = do
  (unit_length, _) ← lift (decode_uint32 (record { bytes = bytes; index = 0; stream_len = 4 }))
  let stream_len = add32 4 unit_length
  (header, s) ←
      parse_program_header tables address_size
        (record { bytes = bytes; index = 0; stream_len = stream_len })
  paths ← generate_file_paths header
  matrix ← matrix_result (
      generate_line_number_matrix stream_len header.program
        (record { registers = clear_registers header.program; line_matrix = []; stream = s }))
  ok (record { length_of_table = add32 4 header.unit_length; matrix = matrix; paths = paths })

pub record CompileUnit : Type 0 where
  pub debug_info_length : ℕ
  pub debug_line_length : ℕ
  pub root : DebugInfoEntry
  pub root_scope : Scope
  pub line_matrix : List LineEntry
  pub source_paths : List (List ℕ)

-- The constructor, and `generateScopes`; the fuel is enough for the bytes that there are.
unfoldable pub new_compile_unit : Sections → ℕ → ℕ → Result CompileUnit
unfolding new_header new_line_table
new_compile_unit sections offset line_offset = do
  let bytes = drop offset sections.debug_info
  header ← new_header bytes
  let compile_unit_len = add32 4 header.unit_length
  let abbrev_bytes = drop header.debug_abbrev_offset sections.debug_abbrev
  abbrevs ←
      parse_table (length abbrev_bytes + 1) empty_table
        (record { bytes = abbrev_bytes; index = 0; stream_len = 2 ^ 64 - 1 })
  let entries = drop header_len bytes
  line_table ←
      new_line_table sections.tables header.address_size (drop line_offset sections.debug_line)
  root ←
      generate_root (2 * length entries + 1)
        (record {
          tables = sections.tables;
          address_size = header.address_size;
          abbrevs = abbrevs;
          base = offset + header_len;
        })
        (record {
          bytes = entries;
          index = 0;
          stream_len = u64 (compile_unit_len + 2 ^ 64 - header_len);
        })
  root_scope ← generate_scopes root
  ok (record {
    debug_info_length = compile_unit_len;
    debug_line_length = line_table.length_of_table;
    root = root;
    root_scope = root_scope;
    line_matrix = line_table.matrix;
    source_paths = line_table.paths;
  })
