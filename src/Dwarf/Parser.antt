-- ===== src/Dwarf/Parser.antt =====
-- t89emu/src/Dwarf/DwarfParser.cpp, and the compile units of t89emu/src/Dwarf/CompileUnit.cpp.
pub mod Unit
pub mod Laws
pub mod Sources
use t89emu.Common.{
  ℕ, zero, suc, ◌+◌, ◌-◌, ◌*◌, ◌==◌, ltb, leb, ◌&&◌, Bool, true, false, if◌then◌else◌, Option, none,
  some, List, [], ◌∷◌, ◌++◌, length, drop, u32,
}
use t89emu.Dwarf.DataStream.{DataStream}
use t89emu.Dwarf.LineNumber.{get_line_number_at_pc}
use t89emu.Dwarf.CallFrame.{CallFrameInfo}
use t89emu.Dwarf.CallFrame.Parse
use t89emu.Dwarf.CallFrame.Parse.{generate_frame_info}
use t89emu.Result.{Result, ok, fault, out_of_fuel, ◌>>=◌, lift}
use t89emu.Dwarf.DataType.{TypeEntries, generate_types}
use t89emu.Dwarf.Scope.{Scope, is_pc_in_range, get_local_variables, get_global_variables}
use t89emu.Dwarf.Variable.{Variable}
use t89emu.Dwarf.Parser.Unit.{Sections, CompileUnit, new_compile_unit}

pub record DwarfParser : Type 0 where
  pub compile_units : List CompileUnit
  pub debug_frame : CallFrameInfo
  pub type_entries : TypeEntries

-- The loop over .debug_info; `offset` and `line_offset` are the places of the next unit in .debug_info and
-- .debug_line.
unfoldable generate_units : ℕ → Sections → ℕ → ℕ → ℕ → Result (List CompileUnit)
generate_units zero sections size offset line_offset =
    if leb size offset then ok [] else out_of_fuel
generate_units (suc fuel) sections size offset line_offset = elim (leb size offset) [
  | true ↦ ok []
  | false ↦ do
    unit ← new_compile_unit sections offset line_offset
    rest ←
        generate_units fuel sections size (offset + unit.debug_info_length)
          (line_offset + unit.debug_line_length)
    ok (unit ∷ rest)
]

-- `generateTypes` over all units.
unfoldable pub generate_all_types : List CompileUnit → TypeEntries → Result TypeEntries
generate_all_types [] types = ok types
generate_all_types (unit ∷ units) types = do
  types' ← generate_types unit.root types
  generate_all_types units types'

unfoldable frame_result : Parse.Parsed → Result CallFrameInfo
frame_result (Parse.done c) = ok c
frame_result Parse.fault = fault
frame_result Parse.out_of_fuel = out_of_fuel

-- The constructor; `fuel` bounds the loop over the units, and there is a round of the loop over .debug_frame
-- for each byte.
unfoldable pub new_dwarf_parser : ℕ → Sections → Result DwarfParser
unfolding generate_units generate_all_types frame_result
new_dwarf_parser fuel sections = do
  units ← generate_units fuel sections sections.debug_info_size 0 0
  debug_frame ← frame_result (
      generate_frame_info sections.debug_frame_size (record {
        cies = λ _. none;
        fdes = [];
        cfi_stream = record {
          bytes = sections.debug_frame;
          index = 0;
          stream_len = sections.debug_frame_size;
        };
      }))
  types ← generate_all_types units (λ _. none)
  ok (record { compile_units = units; debug_frame = debug_frame; type_entries = types })

-- The units from the last to the first. In front of the first the index wraps around, and what is read there
-- has no behaviour: `none`.
unfoldable pub get_compile_unit_at_pc : List CompileUnit → ℕ → Option CompileUnit
get_compile_unit_at_pc [] pc = none
get_compile_unit_at_pc (unit ∷ units) pc = elim (get_compile_unit_at_pc units pc) [
  | some later ↦ some later
  | none ↦ if is_pc_in_range unit.root_scope pc then some unit else none
]

unfoldable pub line_number_at_pc : DwarfParser → ℕ → Result ℕ
unfolding get_compile_unit_at_pc
line_number_at_pc p pc = do
  unit ← lift (get_compile_unit_at_pc p.compile_units pc)
  ok (get_line_number_at_pc unit.line_matrix pc)

unfoldable pub local_variables : DwarfParser → ℕ → ℕ → Result (List Variable)
unfolding get_compile_unit_at_pc
local_variables p pc line = do
  unit ← lift (get_compile_unit_at_pc p.compile_units pc)
  get_local_variables unit.root_scope pc line

unfoldable pub global_variables : DwarfParser → ℕ → ℕ → Result (List Variable)
unfolding get_compile_unit_at_pc
global_variables p pc line = do
  unit ← lift (get_compile_unit_at_pc p.compile_units pc)
  get_global_variables unit.root_scope pc line

unfoldable pub string_eq : List ℕ → List ℕ → Bool
string_eq [] [] = true
string_eq [] (d ∷ ds) = false
string_eq (c ∷ cs) [] = false
string_eq (c ∷ cs) (d ∷ ds) = (c == d) && string_eq cs ds

-- `containsPath`; a source is its path.
unfoldable pub contains_path : List (List ℕ) → List ℕ → Bool
unfolding string_eq
contains_path [] path = false
contains_path (p ∷ ps) path =
    let rest = contains_path ps path in if string_eq path p then true else rest

unfoldable pub add_sources : List (List ℕ) → List (List ℕ) → List (List ℕ)
unfolding contains_path
add_sources sources [] = sources
add_sources sources (p ∷ ps) =
    add_sources (if contains_path sources p then sources else sources ++ (p ∷ [])) ps

-- `getSourceInfo`, on the first call; later calls return the same vector.
unfoldable pub get_source_info : List (List ℕ) → List CompileUnit → List (List ℕ)
unfolding add_sources
get_source_info sources [] = sources
get_source_info sources (unit ∷ units) =
    get_source_info (add_sources sources unit.source_paths) units
