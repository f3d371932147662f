-- ===== src/Dwarf/Parser/Unit/Laws.antt =====
-- The parsing of a compile unit ends.
use t89emu.Common.{ℕ, ◌+◌, ◌≤◌, ◌≢◌, arith, ◌==◌, not, List, add32, inl, inr}
use t89emu.Dwarf.DataStream.{DataStream, decode_uint8, decode_uint16, decode_uint32}
use t89emu.Dwarf.LineNumber.{ProgramHeader, LineNumberInfo}
use t89emu.Dwarf.LineNumber.Step.{generate_line_number_matrix}
use t89emu.Dwarf.LineNumber.Progress.{generate_line_number_matrix_lem}
use t89emu.Dwarf.LineNumber.Header.{parse_program_header, generate_file_paths}
use t89emu.Dwarf.LineNumber.Header.Laws.{
  parse_program_header-From, generate_file_paths-Ends, found, Any, From,
}
use t89emu.Result.{out_of_fuel, Ends, Ends-bind, Ends-if, Ends-ne}
use t89emu.Dwarf.Info.Abbrev.{parse_table, empty_table}
use t89emu.Dwarf.Info.Abbrev.Laws.{parse_table-Ends}
use t89emu.Dwarf.Info.Decode.{StringTables}
use t89emu.Dwarf.Info.Tree.{generate_root}
use t89emu.Dwarf.Info.Tree.Laws.{generate_root-Ends}
use t89emu.Dwarf.Scope.{generate_scopes}
use t89emu.Dwarf.Scope.Generate.{generate_scopes-Ends}
use t89emu.Dwarf.Parser.Unit.{Sections, new_header, matrix_result, new_line_table, new_compile_unit}

new_header-Ends : (bytes : List ℕ) → Ends Any (new_header bytes)
unfolding new_header
new_header-Ends bytes = found (decode_uint32 _) _ λ r1. found (decode_uint16 r1.1) _ λ r2.
    found (decode_uint8 r2.1) _ λ r3. found (decode_uint8 r3.1) _ λ r4.
      found (decode_uint32 r4.1) _ (λ r5. Ends-if Any (not (r4.0 == 4)) _ _ (λ _. tt) (λ _. tt))

matrix_result-Ends :
    (fuel : ℕ) (h : ProgramHeader) (s : LineNumberInfo)
    → s.stream.stream_len ≤ s.stream.index + fuel
    → Ends Any (matrix_result (generate_line_number_matrix fuel h s))
unfolding matrix_result
matrix_result-Ends fuel h s enough = elim (generate_line_number_matrix_lem fuel h s enough) [
  | inl bad ↦ rw bad tt
  | inr (s', e, at_end, grown) ↦ rw e tt
]

new_line_table-Ends :
    (tables : StringTables) (address_size : ℕ) (bytes : List ℕ)
    → Ends Any (new_line_table tables address_size bytes)
unfolding new_line_table
new_line_table-Ends tables address_size bytes =
    found (decode_uint32 (record { bytes = bytes; index = 0; stream_len = 4 })) _ λ r.
      let s : DataStream = record { bytes = bytes; index = 0; stream_len = add32 4 r.0 } in
      Ends-bind (From s) Any (parse_program_header tables address_size s) _
        (parse_program_header-From tables address_size s (omega arith))
        λ q w. Ends-bind Any Any (generate_file_paths q.0) _ (generate_file_paths-Ends q.0) λ _ _.
          Ends-bind Any Any
            (matrix_result (generate_line_number_matrix (add32 4 r.0) q.0.program _)) _
            (matrix_result-Ends (add32 4 r.0) q.0.program _ (omega (arith, w.len_same))) (λ _ _. tt)

-- Whatever the bytes of the sections, the fuel that the constructor gives its loops is enough: a compile unit is
-- built, or the run exits or stops at an access that has no behaviour.
pub new_compile_unit_ends :
    (sections : Sections) (offset line_offset : ℕ)
    → new_compile_unit sections offset line_offset ≢ out_of_fuel
unfolding new_compile_unit
new_compile_unit_ends sections offset line_offset =
    Ends-ne Any (new_compile_unit sections offset line_offset) (
      Ends-bind Any Any (new_header _) _ (new_header-Ends _) λ header _.
        Ends-bind Any Any (parse_table _ empty_table _) _
          (parse_table-Ends _ empty_table _ (record { inside = omega arith; left = omega arith }))
          λ abbrevs _.
            Ends-bind Any Any (new_line_table sections.tables header.address_size _) _
              (new_line_table-Ends sections.tables header.address_size _)
              λ line_table _.
                Ends-bind Any Any (generate_root _ _ _) _
                  (generate_root-Ends _ _ _ (omega arith) (omega arith))
                  λ root _.
                    Ends-bind Any Any (generate_scopes root) _ (generate_scopes-Ends root)
                      (λ _ _. tt))
