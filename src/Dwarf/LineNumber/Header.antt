-- ===== src/Dwarf/LineNumber/Header.antt =====
-- t89emu/src/Dwarf/LineNumberInfo.cpp: the header of the line number program with its tables of directories
-- and files, and the paths of the source files.
pub mod Laws
use t89emu.Common.{
  ℕ, zero, suc, ◌-◌, ◌==◌, if◌then◌else◌, Bool, false, Option, none, some, List, [], ◌∷◌, ◌++◌,
  get_elem?, u32,
}
use t89emu.Dwarf.DataStream.{DataStream, decode_uint8, decode_uint16, decode_uint32, decode_uleb128}
use t89emu.Dwarf.CallFrame.{insert}
use t89emu.Result.{Result, ok, ◌>>=◌, lift}
use t89emu.Dwarf.Info.{DebugData, get_uint, get_string}
use t89emu.Dwarf.Info.Decode.{StringTables, decode_info}
use t89emu.Dwarf.LineNumber.{ProgramHeader}

-- A directory or a file: its data by content.
abbrev pub FileEntry : Type 0
FileEntry = ℕ → Option DebugData

-- The program header with what stands around the fields of the state machine.
pub record InfoHeader : Type 0 where
  pub unit_length : ℕ
  pub version : ℕ
  pub address_size : ℕ
  pub segment_selector_size : ℕ
  pub header_length : ℕ
  pub program : ProgramHeader
  pub standard_opcode_lengths : List ℕ
  pub directories : List FileEntry
  pub file_names : List FileEntry

-- DW_LNCT_path and DW_LNCT_directory_index.
abbrev lnct_path : ℕ
lnct_path = 0x01

abbrev lnct_directory_index : ℕ
lnct_directory_index = 0x02

-- `generateFileFormatInfo`: the number of pairs is a byte; a content keeps 32 digits, and so does a form.
unfoldable pub format_loop : ℕ → List (ℕ × ℕ) → DataStream → Result (List (ℕ × ℕ) × DataStream)
format_loop zero formats s = ok (formats, s)
format_loop (suc n) formats s = do
  (content, s1) ← lift (decode_uleb128 s)
  (form, s2) ← lift (decode_uleb128 s1)
  format_loop n (formats ++ ((u32 content, u32 form) ∷ [])) s2

unfoldable pub generate_file_format_info : DataStream → Result (List (ℕ × ℕ) × DataStream)
unfolding format_loop
generate_file_format_info s = do (n, s') ← lift (decode_uint8 s); format_loop n [] s'

-- One directory or file; a content that comes again replaces the one before.
unfoldable pub file_entry :
    StringTables → ℕ → List (ℕ × ℕ) → FileEntry → DataStream → Result (FileEntry × DataStream)
unfolding insert
file_entry tables address_size [] entry s = ok (entry, s)
file_entry tables address_size ((content, form) ∷ formats) entry s = do
  (data', s') ← decode_info tables address_size (record { name = 0; form = form; special = 0 }) s
  file_entry tables address_size formats (insert entry content (some data')) s'

unfoldable pub files_loop :
    ℕ
    → StringTables
    → ℕ
    → List (ℕ × ℕ)
    → List FileEntry
    → DataStream
    → Result (List FileEntry × DataStream)
unfolding file_entry
files_loop zero tables address_size formats entries s = ok (entries, s)
files_loop (suc n) tables address_size formats entries s = do
  (entry, s') ← file_entry tables address_size formats (λ _. none) s
  files_loop n tables address_size formats (entries ++ (entry ∷ [])) s'

-- `generateFileInformation`: the number of entries is kept in a `uint`.
unfoldable pub generate_file_information :
    StringTables → ℕ → List (ℕ × ℕ) → DataStream → Result (List FileEntry × DataStream)
unfolding files_loop
generate_file_information tables address_size formats s = do
  (n, s') ← lift (decode_uleb128 s)
  files_loop (u32 n) tables address_size formats [] s'

-- The lengths of the standard opcodes: `opcodeBase - 1` of them, none for a base of 0.
unfoldable pub lengths_loop : ℕ → List ℕ → DataStream → Result (List ℕ × DataStream)
lengths_loop zero lengths s = ok (lengths, s)
lengths_loop (suc n) lengths s = do
  (b, s') ← lift (decode_uint8 s)
  lengths_loop n (lengths ++ (b ∷ [])) s'

unfoldable pub parse_program_header :
    StringTables → ℕ → DataStream → Result (InfoHeader × DataStream)
unfolding generate_file_format_info generate_file_information lengths_loop
parse_program_header tables unit_address_size s0 = do
  (unit_length, s1) ← lift (decode_uint32 s0)
  (version, s2) ← lift (decode_uint16 s1)
  (address_size, s3) ← lift (decode_uint8 s2)
  (segment_selector_size, s4) ← lift (decode_uint8 s3)
  (header_length, s5) ← lift (decode_uint32 s4)
  (minimum_instruction_length, s6) ← lift (decode_uint8 s5)
  (maximum_operations_per_instruction, s7) ← lift (decode_uint8 s6)
  (default_is_stmt, s8) ← lift (decode_uint8 s7)
  (line_base, s9) ← lift (decode_uint8 s8)
  (line_range, s10) ← lift (decode_uint8 s9)
  (opcode_base, s11) ← lift (decode_uint8 s10)
  (standard_opcode_lengths, s12) ← lengths_loop (opcode_base - 1) [] s11
  (directory_format, s13) ← generate_file_format_info s12
  (directories, s14) ← generate_file_information tables unit_address_size directory_format s13
  (file_format, s15) ← generate_file_format_info s14
  (file_names, s16) ← generate_file_information tables unit_address_size file_format s15
  ok (
    record {
      unit_length = unit_length;
      version = version;
      address_size = address_size;
      segment_selector_size = segment_selector_size;
      header_length = header_length;
      program = record {
        minimum_instruction_length = minimum_instruction_length;
        maximum_operations_per_instruction = maximum_operations_per_instruction;
        default_is_stmt = default_is_stmt;
        line_base = line_base;
        line_range = line_range;
        opcode_base = opcode_base;
      };
      standard_opcode_lengths = standard_opcode_lengths;
      directories = directories;
      file_names = file_names;
    },
    s16,
  )

-- `entry[content]`: a null pointer, which is then read, where there is none.
unfoldable pub content_of : FileEntry → ℕ → Result DebugData
content_of entry content = lift (entry content)

-- "/"
abbrev slash : ℕ
slash = 47

unfoldable starts_with_slash : List ℕ → Bool
starts_with_slash [] = false
starts_with_slash (c ∷ cs) = c == slash

-- The full paths of the directories: a relative one lies in the directory of the compilation.
unfoldable pub directory_paths : List ℕ → List FileEntry → Result (List (List ℕ))
unfolding content_of get_string starts_with_slash
directory_paths compile_directory [] = ok []
directory_paths compile_directory (d ∷ ds) = do
  path ← content_of d lnct_path
  rest ← directory_paths compile_directory ds
  let text = get_string path
  ok ((if starts_with_slash text then text else compile_directory ++ (slash ∷ text)) ∷ rest)

unfoldable pub file_paths : List (List ℕ) → List FileEntry → Result (List (List ℕ))
unfolding content_of get_string
file_paths directories [] = ok []
file_paths directories (f ∷ fs) = do
  index ← content_of f lnct_directory_index
  directory_index ← get_uint index
  directory ← lift (get_elem? directories (u32 directory_index))
  path ← content_of f lnct_path
  rest ← file_paths directories fs
  ok ((directory ++ (slash ∷ get_string path)) ∷ rest)

-- `generateFilePaths`, without the reading of the files.
unfoldable pub generate_file_paths : InfoHeader → Result (List (List ℕ))
unfolding content_of directory_paths file_paths get_string
generate_file_paths h = do
  first ← lift (get_elem? h.directories 0)
  compile_directory ← content_of first lnct_path
  directories ← directory_paths (get_string compile_directory) h.directories
  file_paths directories h.file_names
