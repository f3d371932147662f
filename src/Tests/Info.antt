-- ===== src/Tests/Info.antt =====
-- Entries, types, variables and scopes on concrete data.
use t89emu.Common.{
  inl, inr, ℕ, ◌+◌, ◌≡◌, ◌≢◌, ◌⊎◌, ◌||◌, ◌==◌, refl, arith, if◌then◌else◌, true, Option, none, some,
  List, [], ◌∷◌, ◌++◌, All, add32,
}
use t89emu.State.RegisterFile
use t89emu.Dwarf.CallFrame.{find_loop, holds, insert}
use t89emu.Dwarf.CallFrame.Table.{
  cfa, get_cfa_at_location, generate_virt_table, cfa_of_outcome, then_process, process_block,
  process_instructions, instruction, secondary, primary, cfa_of_row, front, new_row, push_back,
}
use t89emu.Dwarf.DataStream.{
  DataStream, decode_uint8, decode_uleb128, leb_loop, int_shift, is_streamable,
}
use t89emu.Dwarf.Encoding.Attribute
use t89emu.Dwarf.Encoding.Form
use t89emu.Dwarf.Encoding.Tag
use t89emu.Result.{ok, exited, out_of_fuel}
use t89emu.Dwarf.Info.{DebugData, get_uint, contains, integer_forms, insert_new}
use t89emu.Dwarf.Info.Value.{le_value, get_uint_lem}
use t89emu.Dwarf.Info.Tree.{
  Entry, die, no_children, child, UnitContext, DebugInfoEntry, node, generate_debug_info,
  Attributes,
}
use t89emu.Dwarf.Info.Tree.EntryFormat.{EntryBytes, attributes_of}
use t89emu.Dwarf.Info.Tree.RoundTrip.{
  IsDeclared, entry_count, TokenBytes, tokens, generate_debug_info_lem,
}
use t89emu.Dwarf.Parser.Unit.Laws.{new_compile_unit_ends}
use t89emu.Dwarf.Expr.{Frame, new_machine}
use t89emu.Dwarf.Variable.{VarInfo, Variable, get_var_info}
use t89emu.Dwarf.Variable.Laws.{
  frame_offset, get_var_info_fbreg, get_var_info_stale, get_var_info_never_valid,
}
use t89emu.Dwarf.Scope.{
  Block, scope, Scopes, no_scopes, add_scope, get_local_variables, get_global_variables,
}
use t89emu.Dwarf.Scope.Laws.{
  declared_up_to, inward, innermost, outer, variables_of, get_variables_lem,
}
use t89emu.Dwarf.DataType.{TypeEntries, generate_types, is_type}
use t89emu.Dwarf.DataType.Laws.{KeepsTypes}
use t89emu.Dwarf.Parser.{generate_all_types, get_compile_unit_at_pc, get_source_info, contains_path}
use t89emu.Dwarf.Parser.Laws.{AllTypes, Holds, generate_all_types_lem, get_compile_unit_at_pc_lem}
use t89emu.Dwarf.Parser.Sources.{IsDistinct, any_source, get_source_info_lem}
use t89emu.Dwarf.Parser.Unit.{CompileUnit, Sections, new_compile_unit}
use t89emu.Tests.CallFrame.{info}

abbrev number : List ℕ → DebugData
number bytes = record { bytes = bytes; form = Form.data2 }

get_uint_lem_example :
    get_uint (number (0x34 ∷ 0x12 ∷ []))
    ≡ (if contains integer_forms Form.data2 then ok (le_value (0x34 ∷ 0x12 ∷ [])) else exited)
get_uint_lem_example =
    get_uint_lem (number (0x34 ∷ 0x12 ∷ [])) (omega arith) (omega arith, (omega arith, tt))

-- One declaration: code 1, a base type with children, and no attributes.
abbrev declarations : List ℕ
declarations = 1 ∷ 0x24 ∷ 1 ∷ 0 ∷ 0 ∷ 0 ∷ []

abbrev entry_of : ℕ → ℕ → Attributes → Entry
entry_of offset tag attributes = record {
  code = 1;
  offset = offset;
  abbrev_entry = record { die_code = 1; die_tag = tag; has_child = true; att_entries = [] };
  attributes = attributes;
}

abbrev unit_context : UnitContext
unit_context = record {
  tables = record { debug_str = []; debug_line_str = [] };
  address_size = 4;
  abbrevs = λ _.
      some (record { die_code = 1; die_tag = Tag.base_type; has_child = true; att_entries = [] });
  base = 12;
}

-- The line of declaration as one byte and a name, "a"; then a child with another name.
abbrev tree_context : UnitContext
tree_context = record unit_context {
  abbrevs = λ _. some (record {
    die_code = 1;
    die_tag = Tag.variable;
    has_child = true;
    att_entries =
        record { name = Attribute.decl_line; form = Form.data1; special = 0 }
        ∷ record { name = Attribute.name; form = Form.string; special = 0 }
        ∷ [];
  });
}

abbrev tree_bytes : List ℕ
tree_bytes = 1 ∷ 3 ∷ 97 ∷ 0 ∷ 1 ∷ 4 ∷ 98 ∷ 0 ∷ 0 ∷ 0 ∷ []

abbrev written_entry : ℕ → ℕ → ℕ → Entry
written_entry offset line letter = record {
  code = 1;
  offset = offset;
  abbrev_entry = record {
    die_code = 1;
    die_tag = Tag.variable;
    has_child = true;
    att_entries =
        record { name = Attribute.decl_line; form = Form.data1; special = 0 }
        ∷ record { name = Attribute.name; form = Form.string; special = 0 }
        ∷ [];
  };
  attributes =
      attributes_of
        (record { name = Attribute.decl_line; form = Form.data1; special = 0 }
          ∷ record { name = Attribute.name; form = Form.string; special = 0 }
          ∷ [])
        ((line ∷ []) ∷ (letter ∷ []) ∷ []);
}

written_entry-EntryBytes :
    (place line letter : ℕ)
    → letter ≢ 0
    → EntryBytes tree_context place
        (written_entry (12 + place) line letter)
        (1 ∷ line ∷ letter ∷ 0 ∷ [])
written_entry-EntryBytes place line letter h = record {
  declared = refl;
  nonzero_code = λ e. omega arith;
  short_code = omega arith;
  at_offset = refl;
  values = (line ∷ []) ∷ (letter ∷ []) ∷ [];
  others = line ∷ letter ∷ 0 ∷ [];
  spelt = (
    line ∷ [],
    letter ∷ 0 ∷ [],
    refl,
    inl (3, refl, refl),
    (letter ∷ 0 ∷ [], [], refl, inr (inl (refl, (h, tt), refl)), refl),
  );
  attributes_same = refl;
  written_same = refl;
}

abbrev small_tree : DebugInfoEntry
small_tree =
    die (written_entry 12 3 97) (child (die (written_entry 16 4 98) no_children) no_children)

abbrev tree_start : DataStream
tree_start = record { bytes = tree_bytes; index = 0; stream_len = 10 }

small_tree-TokenBytes : TokenBytes tree_context 10 0 (tokens small_tree []) tree_bytes
unfolding TokenBytes tokens
small_tree-TokenBytes = (
  1 ∷ 3 ∷ 97 ∷ 0 ∷ [],
  1 ∷ 4 ∷ 98 ∷ 0 ∷ 0 ∷ 0 ∷ [],
  refl,
  written_entry-EntryBytes 0 3 97 (λ e. omega arith),
  omega arith,
  (
    1 ∷ 4 ∷ 98 ∷ 0 ∷ [],
    0 ∷ 0 ∷ [],
    refl,
    written_entry-EntryBytes 4 4 98 (λ e. omega arith),
    omega arith,
    (0 ∷ [], refl, ([], refl, refl)),
  ),
)

generate_debug_info_lem_example :
    generate_debug_info 5 tree_context tree_start
    ≡ ok (node small_tree, record tree_start { index = 10 })
generate_debug_info_lem_example =
    generate_debug_info_lem 5 tree_context tree_start small_tree tree_bytes []
      (unfold IsDeclared in (λ h. cc, ((λ h. refl, tt), tt))) (unfold entry_count in omega arith)
      small_tree-TokenBytes refl

-- A unit with the declarations above, two entries, and a line table with the directory "a".
abbrev one_unit : Sections
one_unit = record {
  debug_info = 12 ∷ 0 ∷ 0 ∷ 0 ∷ 5 ∷ 0 ∷ 1 ∷ 4 ∷ 0 ∷ 0 ∷ 0 ∷ 0 ∷ 1 ∷ 1 ∷ 0 ∷ 0 ∷ [];
  debug_info_size = 16;
  debug_abbrev = declarations;
  tables = record { debug_str = []; debug_line_str = [] };
  debug_line =
      22 ∷ 0 ∷ 0 ∷ 0 ∷ 5 ∷ 0 ∷ 4 ∷ 0 ∷ 16 ∷ 0 ∷ 0 ∷ 0 ∷ 1 ∷ 1 ∷ 1 ∷ 0 ∷ 1 ∷ 1 ∷ 1 ∷ 1 ∷ 8 ∷ 1 ∷ 97
      ∷ 0 ∷ 0 ∷ 0 ∷ [];
  debug_frame = [];
  debug_frame_size = 0;
}

new_compile_unit_ends_example : new_compile_unit one_unit 0 0 ≢ out_of_fuel
new_compile_unit_ends_example = new_compile_unit_ends one_unit 0 0

abbrev location_of : ℕ → Option DebugData
location_of k =
    if k == Attribute.frame_base
    then some (record { bytes = 0x9c ∷ []; form = Form.exprloc })
    else none

-- A variable declared in line 3, 20 bytes below the frame address.
abbrev variable : Variable
variable = record {
  loc_expr = some (record { bytes = 0x91 ∷ 0x6c ∷ []; form = Form.exprloc });
  machine = new_machine;
  debug_entry =
      entry_of 40 Tag.variable
        (λ k. if k == Attribute.decl_line then some (number (3 ∷ [])) else none);
  parent_entry = entry_of 30 Tag.subprogram location_of;
  var_info = record { is_valid = none; name = []; location = none; value = [] };
}

abbrev frame : Frame
frame = record { cfi = info; pc = 0x100; regs = RegisterFile.init }

get_var_info_never_valid_example :
    (get_var_info true frame variable ≢ out_of_fuel)
    × ((found : VarInfo) (w : Variable)
        → get_var_info true frame variable ≡ ok (found, w)
        → (found.is_valid ≢ some true) × (w.var_info.is_valid ≢ some true))
get_var_info_never_valid_example = get_var_info_never_valid true frame variable (λ h. cc)

frame_address : get_cfa_at_location info 0x100 RegisterFile.init ≡ cfa 16
unfolding get_cfa_at_location generate_virt_table find_loop holds cfa_of_outcome then_process
    process_block process_instructions is_streamable instruction decode_uint8 secondary
    decode_uleb128 leb_loop int_shift primary RegisterFile.read RegisterFile.init cfa_of_row front
    new_row push_back insert
frame_address = refl

abbrev updated : VarInfo
updated = record (variable.var_info) {
  location = some (add32 (frame_offset 0x6c []) 16);
  value = 63 ∷ 63 ∷ 63 ∷ [];
}

abbrev variable_updated : Variable
variable_updated = record variable {
  var_info = updated;
  machine = record { stack = add32 (frame_offset 0x6c []) 16 ∷ []; index = 2 };
}

get_var_info_fbreg_example : get_var_info true frame variable ≡ ok (updated, variable_updated)
get_var_info_fbreg_example =
    get_var_info_fbreg frame variable 16 0x6c [] Form.exprloc Form.exprloc refl refl (omega arith)
      (omega arith) frame_address (omega arith) refl

-- In a frame at another address.
get_var_info_stale_example :
    get_var_info true (record frame { pc = 0x110 }) variable_updated
    ≡ ok (updated, variable_updated)
get_var_info_stale_example =
    get_var_info_stale frame (record frame { pc = 0x110 }) variable variable_updated updated
      get_var_info_fbreg_example

abbrev block : ℕ → ℕ → Block
block low high = record { name = []; variables = variable ∷ []; low_pc = low; high_pc = high }

abbrev inner : Scopes
inner = add_scope (scope (block 4 8) no_scopes) no_scopes

get_variables_lem_example :
    (get_local_variables (scope (block 0 16) inner) 4 3
      ≡ declared_up_to 3 (innermost (block 0 16) (inward inner 4)).variables)
    × (get_global_variables (scope (block 0 16) inner) 4 3
        ≡ declared_up_to 3 (variables_of (outer (block 0 16 ∷ inward inner 4))))
get_variables_lem_example = get_variables_lem (block 0 16) inner 4 3

abbrev unit_of : List (List ℕ) → CompileUnit
unit_of paths = record {
  debug_info_length = 16;
  debug_line_length = 0;
  root =
      die (entry_of 12 0x11 (λ _. none))
        (child (die (entry_of 13 Tag.base_type (λ _. none)) no_children) no_children);
  root_scope = scope (block 0 16) inner;
  line_matrix = [];
  source_paths = paths;
}

abbrev no_types : TypeEntries
no_types k = none

abbrev one_type : TypeEntries
one_type = insert_new no_types 13 (record { name = []; base_encoding = 0; byte_size = 4 })

types_added : generate_all_types (unit_of [] ∷ []) no_types ≡ ok one_type
unfolding generate_all_types generate_types is_type
types_added = refl

generate_all_types_lem_example : KeepsTypes no_types one_type × AllTypes (unit_of [] ∷ []) one_type
generate_all_types_lem_example =
    generate_all_types_lem (unit_of [] ∷ []) no_types one_type types_added

get_compile_unit_at_pc_lem_example :
    ((get_compile_unit_at_pc (unit_of [] ∷ []) 20 ≡ none)
      × All (λ u. ¬ Holds 20 u) (unit_of [] ∷ []))
    ⊎ ((before : List CompileUnit) × (unit : CompileUnit) × (after : List CompileUnit) × (unit_of []
            ∷ []
          ≡ before ++ (unit ∷ after))
        × (get_compile_unit_at_pc (unit_of [] ∷ []) 20 ≡ some unit)
        × Holds 20 unit
        × All (λ u. ¬ Holds 20 u) after)
get_compile_unit_at_pc_lem_example = get_compile_unit_at_pc_lem (unit_of [] ∷ []) 20

-- The path "a" is in both units.
get_source_info_lem_example :
    IsDistinct (get_source_info [] (unit_of ((97 ∷ []) ∷ []) ∷ unit_of ((97 ∷ []) ∷ []) ∷ []))
    × ((q : List ℕ)
        → contains_path
            (get_source_info [] (unit_of ((97 ∷ []) ∷ []) ∷ unit_of ((97 ∷ []) ∷ []) ∷ []))
            q
          ≡ contains_path [] q
            || any_source (unit_of ((97 ∷ []) ∷ []) ∷ unit_of ((97 ∷ []) ∷ []) ∷ []) q)
get_source_info_lem_example =
    get_source_info_lem [] (unit_of ((97 ∷ []) ∷ []) ∷ unit_of ((97 ∷ []) ∷ []) ∷ []) tt
