-- ===== src/Dwarf/DataType.antt =====
-- t89emu/src/Dwarf/DataType.cpp, `generateTypes` of t89emu/src/Dwarf/CompileUnit.cpp, and the table of types
-- of t89emu/src/Dwarf/DwarfParser.cpp.
pub mod Laws
use t89emu.Common.{
  ℕ, ◌==◌, Bool, true, false, if◌then◌else◌, Option, none, some, List, [], ◌∷◌, u32,
}
use t89emu.Dwarf.Encoding.Attribute
use t89emu.Dwarf.Encoding.Tag
use t89emu.Result.{Result, ok, exited, ◌>>=◌}
use t89emu.Dwarf.Info.{DebugData, get_uint, contains, insert_new}
use t89emu.Dwarf.Info.Tree.{Entry, DebugInfoEntry, die, Children, no_children, child}
use t89emu.Dwarf.Variable.{bytes_or}

-- `bitSize` is never set, so it is left out.
pub record DataType : Type 0 where
  pub name : List ℕ
  pub base_encoding : ℕ
  pub byte_size : ℕ

-- DW_END_big.
abbrev pub end_big : ℕ
end_big = 0x01

unfoldable pub uint_or : ℕ → Option DebugData → Result ℕ
uint_or v none = ok v
uint_or v (some d) = get_uint d

unfoldable pub new_data_type : Entry → Result DataType
unfolding uint_or bytes_or
new_data_type e = do
  base_encoding ← uint_or 0 (e.attributes Attribute.encoding)
  endianity ← uint_or 0 (e.attributes Attribute.endianity)
  if endianity == end_big then exited else (do
    byte_size ← uint_or 4 (e.attributes Attribute.byte_size)
    ok (record {
      name = bytes_or [] (e.attributes Attribute.name);
      base_encoding = u32 base_encoding;
      byte_size = byte_size;
    }))

unfoldable pub is_type : Entry → Bool
unfolding contains
is_type e =
    contains
      (Tag.array_type ∷ Tag.atomic_type ∷ Tag.base_type ∷ Tag.class_type ∷ Tag.const_type
        ∷ Tag.enumeration_type ∷ Tag.pointer_type ∷ Tag.ptr_to_member_type ∷ Tag.reference_type
        ∷ Tag.restrict_type ∷ Tag.rvalue_reference_type ∷ Tag.string_type ∷ Tag.structure_type
        ∷ Tag.typedef ∷ Tag.union_type ∷ Tag.unspecified_type ∷ Tag.volatile_type ∷ [])
      e.abbrev_entry.die_tag

-- `typeEntries`, with `getTypeEntry` as its lookup.
abbrev pub TypeEntries : Type 0
TypeEntries = ℕ → Option DataType

-- `addTypeEntry`.
unfoldable pub add_type_entry : TypeEntries → ℕ → DataType → TypeEntries
unfolding insert_new
add_type_entry types offset t = insert_new types offset t

-- Create the type of one entry if it is not there.
unfoldable pub generate_type : Entry → TypeEntries → Result TypeEntries
unfolding is_type new_data_type add_type_entry
generate_type e types = elim (is_type e) [
  | false ↦ ok types
  | true ↦ elim (types e.offset) [
    | some _ ↦ ok types
    | none ↦ do t ← new_data_type e; ok (add_type_entry types e.offset t)
  ]
]

unfoldable mutual
  unfolding generate_type

  pub generate_types : DebugInfoEntry → TypeEntries → Result TypeEntries
  generate_types (die e children) types = do
    types' ← generate_type e types
    generate_types_in children types'

  pub generate_types_in : Children → TypeEntries → Result TypeEntries
  generate_types_in no_children types = ok types
  generate_types_in (child c children) types = do
    types' ← generate_types c types
    generate_types_in children types'
