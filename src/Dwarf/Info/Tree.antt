-- ===== src/Dwarf/Info/Tree.antt =====
-- t89emu/src/Dwarf/CompileUnit.cpp, `generateDebugInfo`: the tree of debugging information entries.
pub mod Laws
pub mod RoundTrip
pub mod Format
pub mod EntryFormat
use t89emu.Common.{
  ℕ, zero, suc, ◌+◌, ◌==◌, Bool, true, false, if◌then◌else◌, Option, none, some, List, [], ◌∷◌,
}
use t89emu.Dwarf.DataStream.{DataStream, decode_uleb128, is_streamable}
use t89emu.Result.{Result, ok, exited, fault, out_of_fuel, ◌>>=◌, lift}
use t89emu.Dwarf.Info.{DebugData, insert_new}
use t89emu.Dwarf.Info.Abbrev.{AttributeEntry, AbbrevEntry, AbbrevTable}
use t89emu.Dwarf.Info.Decode.{StringTables, decode_info}

abbrev pub Attributes : Type 0
Attributes = ℕ → Option DebugData

-- An entry without its children.
pub record Entry : Type 0 where
  pub code : ℕ
  pub offset : ℕ
  pub abbrev_entry : AbbrevEntry
  pub attributes : Attributes

mutual
  pub data DebugInfoEntry : Type 0 where
    die : Entry → Children → DebugInfoEntry

  pub data Children : Type 0 where
    no_children : Children
    child : DebugInfoEntry → Children → Children

-- What a compile unit gives to the recursion. `base` is the offset of the stream in .debug_info.
pub record UnitContext : Type 0 where
  pub tables : StringTables
  pub address_size : ℕ
  pub abbrevs : AbbrevTable
  pub base : ℕ

-- The loop over the attributes of the declaration.
unfoldable pub decode_attributes :
    StringTables
    → ℕ
    → List AttributeEntry
    → Attributes
    → DataStream
    → Result (Attributes × DataStream)
decode_attributes tables address_size [] attributes s = ok (attributes, s)
decode_attributes tables address_size (entry ∷ entries) attributes s = do
  (data', s') ← decode_info tables address_size entry s
  decode_attributes tables address_size entries (insert_new attributes entry.name data') s'

-- What a call returns: a null pointer at the code 0, with the node deleted; a null pointer at the end of
-- the unit, with the node complete; or the node.
pub data Returned : Type 0 where
  end_of_siblings : Returned
  end_of_unit node : DebugInfoEntry → Returned

-- The part of a node in front of its children; `none` is the code 0.
unfoldable pub decode_entry : UnitContext → DataStream → Result (Option Entry × DataStream)
unfolding decode_attributes
decode_entry u s = do
  (code, s1) ← lift (decode_uleb128 s)
  if code == 0 then ok (none, s1) else elim (u.abbrevs code) [
    | none ↦ exited
    | some abbrev_entry ↦ do
      (attributes, s2) ←
          decode_attributes u.tables u.address_size abbrev_entry.att_entries (λ _. none) s1
      let entry : Entry = record {
        code = code;
        offset = u.base + s.index;
        abbrev_entry = abbrev_entry;
        attributes = attributes;
      }
      ok (some entry, s2)
  ]

unfoldable mutual
  unfolding decode_entry

  pub generate_debug_info : ℕ → UnitContext → DataStream → Result (Returned × DataStream)
  generate_debug_info zero u s = out_of_fuel
  generate_debug_info (suc fuel) u s = do
    (decoded, s') ← decode_entry u s
    elim decoded [
      | none ↦ ok (end_of_siblings, s')
      | some entry ↦ elim (is_streamable s') [
        | false ↦ ok (end_of_unit (die entry no_children), s')
        | true ↦ elim (entry.abbrev_entry.has_child) [
          | false ↦ ok (node (die entry no_children), s')
          | true ↦ do
            (children, s'') ← generate_children fuel u s'
            ok (node (die entry children), s'')
        ]
      ]
    ]

  -- `while ((child = generateDebugInfo(...)))`.
  pub generate_children : ℕ → UnitContext → DataStream → Result (Children × DataStream)
  generate_children zero u s = out_of_fuel
  generate_children (suc fuel) u s = do
    (returned, s') ← generate_debug_info fuel u s
    elim returned [
      | end_of_siblings ↦ ok (no_children, s')
      | end_of_unit _ ↦ ok (no_children, s')
      | node c ↦ do (children, s'') ← generate_children fuel u s'; ok (child c children, s'')
    ]

-- The root of the unit: it is kept whatever the call returns, unless it was deleted.
unfoldable pub generate_root : ℕ → UnitContext → DataStream → Result DebugInfoEntry
unfolding generate_debug_info
generate_root fuel u s = do
  (returned, _) ← generate_debug_info fuel u s
  elim returned [ end_of_siblings ↦ fault | end_of_unit d ↦ ok d | node d ↦ ok d ]
