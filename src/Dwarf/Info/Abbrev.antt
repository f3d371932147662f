-- ===== src/Dwarf/Info/Abbrev.antt =====
-- t89emu/src/Dwarf/DebugInfoEntry.cpp, `AbbrevTable`: the declarations of .debug_abbrev.
pub mod Laws
use t89emu.Common.{
  ℕ, zero, suc, ◌==◌, not, ◌&&◌, Bool, true, false, if◌then◌else◌, Option, none, some, List, [],
  ◌∷◌, ◌++◌, u32,
}
use t89emu.Dwarf.DataStream.{DataStream, decode_uleb128}
use t89emu.Dwarf.Encoding.Form
use t89emu.Result.{Result, ok, out_of_fuel, ◌>>=◌, lift}
use t89emu.Dwarf.Info.{insert_new}

pub record AttributeEntry : Type 0 where
  pub name : ℕ
  pub form : ℕ
  pub special : ℕ

pub record AbbrevEntry : Type 0 where
  pub die_code : ℕ
  pub die_tag : ℕ
  pub has_child : Bool
  pub att_entries : List AttributeEntry

abbrev pub AbbrevTable : Type 0
AbbrevTable = ℕ → Option AbbrevEntry

-- One attribute of a declaration; `none` is the pair of zeros that ends it. The casts to an enumeration
-- keep 32 digits.
unfoldable pub parse_attribute : DataStream → Result (Option AttributeEntry × DataStream)
parse_attribute s = do
  (name, s1) ← lift (decode_uleb128 s)
  (form, s2) ← lift (decode_uleb128 s1)
  if (u32 name == 0) && (u32 form == 0)
      then ok (none, s2)
      else if u32 form == Form.implicit_const
      then (do
        (special, s3) ← lift (decode_uleb128 s2)
        ok (some (record { name = u32 name; form = u32 form; special = special }), s3))
      else ok (some (record { name = u32 name; form = u32 form; special = 0 }), s2)

-- The inner loop.
unfoldable pub parse_attributes :
    ℕ → List AttributeEntry → DataStream → Result (List AttributeEntry × DataStream)
parse_attributes zero entries s = out_of_fuel
parse_attributes (suc fuel) entries s = do
  (attribute, s') ← parse_attribute s
  elim attribute [
    | none ↦ ok (entries, s')
    | some entry ↦ parse_attributes fuel (entries ++ (entry ∷ [])) s'
  ]

-- One declaration; `none` is the code 0 that ends the table.
unfoldable pub parse_abbrev : ℕ → DataStream → Result (Option AbbrevEntry × DataStream)
parse_abbrev fuel s = do
  (die_code, s1) ← lift (decode_uleb128 s)
  if die_code == 0 then ok (none, s1) else (do
    (die_tag, s2) ← lift (decode_uleb128 s1)
    (has_child, s3) ← lift (decode_uleb128 s2)
    (entries, s4) ← parse_attributes fuel [] s3
    let entry : AbbrevEntry = record {
      die_code = die_code;
      die_tag = u32 die_tag;
      has_child = not (has_child == 0);
      att_entries = entries;
    }
    ok (some entry, s4))

-- The outer loop; `fuel` bounds the loops inside as well.
unfoldable pub parse_table : ℕ → AbbrevTable → DataStream → Result AbbrevTable
parse_table zero table s = out_of_fuel
parse_table (suc fuel) table s = do
  (declaration, s') ← parse_abbrev (suc fuel) s
  elim declaration [
    | none ↦ ok table
    | some entry ↦ parse_table fuel (insert_new table entry.die_code entry) s'
  ]

-- `AbbrevTable::AbbrevTable`.
abbrev pub empty_table : AbbrevTable
empty_table code = none
