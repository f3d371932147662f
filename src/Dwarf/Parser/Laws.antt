-- ===== src/Dwarf/Parser/Laws.antt =====
-- Which unit an address belongs to, the types of all units, and the sources of all units.
use t89emu.Common.{
  ℕ, ◌≡◌, ◌⊎◌, refl, ap, true, Bool-cases, inl, inr, none, some, All, List, [], ◌∷◌, ◌++◌,
}
use t89emu.Result.{ok, Ends, Ends-bind, Ends-mono, Ends-ok}
use t89emu.Dwarf.Scope.{is_pc_in_range}
use t89emu.Dwarf.DataType.{TypeEntries, generate_types}
use t89emu.Dwarf.DataType.Laws.{KeepsTypes, HasTypes, Grows, HasTypes-keeps, generate_types-Ends}
use t89emu.Dwarf.Parser.Unit.{CompileUnit}
use t89emu.Dwarf.Parser.{generate_all_types, get_compile_unit_at_pc}

abbrev pub Holds : ℕ → CompileUnit → Type 0
Holds pc unit = is_pc_in_range unit.root_scope pc ≡ true

-- The search answers the last unit whose range holds the address. If no unit holds it, the index runs in front of
-- the first unit, and there is no result.
pub get_compile_unit_at_pc_lem :
    (units : List CompileUnit) (pc : ℕ)
    → ((get_compile_unit_at_pc units pc ≡ none) × All (λ u. ¬ Holds pc u) units)
      ⊎ ((before : List CompileUnit) × (unit : CompileUnit) × (after : List CompileUnit) × (units
            ≡ before ++ (unit ∷ after))
          × (get_compile_unit_at_pc units pc ≡ some unit)
          × Holds pc unit
          × All (λ u. ¬ Holds pc u) after)
unfolding get_compile_unit_at_pc
get_compile_unit_at_pc_lem [] pc = inl (refl, tt)
get_compile_unit_at_pc_lem (u ∷ us) pc = elim (get_compile_unit_at_pc_lem us pc) [
  | inr (before, unit, after, e, g, h, a) ↦
      inr (u ∷ before, unit, after, ap (λ t. u ∷ t) e, rw g refl, h, a)
  | inl (none_there, not_there) ↦ elim (Bool-cases (is_pc_in_range u.root_scope pc)) [
    | inl here ↦ inr ([], u, us, refl, rw (none_there, here) refl, here, not_there)
    | inr not_here ↦ inl (rw (none_there, not_here) refl, ((λ bad. cc), not_there))
  ]
]

-- Every unit's types are in the table.
abbrev pub AllTypes : List CompileUnit → TypeEntries → Type 0
AllTypes units types = All (λ u. HasTypes u.root types) units

generate_all_types-Ends :
    (units : List CompileUnit) (types : TypeEntries)
    → Ends (Grows (AllTypes units) types) (generate_all_types units types)
unfolding generate_all_types
generate_all_types-Ends [] types = ((λ k t h. h), tt)
generate_all_types-Ends (u ∷ us) types =
    Ends-bind (Grows (HasTypes u.root) types) (Grows (AllTypes (u ∷ us)) types)
      (generate_types u.root types) _ (generate_types-Ends u.root types)
      λ t1 h.
        Ends-mono (Grows (AllTypes us) t1) (Grows (AllTypes (u ∷ us)) types)
          (generate_all_types us t1)
          (λ t2 g. ((λ k t x. g.0 k t (h.0 k t x)), (HasTypes-keeps u.root g.0 h.1, g.1)))
          (generate_all_types-Ends us t1)

-- If the types of all units are added without an exit, no entry of the table has changed, and every entry of every
-- unit that stands for a type is found by its offset.
pub generate_all_types_lem :
    (units : List CompileUnit) (types types' : TypeEntries)
    → generate_all_types units types ≡ ok types'
    → KeepsTypes types types' × AllTypes units types'
generate_all_types_lem units types types' e =
    Ends-ok (Grows (AllTypes units) types) (generate_all_types units types)
      (generate_all_types-Ends units types) e
