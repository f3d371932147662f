-- ===== src/Dwarf/DataType/Laws.antt =====
-- The table of types after a tree has been added.
use t89emu.Common.{ℕ, ◌≡◌, ◌≢◌, refl, ◌==◌, true, Bool-cases, ==_iff, inl, inr, Option, none, some}
use t89emu.Dwarf.Encoding.Attribute
use t89emu.Result.{ok, ◌>>=◌, Ends, Ends-bind, Ends-if, Ends-mono, Ends-ok}
use t89emu.Dwarf.Info.{DebugData, insert_new}
use t89emu.Dwarf.Info.Value.{get_uint-Ends}
use t89emu.Dwarf.Info.Tree.{Entry, DebugInfoEntry, die, Children, no_children, child}
use t89emu.Dwarf.DataType.{
  DataType, TypeEntries, uint_or, new_data_type, is_type, end_big, add_type_entry, generate_type,
  generate_types, generate_types_in,
}

abbrev Any {ℓ} : {A : Type ℓ} → A → Type 0
Any _ = Unit {0}

uint_or-Ends : (v : ℕ) (o : Option DebugData) → Ends Any (uint_or v o)
unfolding uint_or
uint_or-Ends v none = tt
uint_or-Ends v (some d) = get_uint-Ends d

new_data_type-Ends : (e : Entry) → Ends Any (new_data_type e)
unfolding new_data_type
new_data_type-Ends e =
    Ends-bind Any Any (uint_or 0 (e.attributes Attribute.encoding)) _ (uint_or-Ends _ _) λ base _.
      Ends-bind Any Any (uint_or 0 (e.attributes Attribute.endianity)) _ (uint_or-Ends _ _)
        λ endianity _.
          Ends-if Any (endianity == end_big) _ _ (λ _. tt)
            λ _.
              Ends-bind Any Any (uint_or 4 (e.attributes Attribute.byte_size)) _ (uint_or-Ends _ _)
                λ size _. tt

-- No entry is changed.
abbrev pub KeepsTypes : TypeEntries → TypeEntries → Type 0
KeepsTypes types types' = (k : ℕ) (t : DataType) → types k ≡ some t → types' k ≡ some t

-- Every entry of the tree that stands for a type is in the table.
unfoldable mutual
  pub HasTypes : DebugInfoEntry → TypeEntries → Type 0
  HasTypes (die e children) types =
      (is_type e ≡ true → types e.offset ≢ none) × HasTypesIn children types

  pub HasTypesIn : Children → TypeEntries → Type 0
  HasTypesIn no_children types = Unit {0}
  HasTypesIn (child c children) types = HasTypes c types × HasTypesIn children types

insert_new-keeps :
    (types : TypeEntries) (offset : ℕ) (t : DataType) → KeepsTypes types (insert_new types offset t)
unfolding insert_new
insert_new-keeps types offset t k u h = elim (Bool-cases (k == offset)) [
  | inr other ↦ rw other h
  | inl same ↦
      let e : types offset ≡ some u = rw ((==_iff k offset).0 same) at h in rw (same, e) refl
]

insert_new-here :
    (types : TypeEntries) (offset : ℕ) (t : DataType) → insert_new types offset t offset ≢ none
unfolding insert_new
insert_new-here types offset t = rw ((==_iff offset offset).1 refl) (λ e. cc)

-- What one entry does to the table.
Adds : Entry → TypeEntries → TypeEntries → Type 0
Adds e types types' = KeepsTypes types types' × (is_type e ≡ true → types' e.offset ≢ none)

generate_type-Ends : (e : Entry) (types : TypeEntries) → Ends (Adds e types) (generate_type e types)
unfolding generate_type add_type_entry Adds
generate_type-Ends e types = elim (Bool-cases (is_type e)) [
  | inr other ↦ rw (other, generate_type) (λ k t h. h, λ bad. cc)
  | inl here ↦ rw (here, generate_type) (missing (types e.offset) refl)
]
  where
    missing :
        (o : Option DataType)
        → types e.offset ≡ o
        → Ends (Adds e types) (elim o [
          | some _ ↦ ok types
          | none ↦ new_data_type e >>= λ t. ok (insert_new types e.offset t)
        ])
    missing (some t) there = (λ k u h. h, λ _ bad. cc)
    missing none there =
        Ends-bind Any (Adds e types) (new_data_type e) _ (new_data_type-Ends e)
          λ t _. (insert_new-keeps types e.offset t, λ _. insert_new-here types e.offset t)

here-keeps :
    (e : Entry) {types types' : TypeEntries}
    → KeepsTypes types types'
    → (is_type e ≡ true → types e.offset ≢ none)
    → is_type e ≡ true
    → types' e.offset ≢ none
here-keeps e {types} {types'} k present is = still (types e.offset) refl
  where
    still : (o : Option DataType) → types e.offset ≡ o → types' e.offset ≢ none
    still none there = absurd (present is there)
    still (some t) there = λ bad. let q = k e.offset t there in cc

mutual
  unfolding HasTypes

  pub HasTypes-keeps :
      (d : DebugInfoEntry) {types types' : TypeEntries}
      → KeepsTypes types types'
      → HasTypes d types
      → HasTypes d types'
  HasTypes-keeps (die e children) k h = (here-keeps e k h.0, HasTypesIn-keeps children k h.1)

  HasTypesIn-keeps :
      (children : Children) {types types' : TypeEntries}
      → KeepsTypes types types'
      → HasTypesIn children types
      → HasTypesIn children types'
  HasTypesIn-keeps no_children k h = tt
  HasTypesIn-keeps (child c children) k h =
      (HasTypes-keeps c k h.0, HasTypesIn-keeps children k h.1)

abbrev pub Grows : (TypeEntries → Type 0) → TypeEntries → TypeEntries → Type 0
Grows P types types' = KeepsTypes types types' × P types'

mutual
  unfolding generate_types Adds HasTypes

  pub generate_types-Ends :
      (d : DebugInfoEntry) (types : TypeEntries)
      → Ends (Grows (HasTypes d) types) (generate_types d types)
  generate_types-Ends (die e children) types =
      Ends-bind (Adds e types) (Grows (HasTypes (die e children)) types) (generate_type e types) _
        (generate_type-Ends e types)
        λ t1 h.
          Ends-mono (Grows (HasTypesIn children) t1) (Grows (HasTypes (die e children)) types)
            (generate_types_in children t1)
            (λ t2 g. (λ k t x. g.0 k t (h.0 k t x), (here-keeps e g.0 h.1, g.1)))
            (generate_types_in-Ends children t1)

  generate_types_in-Ends :
      (children : Children) (types : TypeEntries)
      → Ends (Grows (HasTypesIn children) types) (generate_types_in children types)
  generate_types_in-Ends no_children types = (λ k t x. x, tt)
  generate_types_in-Ends (child c children) types =
      Ends-bind (Grows (HasTypes c) types) (Grows (HasTypesIn (child c children)) types)
        (generate_types c types) _ (generate_types-Ends c types)
        λ t1 h.
          Ends-mono (Grows (HasTypesIn children) t1) (Grows (HasTypesIn (child c children)) types)
            (generate_types_in children t1)
            (λ t2 g. (λ k t x. g.0 k t (h.0 k t x), (HasTypes-keeps c g.0 h.1, g.1)))
            (generate_types_in-Ends children t1)

-- If the types of a tree are added without an exit, no entry of the table has changed, and every entry of the
-- tree that stands for a type is found by its offset.
generate_types_lem :
    (d : DebugInfoEntry) (types types' : TypeEntries)
    → generate_types d types ≡ ok types'
    → KeepsTypes types types' × HasTypes d types'
generate_types_lem d types types' e =
    Ends-ok (Grows (HasTypes d) types) (generate_types d types) (generate_types-Ends d types) e
