-- ===== src/Dwarf/Info/Tree/EntryFormat.antt =====
-- How an entry is written in .debug_info, and that it is read back.
use t89emu.Common.{
  ℕ, ◌+◌, ◌<◌, ◌≡◌, ◌≢◌, ◌∙◌, inl, inr, refl, sym, ap, ap₂, arith, ◌==◌, ==_iff, Bool, true, false,
  Bool-cases, if◌then◌else◌, Option, none, some, List, [], ◌∷◌, ◌++◌, length, length-append,
}
use mathlib.Core.List.{append_assoc}
use mathlib.Core.Path.{subst, fun_ext}
use t89emu.Dwarf.DataStream.{DataStream}
use t89emu.Result.{ok}
use t89emu.Dwarf.Info.{DebugData, insert_new}
use t89emu.Dwarf.Info.Abbrev.{AttributeEntry}
use t89emu.Dwarf.Info.Decode.{StringTables}
use t89emu.Dwarf.Info.Tree.{Entry, Attributes, UnitContext, decode_attributes, decode_entry}
use t89emu.Dwarf.Info.Tree.Format.{
  ahead, skip, skip-skip, skip-one, byte-ahead, append-ahead, uleb-byte, nonzero, Value,
  decode_info-Value,
}

-- The values of a declaration one behind the other, and the attributes that they make: of two with a name, the
-- first.
abbrev Values : ℕ → List AttributeEntry → List (List ℕ) → List ℕ → Type 0
Values address_size [] [] written = written ≡ []
Values address_size [] (bs ∷ values) written = ⊥
Values address_size (a ∷ entries) [] written = ⊥
Values address_size (a ∷ entries) (bs ∷ values) written =
    (first : List ℕ) × (others : List ℕ) × (written ≡ first ++ others)
    × Value address_size a.form bs first
    × Values address_size entries values others

abbrev pub attributes_of : List AttributeEntry → List (List ℕ) → Attributes
attributes_of [] values k = none
attributes_of (a ∷ entries) [] k = none
attributes_of (a ∷ entries) (bs ∷ values) k =
    let others = attributes_of entries values k in
    if k == a.name then some (record { bytes = bs; form = a.form }) else others

merge : Attributes → Attributes → Attributes
merge f g k = elim (f k) [ none ↦ g k | some d ↦ some d ]

first_of_three :
    (here : Bool) (o other : Option DebugData) (d : DebugData)
    → elim (if here then some (elim o [ none ↦ d | some v ↦ v ]) else o) [
      | none ↦ other
      | some v ↦ some v
    ]
      ≡ elim o [ none ↦ if here then some d else other | some v ↦ some v ]
first_of_three true none other d = refl
first_of_three true (some v) other d = refl
first_of_three false none other d = refl
first_of_three false (some v) other d = refl

insert-merge :
    (f g : Attributes) (name : ℕ) (d : DebugData)
    → merge (insert_new f name d) g ≡ merge f (λ k. if k == name then some d else g k)
unfolding merge insert_new
insert-merge f g name d = fun_ext at
  where
    after : ℕ → Bool → Option DebugData
    after k here = elim (if here then some (elim (f name) [ none ↦ d | some v ↦ v ]) else f k) [
      | none ↦ g k
      | some v ↦ some v
    ]

    joined : ℕ → Bool → Option DebugData
    joined k here = elim (f k) [ none ↦ if here then some d else g k | some v ↦ some v ]

    self : after name (name == name) ≡ joined name (name == name)
    self = first_of_three (name == name) (f name) (g name) d

    at : (k : ℕ) → after k (k == name) ≡ joined k (k == name)
    at k = elim (Bool-cases (k == name)) [
      | inl same ↦
          subst (λ i. after i (i == name) ≡ joined i (i == name)) (sym ((==_iff k name).0 same))
            self
      | inr other ↦
          subst (λ b. after k b ≡ joined k b) (sym other) (first_of_three false (f k) (g k) d)
    ]

merge-nothing : (f : Attributes) → merge f (λ k. none) ≡ f
unfolding merge
merge-nothing f = fun_ext λ k. at (f k)
  where
    at : (o : Option DebugData) → elim o [ none ↦ none | some d ↦ some d ] ≡ o
    at none = refl
    at (some d) = refl

place : (i n : ℕ) → n ≡ 0 → i ≡ i + n
place i n e = omega (arith, e)

decode_attributes-Values :
    (tables : StringTables) (address_size : ℕ) (entries : List AttributeEntry)
    (values : List (List ℕ)) (f : Attributes) (s : DataStream) (written rest : List ℕ)
    → Values address_size entries values written
    → ahead s ≡ written ++ rest
    → decode_attributes tables address_size entries f s
      ≡ ok (merge f (attributes_of entries values), skip s (length written))
unfolding decode_attributes
decode_attributes-Values tables size [] [] f s written rest w e =
    let none_more : merge f (attributes_of [] []) ≡ f = merge-nothing f in
    ap₂ (λ g i. ok (g, record s { index = i })) (sym none_more)
      (place s.index (length written) (ap length w))
decode_attributes-Values tables size [] (bs ∷ values) f s written rest bad e = absurd bad
decode_attributes-Values tables size (a ∷ entries) [] f s written rest bad e = absurd bad
decode_attributes-Values tables size (a ∷ entries) (bs ∷ values) f s written rest
      (first, others, w, v, vs) e =
    let here : ahead s ≡ first ++ (others ++ rest) =
      e ∙ ap (λ t. t ++ rest) w ∙ append_assoc first others rest in
    let d : DebugData = record { bytes = bs; form = a.form } in
    let s1 = skip s (length first) in
    let one = decode_info-Value tables size a s bs first (others ++ rest) v here in
    let more =
      decode_attributes-Values tables size entries values (insert_new f a.name d) s1 others rest vs
        (append-ahead first s (others ++ rest) here) in
    rw one (
      more
      ∙ ap₂ (λ g t. ok (g, t)) (insert-merge f (attributes_of entries values) a.name d)
          (skip-skip s (length first) (length others)
            ∙ ap (skip s) (sym (ap length w ∙ length-append first others))))

-- How an entry stands in .debug_info, `place` bytes behind the start of the unit's stream: a code of one byte, and
-- the values of the attributes of its declaration.
pub record EntryBytes (u : UnitContext) (place : ℕ) (e : Entry) (written : List ℕ) : Type 0 where
  pub declared : u.abbrevs e.code ≡ some e.abbrev_entry
  pub nonzero_code : e.code ≢ 0
  pub short_code : e.code < 128
  pub at_offset : e.offset ≡ u.base + place
  pub values : List (List ℕ)
  pub others : List ℕ
  pub spelt : Values u.address_size e.abbrev_entry.att_entries values others
  pub attributes_same : e.attributes ≡ attributes_of e.abbrev_entry.att_entries values
  pub written_same : written ≡ e.code ∷ others

pub decode_entry-EntryBytes :
    (u : UnitContext) (s : DataStream) (e : Entry) (written rest : List ℕ)
    → EntryBytes u s.index e written
    → ahead s ≡ written ++ rest
    → decode_entry u s ≡ ok (some e, skip s (length written))
unfolding decode_entry merge
decode_entry-EntryBytes u s e written rest w h =
    let here : ahead s ≡ e.code ∷ (w.others ++ rest) = h ∙ ap (λ t. t ++ rest) w.written_same in
    let code = uleb-byte s e.code (w.others ++ rest) w.short_code here in
    let attributes =
      decode_attributes-Values u.tables u.address_size e.abbrev_entry.att_entries w.values
        (λ k. none) (skip s 1) w.others rest w.spelt
        (byte-ahead s e.code (w.others ++ rest) here).1 in
    let placed : skip (skip s 1) (length w.others) ≡ skip s (length written) =
      skip-one s (length w.others) ∙ ap (skip s) (sym (ap length w.written_same)) in
    rw (code, nonzero e.code w.nonzero_code, w.declared, attributes)
      (ap₂ (λ (p : ℕ × Attributes) t. ok (some (record e { offset = p.0; attributes = p.1 }), t))
        (ap₂ (λ o a. (o, a)) (sym w.at_offset) (sym w.attributes_same)) placed)
