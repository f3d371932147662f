-- ===== src/Dwarf/Info/Abbrev/Laws.antt =====
-- The loops over the abbreviation table end.
use t89emu.Common.{
  ℕ, zero, suc, ◌+◌, ◌≤◌, arith, ◌==◌, ◌&&◌, Option, List, [], ◌∷◌, ◌++◌, length, u32, ap, ◌≢◌,
}
use t89emu.Dwarf.DataStream.{DataStream, decode_uleb128}
use t89emu.Dwarf.DataStream.Within.{Within, Within-trans, decode_uleb128-Within}
use t89emu.Dwarf.Encoding.Form
use t89emu.Result.{
  Result, out_of_fuel, ◌>>=◌, lift, Ends, Ends-bind, Ends-lift, Ends-mono, Ends-if, Ends-option,
  Ends-ne,
}
use t89emu.Dwarf.Info.{insert_new}
use t89emu.Dwarf.Info.Abbrev.{
  AttributeEntry, AbbrevEntry, AbbrevTable, parse_attribute, parse_attributes, parse_abbrev,
  parse_table,
}

-- After a ULEB128 number.
pub uleb {ℓ} :
    {B : Type ℓ} (P : B → Type 0) (s : DataStream) (f : ℕ × DataStream → Result B)
    → ((v : ℕ) (s' : DataStream) → Within 1 s s' → Ends P (f (v, s')))
    → Ends P (lift (decode_uleb128 s) >>= f)
uleb P s f k =
    Ends-bind (λ r. Within 1 s r.1) P (lift (decode_uleb128 s)) f
      (Ends-lift (λ r. Within 1 s r.1) (decode_uleb128 s) (decode_uleb128-Within s))
      (λ r h. k r.0 r.1 h)

-- Two bytes or more for an attribute, and for the pair that ends them.
parse_attribute-Ends : (s : DataStream) → Ends (λ r. Within 2 s r.1) (parse_attribute s)
unfolding parse_attribute
parse_attribute-Ends s =
    let P : Option AttributeEntry × DataStream → Type 0 = λ r. Within 2 s r.1 in
    uleb P s _ λ name s1 h1. uleb P s1 _ λ form s2 h2.
      let here : Within 2 s s2 = Within-trans h1 h2 (omega arith) in
      Ends-if P ((u32 name == 0) && (u32 form == 0)) _ _ (λ _. here)
        λ _.
          Ends-if P (u32 form == Form.implicit_const) _ _
            (λ _. uleb P s2 _ λ special s3 h3. Within-trans here h3 (omega arith)) (λ _. here)

-- A unit of fuel for each byte left, and one more.
pub record Enough (fuel : ℕ) (s : DataStream) : Type 0 where
  pub inside : s.index ≤ length s.bytes
  pub left : length s.bytes + 1 ≤ s.index + fuel

Enough-later : {n fuel : ℕ} {s s' : DataStream} → Within n s s' → Enough fuel s → Enough fuel s'
Enough-later h e = record {
  inside = omega (arith, h.inside, ap length h.bytes_same);
  left = omega (arith, h.moved, ap length h.bytes_same, e.left);
}

Enough-next :
    {n fuel : ℕ} {s s' : DataStream} → Within (suc n) s s' → Enough (suc fuel) s → Enough fuel s'
Enough-next h e = record {
  inside = omega (arith, h.inside, ap length h.bytes_same);
  left = omega (arith, h.moved, ap length h.bytes_same, e.left);
}

pub Enough-zero {ℓ} : {A : Type ℓ} (s : DataStream) → Enough 0 s → A
Enough-zero s e = absurd (omega (arith, e.inside, e.left))

parse_attributes-Ends :
    (fuel : ℕ) (entries : List AttributeEntry) (s : DataStream)
    → Enough fuel s
    → Ends (λ r. Within 2 s r.1) (parse_attributes fuel entries s)
unfolding parse_attributes
parse_attributes-Ends zero entries s enough = Enough-zero s enough
parse_attributes-Ends (suc fuel) entries s enough =
    let P : List AttributeEntry × DataStream → Type 0 = λ r. Within 2 s r.1 in
    Ends-bind (λ r. Within 2 s r.1) P (parse_attribute s) _ (parse_attribute-Ends s)
      λ r h. Ends-option P r.0 _ _ h λ entry.
        Ends-mono (λ q. Within 2 r.1 q.1) P (parse_attributes fuel (entries ++ (entry ∷ [])) r.1)
          (λ q k. Within-trans h k (omega arith))
          (parse_attributes-Ends fuel (entries ++ (entry ∷ [])) r.1 (Enough-next h enough))

parse_abbrev-Ends :
    (fuel : ℕ) (s : DataStream) → Enough fuel s → Ends (λ r. Within 1 s r.1) (parse_abbrev fuel s)
unfolding parse_abbrev
parse_abbrev-Ends fuel s enough =
    let P : Option AbbrevEntry × DataStream → Type 0 = λ r. Within 1 s r.1 in
    uleb P s _ λ code s1 h1.
      Ends-if P (code == 0) _ _ (λ _. h1)
        λ _. uleb P s1 _ λ tag s2 h2. uleb P s2 _ λ child s3 h3.
          let here : Within 3 s s3 =
            Within-trans (Within-trans {k = 2} h1 h2 (omega arith)) h3 (omega arith) in
          Ends-bind (λ r. Within 2 s3 r.1) P (parse_attributes fuel [] s3) _
            (parse_attributes-Ends fuel [] s3 (Enough-later here enough))
            (λ r k. Within-trans here k (omega arith))

pub parse_table-Ends :
    (fuel : ℕ) (table : AbbrevTable) (s : DataStream)
    → Enough fuel s
    → Ends (λ _. Unit {0}) (parse_table fuel table s)
unfolding parse_table
parse_table-Ends zero table s enough = Enough-zero s enough
parse_table-Ends (suc fuel) table s enough =
    Ends-bind (λ r. Within 1 s r.1) (λ _. Unit {0}) (parse_abbrev (suc fuel) s) _
      (parse_abbrev-Ends (suc fuel) s enough)
      λ r h.
        Ends-option (λ _. Unit {0}) r.0 _ _ tt
          λ entry.
            parse_table-Ends fuel (insert_new table entry.die_code entry) r.1 (Enough-next h enough)

-- With a unit of fuel for each byte and one more, the table of declarations is read to its end, or the run stops
-- at a number behind the bytes or too wide: it is never cut off.
parse_table_ends :
    (fuel : ℕ) (table : AbbrevTable) (s : DataStream)
    → s.index ≤ length s.bytes
    → length s.bytes + 1 ≤ s.index + fuel
    → parse_table fuel table s ≢ out_of_fuel
parse_table_ends fuel table s inside enough =
    Ends-ne (λ _. Unit {0}) (parse_table fuel table s)
      (parse_table-Ends fuel table s (record { inside = inside; left = enough }))
