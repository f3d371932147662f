-- ===== src/Dwarf/Info/Tree/Laws.antt =====
-- The recursion over the debugging information entries ends.
use t89emu.Common.{
  ℕ, zero, suc, ◌+◌, ◌*◌, ◌≤◌, ◌≢◌, ap, arith, ◌==◌, Option, none, List, [], ◌∷◌, length,
}
use t89emu.Dwarf.DataStream.{DataStream, is_streamable}
use t89emu.Dwarf.DataStream.Within.{Within, Within-trans, inside_of}
use t89emu.Result.{
  Result, ok, exited, fault, out_of_fuel, Ends, Ends-bind, Ends-mono, Ends-if, Ends-option,
  Ends-bool, Ends-ne,
}
use t89emu.Dwarf.Info.{insert_new}
use t89emu.Dwarf.Info.Abbrev.{AttributeEntry}
use t89emu.Dwarf.Info.Abbrev.Laws.{uleb}
use t89emu.Dwarf.Info.Decode.{StringTables, decode_info}
use t89emu.Dwarf.Info.Decode.Laws.{decode_info-Moves, Within-refl}
use t89emu.Dwarf.Info.Tree.{
  Attributes, Entry, DebugInfoEntry, Children, UnitContext, Returned, end_of_siblings, end_of_unit,
  node, decode_attributes, decode_entry, generate_debug_info, generate_children, generate_root,
}

decode_attributes-Moves :
    (tables : StringTables) (address_size : ℕ) (entries : List AttributeEntry)
    (attributes : Attributes) (s : DataStream)
    → s.index ≤ length s.bytes
    → Ends (λ r. Within 0 s r.1) (decode_attributes tables address_size entries attributes s)
unfolding decode_attributes
decode_attributes-Moves tables address_size [] attributes s h = Within-refl s h
decode_attributes-Moves tables address_size (entry ∷ entries) attributes s h =
    Ends-bind (λ r. Within 0 s r.1) (λ r. Within 0 s r.1) (decode_info tables address_size entry s)
      _ (decode_info-Moves tables address_size entry s h)
      λ r k.
        Ends-mono (λ q. Within 0 r.1 q.1) (λ q. Within 0 s q.1) _
          (λ q m. Within-trans k m (omega arith))
          (decode_attributes-Moves tables address_size entries
            (insert_new attributes entry.name r.0) r.1 (inside_of k))

decode_entry-Moves :
    (u : UnitContext) (s : DataStream) → Ends (λ r. Within 1 s r.1) (decode_entry u s)
unfolding decode_entry
decode_entry-Moves u s =
    let P : Option Entry × DataStream → Type 0 = λ r. Within 1 s r.1 in
    uleb P s _ λ code s1 h.
      Ends-if P (code == 0) _ _ (λ _. h)
        λ _. Ends-option P (u.abbrevs code) exited _ tt λ abbrev_entry.
          Ends-bind (λ r. Within 0 s1 r.1) P
            (decode_attributes u.tables u.address_size abbrev_entry.att_entries (λ _. none) s1) _
            (decode_attributes-Moves u.tables u.address_size abbrev_entry.att_entries (λ _. none) s1
              (inside_of h))
            (λ r k. Within-trans h k (omega arith))

-- Two units of fuel for each byte left, and `k` more.
record Fuel (k fuel : ℕ) (s : DataStream) : Type 0 where
  inside : s.index ≤ length s.bytes
  left : 2 * length s.bytes + k ≤ 2 * s.index + fuel

Fuel-down : {k fuel : ℕ} {s : DataStream} → Fuel (suc k) (suc fuel) s → Fuel k fuel s
Fuel-down e = record { inside = e.inside; left = omega (arith, e.left) }

Fuel-less : {k fuel : ℕ} {s : DataStream} → Fuel (suc k) fuel s → Fuel k fuel s
Fuel-less e = record { inside = e.inside; left = omega (arith, e.left) }

Fuel-moved :
    {k fuel : ℕ} {s t : DataStream}
    → Within 1 s t
    → Fuel (suc k) (suc fuel) s
    → Fuel (suc (suc k)) fuel t
Fuel-moved h e = record {
  inside = inside_of h;
  left = omega (arith, h.moved, ap length h.bytes_same, e.left);
}

Fuel-zero {ℓ} : {A : Type ℓ} {k : ℕ} (s : DataStream) → Fuel (suc k) 0 s → A
Fuel-zero s e = absurd (omega (arith, e.inside, e.left))

Ends-returned {ℓ} :
    {B : Type ℓ} (P : B → Type 0) (r : Returned) (x : Result B) (f : DebugInfoEntry → Result B)
    → Ends P x
    → ((c : DebugInfoEntry) → Ends P (f c))
    → Ends P (elim r [ end_of_siblings ↦ x | end_of_unit _ ↦ x | node c ↦ f c ])
Ends-returned P end_of_siblings x f p q = p
Ends-returned P (end_of_unit c) x f p q = p
Ends-returned P (node c) x f p q = q c

root-Ends :
    (r : Returned)
    → Ends
        (λ _. Unit {0})
        (elim r [ end_of_siblings ↦ fault | end_of_unit d ↦ ok d | node d ↦ ok d ])
root-Ends end_of_siblings = tt
root-Ends (end_of_unit c) = tt
root-Ends (node c) = tt

mutual
  unfolding generate_debug_info

  generate_debug_info-Ends :
      (fuel : ℕ) (u : UnitContext) (s : DataStream)
      → Fuel 1 fuel s
      → Ends (λ r. Within 1 s r.1) (generate_debug_info fuel u s)
  generate_debug_info-Ends zero u s e = Fuel-zero s e
  generate_debug_info-Ends (suc fuel) u s e =
      let P : Returned × DataStream → Type 0 = λ r. Within 1 s r.1 in
      Ends-bind (λ r. Within 1 s r.1) P (decode_entry u s) _ (decode_entry-Moves u s)
        λ r h. Ends-option P r.0 _ _ h λ entry.
          Ends-bool P (is_streamable r.1) _ _
            (Ends-bool P (entry.abbrev_entry.has_child) _ _
              (Ends-bind (λ q. Within 1 r.1 q.1) P (generate_children fuel u r.1) _
                (generate_children-Ends fuel u r.1 (Fuel-moved h e))
                (λ q k. Within-trans h k (omega arith)))
              h)
            h

  generate_children-Ends :
      (fuel : ℕ) (u : UnitContext) (s : DataStream)
      → Fuel 2 fuel s
      → Ends (λ r. Within 1 s r.1) (generate_children fuel u s)
  generate_children-Ends zero u s e = Fuel-zero s e
  generate_children-Ends (suc fuel) u s e =
      let P : Children × DataStream → Type 0 = λ r. Within 1 s r.1 in
      Ends-bind (λ r. Within 1 s r.1) P (generate_debug_info fuel u s) _
        (generate_debug_info-Ends fuel u s (Fuel-down e))
        λ r h. Ends-returned P r.0 _ _ h λ c.
          Ends-bind (λ q. Within 1 r.1 q.1) P (generate_children fuel u r.1) _
            (generate_children-Ends fuel u r.1 (Fuel-moved h (Fuel-less e)))
            (λ q k. Within-trans h k (omega arith))

pub generate_root-Ends :
    (fuel : ℕ) (u : UnitContext) (s : DataStream)
    → s.index ≤ length s.bytes
    → 2 * length s.bytes + 1 ≤ 2 * s.index + fuel
    → Ends (λ _. Unit {0}) (generate_root fuel u s)
unfolding generate_root
generate_root-Ends fuel u s inside enough =
    Ends-bind (λ r. Within 1 s r.1) (λ _. Unit {0}) (generate_debug_info fuel u s) _
      (generate_debug_info-Ends fuel u s (record { inside = inside; left = enough }))
      (λ r h. root-Ends r.0)

-- With two units of fuel for each byte and one more, the tree of a unit is built, or the run exits or stops
-- at an access that has no behaviour: it is never cut off.
generate_root_ends :
    (fuel : ℕ) (u : UnitContext) (s : DataStream)
    → s.index ≤ length s.bytes
    → 2 * length s.bytes + 1 ≤ 2 * s.index + fuel
    → generate_root fuel u s ≢ out_of_fuel
generate_root_ends fuel u s inside enough =
    Ends-ne (λ _. Unit {0}) (generate_root fuel u s) (generate_root-Ends fuel u s inside enough)
