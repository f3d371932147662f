-- ===== src/Dwarf/Parser/Sources.antt =====
-- The sources of all units, each once.
use t89emu.Common.{
  ℕ, ◌≡◌, refl, sym, ap, ap₂, ◌∙◌, arith, ◌==◌, ==_iff, ◌&&◌, ◌||◌, Bool, true, false, Bool-cases,
  if◌then◌else◌, inl, inr, List, [], ◌∷◌, ◌++◌,
}
use t89emu.Dwarf.Parser.Unit.{CompileUnit}
use t89emu.Dwarf.Parser.{string_eq, contains_path, add_sources, get_source_info}

string_eq_self : (a : List ℕ) → string_eq a a ≡ true
unfolding string_eq
string_eq_self [] = refl
string_eq_self (c ∷ cs) = rw ((==_iff c c).1 refl) (string_eq_self cs)

string_eq-sym : (a b : List ℕ) → string_eq a b ≡ string_eq b a
unfolding string_eq
string_eq-sym [] [] = refl
string_eq-sym [] (d ∷ ds) = refl
string_eq-sym (c ∷ cs) [] = refl
string_eq-sym (c ∷ cs) (d ∷ ds) =
    let e : (c == d) ≡ (d == c) = ground arith in ap₂ (λ x y. x && y) e (string_eq-sym cs ds)

string_eq-same : (a b : List ℕ) → string_eq a b ≡ true → a ≡ b
unfolding string_eq
string_eq-same [] [] h = refl
string_eq-same [] (d ∷ ds) h = cc
string_eq-same (c ∷ cs) [] h = cc
string_eq-same (c ∷ cs) (d ∷ ds) h = elim (Bool-cases (c == d)) [
  | inl same ↦
      let rest : string_eq cs ds ≡ true = rw same at h in
      ap₂ (λ x y. x ∷ y) ((==_iff c d).0 same) (string_eq-same cs ds rest)
  | inr other ↦ cc (let q = rw other at h in q)
]

if_or : (b c : Bool) → (if b then true else c) ≡ b || c
if_or true c = refl
if_or false c = refl

or_false : (b c : Bool) → b || c ≡ false → (b ≡ false) × (c ≡ false)
or_false true c h = absurd (cc)
or_false false c h = (refl, h)

or-false : (b : Bool) → b || false ≡ b
or-false true = refl
or-false false = refl

or_assoc : (a b c : Bool) → (a || b) || c ≡ a || (b || c)
or_assoc true b c = refl
or_assoc false b c = refl

contains_path-cons :
    (p : List ℕ) (ps : List (List ℕ)) (q : List ℕ)
    → contains_path (p ∷ ps) q ≡ string_eq q p || contains_path ps q
unfolding contains_path
contains_path-cons p ps q = if_or (string_eq q p) (contains_path ps q)

contains_path-append :
    (ps : List (List ℕ)) (p q : List ℕ)
    → contains_path (ps ++ (p ∷ [])) q ≡ contains_path ps q || string_eq q p
unfolding contains_path
contains_path-append [] p q = if_true (string_eq q p)
  where
    if_true : (b : Bool) → (if b then true else false) ≡ b
    if_true true = refl
    if_true false = refl
contains_path-append (r ∷ rs) p q = elim (Bool-cases (string_eq q r)) [
  | inl same ↦ rw same refl
  | inr other ↦ rw other (contains_path-append rs p q)
]

-- No path is listed twice.
abbrev pub IsDistinct : List (List ℕ) → Type 0
IsDistinct [] = Unit
IsDistinct (p ∷ ps) = (contains_path ps p ≡ false) × IsDistinct ps

append-IsDistinct :
    (ps : List (List ℕ)) (p : List ℕ)
    → IsDistinct ps
    → contains_path ps p ≡ false
    → IsDistinct (ps ++ (p ∷ []))
append-IsDistinct [] p d h = (h, tt)
append-IsDistinct (r ∷ rs) p d h =
    let (apart, rest) =
      or_false (string_eq p r) (contains_path rs p) (sym (contains_path-cons r rs p) ∙ h) in
    (
      contains_path-append rs p r ∙ rw (d.0, string_eq-sym r p) apart,
      append-IsDistinct rs p d.1 rest,
    )

-- A path that is there is not added again, which makes no difference to what is there.
absorb :
    (sources ps : List (List ℕ)) (p q : List ℕ)
    → contains_path sources p ≡ true
    → contains_path sources q || contains_path ps q
      ≡ contains_path sources q || contains_path (p ∷ ps) q
absorb sources ps p q h = elim (Bool-cases (string_eq q p)) [
  | inl same ↦
      let e : contains_path sources q ≡ true =
        ap (contains_path sources) (string_eq-same q p same) ∙ h in
      rw e refl
  | inr other ↦ rw (contains_path-cons p ps q, other) refl
]

add_sources_lem :
    (sources ps : List (List ℕ))
    → IsDistinct sources
    → IsDistinct (add_sources sources ps)
      × ((q : List ℕ)
          → contains_path (add_sources sources ps) q
            ≡ contains_path sources q || contains_path ps q)
unfolding add_sources contains_path
add_sources_lem sources [] d = (d, λ q. sym (or-false (contains_path sources q)))
add_sources_lem sources (p ∷ ps) d = elim (Bool-cases (contains_path sources p)) [
  | inl there ↦
      let (d', same) = add_sources_lem sources ps d in
      rw there (d', λ q. same q ∙ absorb sources ps p q there)
  | inr new ↦
      let (d', same) =
        add_sources_lem (sources ++ (p ∷ [])) ps (append-IsDistinct sources p d new) in
      rw new (
        d',
        λ q.
            same q
            ∙ rw (contains_path-append sources p q, contains_path-cons p ps q)
                (or_assoc (contains_path sources q) (string_eq q p) (contains_path ps q)),
      )
]

-- The path of a source of some unit.
pub any_source : List CompileUnit → List ℕ → Bool
any_source [] q = false
any_source (unit ∷ units) q = contains_path unit.source_paths q || any_source units q

-- The list of all sources, begun with distinct paths, has no path twice, and holds exactly the paths that it was
-- begun with and those of the units.
pub get_source_info_lem :
    (sources : List (List ℕ)) (units : List CompileUnit)
    → IsDistinct sources
    → IsDistinct (get_source_info sources units)
      × ((q : List ℕ)
          → contains_path (get_source_info sources units) q
            ≡ contains_path sources q || any_source units q)
unfolding get_source_info any_source
get_source_info_lem sources [] d = (d, λ q. sym (or-false (contains_path sources q)))
get_source_info_lem sources (unit ∷ units) d =
    let (d', same) = add_sources_lem sources unit.source_paths d in
    let (d'', all) = get_source_info_lem (add_sources sources unit.source_paths) units d' in
    (
      d'',
      λ q.
          all q
          ∙ rw (same q) (
              or_assoc (contains_path sources q) (contains_path unit.source_paths q)
                (any_source units q)),
    )
