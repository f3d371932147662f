-- ===== src/Dwarf/StringTable.antt =====
-- t89emu/src/Dwarf/StringTable.cpp: strings that end with a 0.
use t89emu.Common.{
  ℕ, ◌<◌, ◌==◌, if◌then◌else◌, Option, none, some, ◌>>=◌, Ensures, Ensures-bind, Ensures-if, List,
  [], ◌∷◌, length, drop, arith,
}

-- The characters up to the first 0; there must be one.
unfoldable pub c_string : List ℕ → Option (List ℕ)
c_string [] = none
c_string (c ∷ cs) =
    let rest = c_string cs in if c == 0 then some [] else (do s ← rest; some (c ∷ s))

-- `getString`; the table is the bytes from its start on. An offset that is negative as an `int` lies behind
-- the table here, in front of it there: neither can be read.
unfoldable pub get_string : List ℕ → ℕ → Option (List ℕ)
unfolding c_string
get_string table offset = c_string (drop offset table)

pub c_string-length : (cs : List ℕ) → Ensures (λ s. length s < length cs) (c_string cs)
unfolding c_string
c_string-length [] = tt
c_string-length (c ∷ cs) =
    let P : List ℕ → Type 0 = λ s. length s < length (c ∷ cs) in
    Ensures-if P (c == 0) _ _ (λ _. omega arith)
      λ _.
        Ensures-bind (λ s. length s < length cs) P (c_string cs) _ (c_string-length cs)
          (λ s h. omega arith)
