-- ===== src/Elf/Section.antt =====
-- t89emu/src/ElfParser.cpp: `getSectionHeader`, and the sections that the DWARF parser asks for.
use t89emu.Common.{
  ℕ, zero, suc, ◌+◌, ◌*◌, ◌≡◌, refl, sym, ap, arith, ◌==◌, ==_iff, Bool, true, false, if◌then◌else◌,
  Option, none, some, ◌>>=◌, List, [], ◌∷◌, ◌++◌, length, get_elem?,
}
use t89emu.Elf.{ElfHeader, word_at}

-- `!strncmp(sectionName, name, strlen(name))`: only as many characters are compared as the name has.
unfoldable pub has_prefix : List ℕ → ℕ → List ℕ → Option Bool
has_prefix file at [] = some true
has_prefix file at (c ∷ cs) = do
  let rest = has_prefix file (at + 1) cs
  x ← get_elem? file at
  if x == c then rest else some false

-- Where section header `idx` stands in the file.
unfoldable pub header_place : ElfHeader → ℕ → ℕ
header_place h idx = h.shoff + idx * h.shentsize

-- Whether section `idx` is taken for `name`; its own name stands in the section of names.
unfoldable pub is_named : List ℕ → ElfHeader → List ℕ → ℕ → Option Bool
unfolding header_place has_prefix word_at
is_named file h name idx = do
  names ← word_at file (header_place h h.shstrndx + 16)
  own ← word_at file (header_place h idx)
  has_prefix file (names + own) name

-- The loop from section `idx` on, over `n` sections: the number of the first that is taken; the inner `none` is
-- the null pointer.
unfoldable pub find_section : ℕ → ℕ → List ℕ → ElfHeader → List ℕ → Option (Option ℕ)
unfolding is_named
find_section zero idx file h name = some none
find_section (suc n) idx file h name = do
  let rest = find_section n (idx + 1) file h name
  found ← is_named file h name idx
  if found then some (some idx) else rest

unfoldable pub get_section_header : List ℕ → ElfHeader → List ℕ → Option (Option ℕ)
unfolding find_section
get_section_header file h name = find_section h.shnum 0 file h name

-- ".debug_info"
abbrev pub debug_info_name : List ℕ
debug_info_name = 46 ∷ 100 ∷ 101 ∷ 98 ∷ 117 ∷ 103 ∷ 95 ∷ 105 ∷ 110 ∷ 102 ∷ 111 ∷ []

unfoldable pub is_debuggable : List ℕ → ElfHeader → Option Bool
unfolding get_section_header
is_debuggable file h = do
  found ← get_section_header file h debug_info_name
  some (elim found [ none ↦ false | some _ ↦ true ])

-- The fields `offset` and `size` of a header.
unfoldable pub section_offset : List ℕ → ElfHeader → ℕ → Option ℕ
section_offset file h idx = word_at file (header_place h idx + 16)

unfoldable pub section_length : List ℕ → ElfHeader → ℕ → Option ℕ
section_length file h idx = word_at file (header_place h idx + 20)

get_elem?-middle :
    (front : List ℕ) (c : ℕ) (rest : List ℕ)
    → get_elem? (front ++ (c ∷ rest)) (length front) ≡ some c
get_elem?-middle [] c rest = refl
get_elem?-middle (f ∷ front) c rest = get_elem?-middle front c rest

append-one :
    (front : List ℕ) (c : ℕ) (rest : List ℕ) → front ++ (c ∷ rest) ≡ (front ++ (c ∷ [])) ++ rest
append-one [] c rest = refl
append-one (f ∷ front) c rest = ap (λ t. f ∷ t) (append-one front c rest)

length-one : (front : List ℕ) (c : ℕ) → length (front ++ (c ∷ [])) ≡ length front + 1
length-one [] c = omega arith
length-one (f ∷ front) c = omega (arith, length-one front c)

-- Where the name asked for stands in the file it is found, whatever characters follow: a section is taken for any name
-- that its own name begins with.
pub has_prefix_lem :
    (front name rest : List ℕ)
    → has_prefix (front ++ (name ++ rest)) (length front) name ≡ some true
unfolding has_prefix
has_prefix_lem front [] rest = refl
has_prefix_lem front (c ∷ cs) rest =
    let further : has_prefix ((front ++ (c ∷ [])) ++ (cs ++ rest)) (length (front ++ (c ∷ []))) cs
        ≡ some true =
      has_prefix_lem (front ++ (c ∷ [])) cs rest in
    let next : has_prefix (front ++ (c ∷ (cs ++ rest))) (length front + 1) cs ≡ some true =
      rw (append-one front c (cs ++ rest), sym (length-one front c)) further in
    rw (get_elem?-middle front c (cs ++ rest), (==_iff c c).1 refl) next
