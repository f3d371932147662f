-- ===== src/Elf/Symbol.antt =====
-- t89emu/src/ElfParser.cpp, `generateDisassembledCode`: the symbols that are kept, and the lines of the
-- disassembly.
use t89emu.Common.{
  ℕ, zero, suc, ◌+◌, ◌/◌, ◌≡◌, refl, sym, ap, ◌==◌, ◌||◌, Bool, if◌then◌else◌, Option, none, some,
  List, [], ◌∷◌, ◌++◌, drop, bit_and, add32,
}
use t89emu.Dwarf.StringTable.{c_string}
use t89emu.Dwarf.Parser.{string_eq}
use t89emu.Result.{Result, ok, exited, fault, out_of_fuel, ◌>>=◌, lift}
use t89emu.Elf.Text.{Text, generate_instruction_str}
use t89emu.Elf.{ElfProgramHeader, byte_at, word_at, section_size}

-- The address and the name.
abbrev pub Symbol : Type 0
Symbol = ℕ × List ℕ

-- "$x"
abbrev mapping_name : List ℕ
mapping_name = 36 ∷ 120 ∷ []

-- STT_OBJECT, STT_SECTION and STT_FILE.
unfoldable is_discarded : List ℕ → ℕ → Bool
is_discarded name info =
    let kind = bit_and info 0xf in
    string_eq mapping_name name || string_eq [] name || (kind == 1) || (kind == 3) || (kind == 4)

-- The entries of the symbol table from `at` on, 16 bytes each.
unfoldable read_symbols : ℕ → ℕ → List ℕ → ℕ → Result (List Symbol)
unfolding is_discarded byte_at word_at
read_symbols zero at file strtab = ok []
read_symbols (suc n) at file strtab = do
  let rest = read_symbols n (at + 16) file strtab
  name_offset ← lift (word_at file at)
  value ← lift (word_at file (at + 4))
  name ← lift (c_string (drop (strtab + name_offset) file))
  info ← lift (byte_at file (at + 12))
  symbols ← rest
  ok (if is_discarded name info then symbols else (value, name) ∷ symbols)

unfoldable get_symbol_at_address : List Symbol → ℕ → Option Symbol
get_symbol_at_address [] addr = none
get_symbol_at_address ((a, name) ∷ symbols) addr =
    let rest = get_symbol_at_address symbols addr in if a == addr then some (a, name) else rest

-- A line: a label, or an instruction word with its text.
pub data DisassembledEntry : Type 0 where
  label : ℕ → List ℕ → DisassembledEntry
  instruction : ℕ → ℕ → Text → DisassembledEntry

-- `n` words of a section, from `idx` on.
unfoldable pub section_lines :
    ℕ → ℕ → List Symbol → List ℕ → ElfProgramHeader → Result (List DisassembledEntry)
unfolding get_symbol_at_address word_at
section_lines zero idx symbols file section = ok []
section_lines (suc n) idx symbols file section = do
  let rest = section_lines n (idx + 4) symbols file section
  let address = add32 section.paddr idx
  w ← lift (word_at file (section.offset + idx))
  text ← generate_instruction_str w address
  lines ← rest
  ok (elim (get_symbol_at_address symbols address) [
    | none ↦ instruction address w text ∷ lines
    | some (_, name) ↦ label address name ∷ instruction address w text ∷ lines
  ])

-- A word for each four bytes that are begun.
unfoldable words_of : ElfProgramHeader → ℕ
words_of section = (section_size section + 3) / 4

-- The executable sections, in the order of the file.
unfoldable disassemble :
    List Symbol → List ℕ → List ElfProgramHeader → Result (List DisassembledEntry)
unfolding section_lines words_of
disassemble symbols file [] = ok []
disassemble symbols file (section ∷ sections) = do
  let rest = disassemble symbols file sections
  lines ←
      if bit_and section.flags 1 == 1
      then section_lines (words_of section) 0 symbols file section
      else ok []
  more ← rest
  ok (lines ++ more)

-- The instructions among the lines.
abbrev pub instructions : List DisassembledEntry → List (ℕ × ℕ × Text)
instructions [] = []
instructions (label a name ∷ lines) = instructions lines
instructions (instruction a w text ∷ lines) = (a, w, text) ∷ instructions lines

-- The words of a section with their addresses and texts.
unfoldable pub words_from : ℕ → ℕ → List ℕ → ElfProgramHeader → Result (List (ℕ × ℕ × Text))
words_from zero idx file section = ok []
words_from (suc n) idx file section = do
  let rest = words_from n (idx + 4) file section
  w ← lift (word_at file (section.offset + idx))
  text ← generate_instruction_str w (add32 section.paddr idx)
  words ← rest
  ok ((add32 section.paddr idx, w, text) ∷ words)

-- The lines for one word.
lines_for : ℕ → ℕ → Text → Option Symbol → List DisassembledEntry → List DisassembledEntry
lines_for address w text found lines = elim found [
  | none ↦ instruction address w text ∷ lines
  | some (_, name) ↦ label address name ∷ instruction address w text ∷ lines
]

instructions-lines_for :
    (address w : ℕ) (text : Text) (found : Option Symbol) (lines : List DisassembledEntry)
    → instructions (lines_for address w text found lines) ≡ (address, w, text) ∷ instructions lines
unfolding lines_for
instructions-lines_for address w text none lines = refl
instructions-lines_for address w text (some (a, name)) lines = refl

one_line :
    (address : ℕ) (found : Option Symbol) (lines : Result (List DisassembledEntry)) (w : ℕ)
    (text : Result Text)
    → ((text >>= λ t. lines >>= λ ls. ok (lines_for address w t found ls)) >>= λ ls.
        ok (instructions ls))
      ≡ (text >>= λ t. (lines >>= λ ls. ok (instructions ls)) >>= λ ws. ok ((address, w, t) ∷ ws))
one_line address found (ok ls) w (ok t) = ap ok (instructions-lines_for address w t found ls)
one_line address found exited w (ok t) = refl
one_line address found fault w (ok t) = refl
one_line address found out_of_fuel w (ok t) = refl
one_line address found lines w exited = refl
one_line address found lines w fault = refl
one_line address found lines w out_of_fuel = refl

-- Whatever the symbols, the instructions of a section's lines are its words with their addresses and texts, each
-- once and in order; and there are lines for it exactly if all its words can be read and have a text, while the
-- program exits or stops where it does in reading them and making their texts.
pub section_lines_lem :
    (n idx : ℕ) (symbols : List Symbol) (file : List ℕ) (section : ElfProgramHeader)
    → (section_lines n idx symbols file section >>= λ lines. ok (instructions lines))
      ≡ words_from n idx file section
unfolding section_lines words_from lines_for
section_lines_lem zero idx symbols file section = refl
section_lines_lem (suc n) idx symbols file section =
    rw (sym (section_lines_lem n (idx + 4) symbols file section))
      (by_word (word_at file (section.offset + idx)))
  where
    address : ℕ
    address = add32 section.paddr idx

    lines : Result (List DisassembledEntry)
    lines = section_lines n (idx + 4) symbols file section

    found : Option Symbol
    found = get_symbol_at_address symbols address

    by_word :
        (o : Option ℕ)
        → ((lift o >>= λ w. generate_instruction_str w address >>= λ t.
              lines >>= λ ls. ok (lines_for address w t found ls))
            >>= λ ls. ok (instructions ls))
          ≡ (lift o >>= λ w. generate_instruction_str w address >>= λ t.
              (lines >>= λ ls. ok (instructions ls)) >>= λ ws. ok ((address, w, t) ∷ ws))
    by_word none = refl
    by_word (some w) = one_line address found lines w (generate_instruction_str w address)
