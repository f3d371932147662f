-- ===== src/Dwarf/LineNumber/Laws.antt =====
-- Special opcodes against the formula of the DWARF manual, and the lookup by address.
use t89emu.Common.{
  ℕ, ◌+◌, ◌-◌, ◌*◌, ◌/◌, ◌%◌, ◌^◌, ◌<◌, ◌≡◌, ◌≢◌, refl, arith, ◌==◌, false, some, List, [], ◌∷◌,
  ◌++◌, All, u32, add32, ◌∙◌,
}
use native.Mathlib.Nat.{add-mul-div_right, add-mul-mod_self_right, div-eq_of_lt, mod-eq_of_lt}
use t89emu.Dwarf.LineNumber.{
  ProgramHeader, Registers, LineNumberInfo, LineEntry, divide, signed_byte, advance,
  get_new_address, get_new_op_index, push_entry, get_line_entry_at_pc, get_line_number_at_pc,
}
use t89emu.Dwarf.LineNumber.Step.{special}

-- The lookup finds the first entry with the address, whatever stands behind it, and answers its line.
get_line_number_at_pc_lem :
    (front back : List LineEntry) (e : LineEntry)
    → All (λ f. f.address ≢ e.address) front
    → get_line_number_at_pc (front ++ (e ∷ back)) e.address ≡ e.line
unfolding get_line_number_at_pc get_line_entry_at_pc
get_line_number_at_pc_lem [] back e h = ground arith
get_line_number_at_pc_lem (f ∷ front) back e h =
    let apart : (f.address == e.address) ≡ false = ground (arith, h.0) in
    rw (apart, get_line_number_at_pc, get_line_entry_at_pc)
      (get_line_number_at_pc_lem front back e h.1)

module _ (h : ProgramHeader) (r : Registers) (l a : ℕ) where
  adjusted : l + a * h.line_range + h.opcode_base - h.opcode_base ≡ l + a * h.line_range
  adjusted = omega arith

  quotient :
      l < h.line_range
      → divide (l + a * h.line_range + h.opcode_base - h.opcode_base) h.line_range ≡ some a
  unfolding divide
  quotient fits =
      let q : (l + a * h.line_range) / h.line_range ≡ a =
        omega (arith, add-mul-div_right l a {z = h.line_range} (omega arith), div-eq_of_lt fits) in
      let positive : (h.line_range == 0) ≡ false = ground arith in rw (adjusted, positive, q) refl

  remainder :
      l < h.line_range → (l + a * h.line_range + h.opcode_base - h.opcode_base) % h.line_range ≡ l
  remainder fits = rw adjusted (add-mul-mod_self_right l a h.line_range ∙ mod-eq_of_lt fits)

  advance_single :
      h.maximum_operations_per_instruction ≡ 1
      → r.op_index ≡ 0
      → a < 2 ^ 32
      → advance h r a
        ≡ some (record r {
          address = add32 r.address (u32 (h.minimum_instruction_length * a));
          op_index = 0;
        })
  unfolding advance get_new_address get_new_op_index divide
  advance_single one first small =
      let whole : add32 0 a ≡ a = omega arith in
      let single : a / 1 ≡ a = omega arith in
      let rest : a % 1 ≡ 0 = omega arith in rw (one, first, whole, single, rest) refl

-- The opcode that the manual gives for a line advance of `line_base + l` and an operation advance of `a`
-- does what it says, on a machine of one operation per instruction: the row has the address moved on by `a`
-- minimal instruction lengths and the line by `line_base + l`, in 32 digits each, and it is appended.
pub special_lem :
    (h : ProgramHeader) (s : LineNumberInfo) (l a : ℕ)
    → h.maximum_operations_per_instruction ≡ 1
    → s.registers.op_index ≡ 0
    → l < h.line_range
    → a < 2 ^ 32
    → (s' : LineNumberInfo) × (special h (l + a * h.line_range + h.opcode_base) s ≡ some s')
      × (s'.registers.address ≡ (s.registers.address + h.minimum_instruction_length * a) % 2 ^ 32)
      × (s'.registers.op_index ≡ 0)
      × (s'.registers.line ≡ (s.registers.line + (signed_byte h.line_base + l)) % 2 ^ 32)
      × ((row : LineEntry) × (s'.line_matrix ≡ s.line_matrix ++ (row ∷ []))
          × (row.address ≡ s'.registers.address)
          × (row.line ≡ s'.registers.line))
unfolding special push_entry
special_lem h s l a one first fits small =
    let r = s.registers in
    let r' : Registers = record r {
      address = add32 r.address (u32 (h.minimum_instruction_length * a));
      op_index = 0;
      line = add32 r.line (u32 (signed_byte h.line_base + l));
    } in
    let s' : LineNumberInfo = record s {
      line_matrix = push_entry r' s.line_matrix;
      registers = record r' {
        basic_block = false;
        prologue_end = false;
        epilogue_begin = false;
        discriminator = 0;
      };
    } in
    (
      s',
      rw (quotient h r l a fits, advance_single h r l a one first small, remainder h r l a fits)
          refl,
      omega arith,
      refl,
      omega arith,
      (_, refl, refl, refl),
    )
