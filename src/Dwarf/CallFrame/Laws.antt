-- ===== src/Dwarf/CallFrame/Laws.antt =====
-- Which entry an address gets, and that the instructions of an entry end.
use t89emu.Common.{
  ℕ, zero, suc, ◌+◌, ◌≤◌, ◌≡◌, ◌≢◌, inl, inr, refl, arith, ◌==◌, not, true, false, Bool-cases,
  if◌then◌else◌, Option, none, some, ◌>>=◌, Ensures, Ensures-bind, Ensures-if, Ensures-mono, List,
  [], ◌∷◌, ◌++◌, All, bit_and, ◌∙◌,
}
use t89emu.State.RegisterFile.{RegisterFile}
use t89emu.Dwarf.DataStream.{DataStream, decode_uint8, decode_uleb128, is_streamable}
use t89emu.Dwarf.LineNumber.Progress.{Reads, Ensures-view, decode_uint8-Reads, decode_uleb128-Reads}
use t89emu.Dwarf.CallFrame.{CommonInfoEntry, FrameDescriptEntry, CallFrameInfo, holds, find_loop}
use t89emu.Dwarf.CallFrame.Table.{
  VirtTable, Progress, onward, exit, primary, secondary, instruction, out_of_fuel,
  process_instructions, generate_virt_table, get_cfa_at_location,
}

find_loop-none :
    (back : List FrameDescriptEntry) (l1 : ℕ) (fde : Option FrameDescriptEntry)
    → All (λ g. holds g l1 ≡ false) back
    → find_loop back l1 fde ≡ fde
unfolding find_loop
find_loop-none [] l1 fde h = refl
find_loop-none (g ∷ back) l1 fde h = rw (h.0, find_loop) (find_loop-none back l1 fde h.1)

-- The search ends with the last entry whose range holds the address, whatever it started from.
find_loop_lem :
    (front back : List FrameDescriptEntry) (f : FrameDescriptEntry) (l1 : ℕ)
    (fde : Option FrameDescriptEntry)
    → holds f l1 ≡ true
    → All (λ g. holds g l1 ≡ false) back
    → find_loop (front ++ (f ∷ back)) l1 fde ≡ some f
unfolding find_loop
find_loop_lem [] back f l1 fde h free = rw (h, find_loop) (find_loop-none back l1 (some f) free)
find_loop_lem (g ∷ front) back f l1 fde h free =
    find_loop_lem front back f l1 (if holds g l1 then some g else fde) h free

-- Two addresses with the same entry get the same frame address, wherever in the entry's range they lie.
get_cfa_at_location_lem :
    (c : CallFrameInfo) (l1 l2 : ℕ) (regs : RegisterFile)
    → find_loop c.fdes l1 none ≡ find_loop c.fdes l2 none
    → get_cfa_at_location c l1 regs ≡ get_cfa_at_location c l2 regs
unfolding get_cfa_at_location generate_virt_table
get_cfa_at_location_lem c l1 l2 regs same = rw (same, get_cfa_at_location, generate_virt_table) refl

-- An instruction that goes on has moved by `n` bytes or more.
abbrev Moves : ℕ → DataStream → Progress → Type 0
Moves n s (onward t s') = Reads n s (0, s')
Moves n s exit = Unit {0}

primary-Moves :
    (cie : CommonInfoEntry) (t : VirtTable) (s : DataStream) (opcode : ℕ)
    → Ensures (Moves 0 s) (primary cie t s opcode)
unfolding primary
primary-Moves cie t s opcode =
    Ensures-if (Moves 0 s) (bit_and opcode 0xc0 == 0x40) _ _ (λ _. (omega arith, refl))
      λ _.
        Ensures-if (Moves 0 s) (bit_and opcode 0xc0 == 0x80) _ _
          (λ _.
            Ensures-bind (Reads 0 s) (Moves 0 s) (decode_uleb128 s) _ (decode_uleb128-Reads s)
              (λ p h. h))
          (λ _. (omega arith, refl))

one_operand :
    (s : DataStream) (f : ℕ × DataStream → Option Progress)
    → ((p : ℕ × DataStream) → Reads 0 s (0, p.1) → Ensures (Moves 0 s) (f p))
    → Ensures (Moves 0 s) (decode_uleb128 s >>= f)
one_operand s f k =
    Ensures-bind (Reads 0 s) (Moves 0 s) (decode_uleb128 s) f (decode_uleb128-Reads s) k

secondary-Moves :
    (t : VirtTable) (s : DataStream) (opcode : ℕ) → Ensures (Moves 0 s) (secondary t s opcode)
unfolding secondary
secondary-Moves t s opcode =
    let M = Moves 0 s in
    Ensures-if M (opcode == 0x00) _ _ (λ _. (omega arith, refl))
      λ _.
        Ensures-if M (opcode == 0x02) _ _
          (λ _.
            Ensures-bind (Reads 1 s) M (decode_uint8 s) _ (decode_uint8-Reads s)
              (λ p h. (omega (arith, h.0), h.1)))
          λ _.
            Ensures-if M (opcode == 0x0c) _ _
              (λ _. one_operand s _ λ p h.
                Ensures-bind (Reads 0 p.1) M (decode_uleb128 p.1) _ (decode_uleb128-Reads p.1)
                  (λ q k. (omega (arith, h.0, k.0), k.1 ∙ h.1)))
              λ _.
                Ensures-if M (opcode == 0x0d) _ _
                  (λ _.
                    Ensures-if M t.back.is_cfa_loc_expr _ _ (λ _. tt)
                      (λ _. one_operand s _ λ p h. h))
                  λ _.
                    Ensures-if M (opcode == 0x0e) _ _
                      (λ _.
                        Ensures-if M t.back.is_cfa_loc_expr _ _ (λ _. tt)
                          (λ _. one_operand s _ λ p h. h))
                      (λ _. tt)

after_byte : (s u : DataStream) (p : Progress) → Reads 1 s (0, u) → Moves 0 u p → Moves 1 s p
after_byte s u (onward t s') h k = (omega (arith, h.0, k.0), k.1 ∙ h.1)
after_byte s u exit h k = tt

instruction-Moves :
    (cie : CommonInfoEntry) (t : VirtTable) (s : DataStream)
    → Ensures (Moves 1 s) (instruction cie t s)
unfolding instruction
instruction-Moves cie t s =
    Ensures-bind (Reads 1 s) (Moves 1 s) (decode_uint8 s) _ (decode_uint8-Reads s) λ p h.
      let go : (m : Option Progress) → Ensures (Moves 0 p.1) m → Ensures (Moves 1 s) m =
        λ m. Ensures-mono (Moves 0 p.1) (Moves 1 s) m (λ q. after_byte s p.1 q h) in
      Ensures-if (Moves 1 s) (not (bit_and p.0 0xc0 == 0)) _ _
        (λ _. go _ (primary-Moves cie t p.1 p.0)) (λ _. go _ (secondary-Moves t p.1 p.0))

-- With a unit of fuel for each byte left, a block of instructions does not run out of it.
pub process_instructions_ends :
    (fuel : ℕ) (cie : CommonInfoEntry) (t : VirtTable) (s : DataStream)
    → s.stream_len ≤ s.index + fuel
    → process_instructions fuel cie t s ≢ out_of_fuel
unfolding process_instructions
process_instructions_ends zero cie t s enough bad =
    let at_end : is_streamable s ≡ false = unfold is_streamable in ground arith in
    cc (let q = rw (at_end, process_instructions) at bad in q)
process_instructions_ends (suc fuel) cie t s enough bad = elim (Bool-cases (is_streamable s)) [
  | inr at_end ↦ cc (let q = rw (at_end, process_instructions) at bad in q)
  | inl more ↦ elim (Ensures-view (Moves 1 s) (instruction cie t s) (instruction-Moves cie t s)) [
    | inl stuck ↦ cc (let q = rw (more, stuck, process_instructions) at bad in q)
    | inr (exit, e, m) ↦ cc (let q = rw (more, e, process_instructions) at bad in q)
    | inr (onward t' s', e, m) ↦
        process_instructions_ends fuel cie t' s' (omega (arith, m.0, m.1))
          (rw (more, e, process_instructions) at bad)
  ]
]
