-- ===== src/Dwarf/LineNumber/Progress.antt =====
-- The loop of the line number program ends: every round consumes a byte or more, and only adds entries.
use t89emu.Common.{
  ℕ, zero, suc, ◌+◌, ◌-◌, ◌≤◌, ◌≡◌, ◌⊎◌, inl, inr, refl, ap, ◌∙◌, arith, ◌==◌, ltb, leb, not, false,
  Bool-cases, Option, none, some, ◌>>=◌, Ensures, Ensures-bind, Ensures-if, Ensures_trivial,
  Ensures-mono, List, [], ◌∷◌, ◌++◌, get_elem?, drop, bit_and,
}
use mathlib.Core.List.{append_assoc}
use t89emu.Dwarf.DataStream.{
  DataStream, leb_loop, decode_uint8, decode_uint16, decode_uint32, decode_uleb128, decode_leb128,
  is_streamable,
}
use t89emu.Dwarf.LineNumber.{
  ProgramHeader, Registers, LineNumberInfo, LineEntry, divide, advance, push_entry,
}
use t89emu.Dwarf.LineNumber.Opcode
use t89emu.Dwarf.LineNumber.Step.{
  special, standard, extended, round, with_registers, operand, done, fault,
  generate_line_number_matrix,
}

-- A decoder moves on by `n` bytes or more and keeps the length.
abbrev pub Reads : ℕ → DataStream → ℕ × DataStream → Type 0
Reads n s (v, s') = (s.index + n ≤ s'.index) × (s'.stream_len ≡ s.stream_len)

pub any {ℓ κ μ} :
    {A : Type ℓ} {B : Type κ} (P : B → Type μ) (m : Option A) (f : A → Option B)
    → ((a : A) → Ensures P (f a))
    → Ensures P (m >>= f)
any P m f k = Ensures-bind (λ _. Unit {0}) P m f (Ensures_trivial m) (λ a _. k a)

pub decode_uint8-Reads : (s : DataStream) → Ensures (Reads 1 s) (decode_uint8 s)
unfolding decode_uint8
decode_uint8-Reads s = any (Reads 1 s) (get_elem? s.bytes s.index) _ (λ v. (omega arith, refl))

decode_uint16-Reads : (s : DataStream) → Ensures (Reads 0 s) (decode_uint16 s)
unfolding decode_uint16
decode_uint16-Reads s =
    any (Reads 0 s) (get_elem? s.bytes s.index) _
      λ a. any (Reads 0 s) (get_elem? s.bytes (s.index + 1)) _ λ b. (omega arith, refl)

decode_uint32-Reads : (s : DataStream) → Ensures (Reads 0 s) (decode_uint32 s)
unfolding decode_uint32
decode_uint32-Reads s = any (Reads 0 s) (get_elem? s.bytes s.index) _ λ a.
    any (Reads 0 s) (get_elem? s.bytes (s.index + 1)) _ λ b.
      any (Reads 0 s) (get_elem? s.bytes (s.index + 2)) _
        λ c. any (Reads 0 s) (get_elem? s.bytes (s.index + 3)) _ λ d. (omega arith, refl)

pub decode_uleb128-Reads : (s : DataStream) → Ensures (Reads 0 s) (decode_uleb128 s)
unfolding decode_uleb128
decode_uleb128-Reads s =
    any (Reads 0 s) (leb_loop (drop s.index s.bytes) 0 0 0) _ (λ r. (omega arith, refl))

decode_leb128-Reads : (s : DataStream) → Ensures (Reads 0 s) (decode_leb128 s)
unfolding decode_leb128
decode_leb128-Reads s = any (Reads 0 s) (leb_loop (drop s.index s.bytes) 0 0 0) _ λ r.
    Ensures-if (Reads 0 s) (bit_and r.1 0x40 == 0) _ _ (λ _. (omega arith, refl))
      λ _. Ensures-if (Reads 0 s) (ltb (r.2 + 7) 31) _ _ (λ _. (omega arith, refl)) (λ _. tt)

-- A round that starts at `s` with the byte read has moved on, and has added entries at the end.
pub record Extends (n : ℕ) (s s' : LineNumberInfo) : Type 0 where
  pub moved : s.stream.index + n ≤ s'.stream.index
  pub len_same : s'.stream.stream_len ≡ s.stream.stream_len
  pub added : List LineEntry
  pub matrix_grown : s'.line_matrix ≡ s.line_matrix ++ added

append-[] : (l : List LineEntry) → l ≡ l ++ []
append-[] [] = refl
append-[] (e ∷ l) = ap (λ t. e ∷ t) (append-[] l)

-- The stream and the registers change, the matrix does not.
Extends-of_stream :
    (s s' : LineNumberInfo)
    → Reads 0 s.stream (0, s'.stream)
    → s'.line_matrix ≡ s.line_matrix
    → Extends 0 s s'
Extends-of_stream s s' h e = record {
  moved = h.0;
  len_same = h.1;
  added = [];
  matrix_grown = e ∙ append-[] s.line_matrix;
}

Extends-refl_like :
    (s s' : LineNumberInfo) → s'.stream ≡ s.stream → s'.line_matrix ≡ s.line_matrix → Extends 0 s s'
Extends-refl_like s s' e f = Extends-of_stream s s' (rw e (omega arith, refl)) f

Extends-push :
    (s s' : LineNumberInfo) (r : Registers)
    → Reads 0 s.stream (0, s'.stream)
    → s'.line_matrix ≡ push_entry r s.line_matrix
    → Extends 0 s s'
unfolding push_entry
Extends-push s s' r h e = record { moved = h.0; len_same = h.1; added = _; matrix_grown = e }

operand-Extends :
    (s : LineNumberInfo)
    → Ensures
        (λ p. Reads 0 s.stream (0, p.1.stream) × (p.1.line_matrix ≡ s.line_matrix))
        (operand s)
unfolding operand
operand-Extends s =
    Ensures-bind (Reads 0 s.stream) _ (decode_uleb128 s.stream) _ (decode_uleb128-Reads s.stream)
      (λ p h. (h, refl))

-- What follows an operand.
with_operand :
    (s : LineNumberInfo) (f : ℕ × LineNumberInfo → Option LineNumberInfo)
    → ((p : ℕ × LineNumberInfo)
        → Reads 0 s.stream (0, p.1.stream)
        → p.1.line_matrix ≡ s.line_matrix
        → Ensures (Extends 0 s) (f p))
    → Ensures (Extends 0 s) (operand s >>= f)
with_operand s f k =
    Ensures-bind (λ p. Reads 0 s.stream (0, p.1.stream) × (p.1.line_matrix ≡ s.line_matrix))
      (Extends 0 s) (operand s) f (operand-Extends s) (λ p h. k p h.0 h.1)

special-Extends :
    (h : ProgramHeader) (opcode : ℕ) (s : LineNumberInfo)
    → Ensures (Extends 0 s) (special h opcode s)
unfolding special
special-Extends h opcode s = any (Extends 0 s) (divide (opcode - h.opcode_base) h.line_range) _ λ q.
    any (Extends 0 s) (advance h s.registers q) _ λ r. Extends-push s _ _ (omega arith, refl) refl

standard-Extends :
    (h : ProgramHeader) (opcode : ℕ) (s : LineNumberInfo)
    → Ensures (Extends 0 s) (standard h opcode s)
unfolding standard with_registers
standard-Extends h opcode s =
    let same : (r : Registers) → Extends 0 s (record s { registers = r }) =
      λ r. Extends-refl_like s (record s { registers = r }) refl refl in
    let E = Extends 0 s in
    Ensures-if E (opcode == Opcode.copy) _ _ (λ _. Extends-push s _ _ (omega arith, refl) refl)
      λ _.
        Ensures-if E (opcode == Opcode.advance_pc) _ _
          (λ _.
            with_operand s _
              λ p a b. any E (advance h s.registers p.0) _ λ r. Extends-of_stream s _ a b)
          λ _.
            Ensures-if E (opcode == Opcode.advance_line) _ _
              (λ _.
                Ensures-bind (Reads 0 s.stream) E (decode_leb128 s.stream) _
                  (decode_leb128-Reads s.stream) (λ p a. Extends-of_stream s _ a refl))
              λ _.
                Ensures-if E (opcode == Opcode.set_file) _ _
                  (λ _. with_operand s _ λ p a b. Extends-of_stream s _ a b)
                  λ _.
                    Ensures-if E (opcode == Opcode.set_column) _ _
                      (λ _. with_operand s _ λ p a b. Extends-of_stream s _ a b)
                      λ _.
                        Ensures-if E (opcode == Opcode.negate_stmt) _ _ (λ _. same _)
                          λ _.
                            Ensures-if E (opcode == Opcode.set_basic_block) _ _ (λ _. same _)
                              λ _.
                                Ensures-if E (opcode == Opcode.const_add_pc) _ _
                                  (λ _.
                                    any E (divide (255 - h.opcode_base) h.line_range) _
                                      λ q. any E (advance h s.registers q) _ λ r. same r)
                                  λ _.
                                    Ensures-if E (opcode == Opcode.fixed_advance_pc) _ _
                                      (λ _.
                                        Ensures-bind (Reads 0 s.stream) E (decode_uint16 s.stream) _
                                          (decode_uint16-Reads s.stream)
                                          (λ p a. Extends-of_stream s _ a refl))
                                      λ _.
                                        Ensures-if E (opcode == Opcode.set_prologue_end) _ _
                                          (λ _. same _)
                                          λ _.
                                            Ensures-if E (opcode == Opcode.set_epilogue_end) _ _
                                              (λ _. same _)
                                              λ _.
                                                Ensures-if E (opcode == Opcode.set_isa) _ _
                                                  (λ _.
                                                    with_operand s _
                                                      λ p a b. Extends-of_stream s _ a b)
                                                  λ _. same s.registers

Reads-after : (s t u : DataStream) → Reads 0 s (0, t) → Reads 0 t (0, u) → Reads 0 s (0, u)
Reads-after s t u h k = (omega arith, k.1 ∙ h.1)

extended-Extends : (h : ProgramHeader) (s : LineNumberInfo) → Ensures (Extends 0 s) (extended h s)
unfolding extended with_registers
extended-Extends h s =
    let E = Extends 0 s in
    with_operand s _ λ p a b.
      Ensures-bind (Reads 1 p.1.stream) E (decode_uint8 p.1.stream) _
        (decode_uint8-Reads p.1.stream)
        λ q c.
          let here : Reads 0 s.stream (0, q.1) = (omega arith, c.1 ∙ a.1) in
          Ensures-if E (q.0 == Opcode.end_sequence) _ _
            (λ _. Extends-push s _ p.1.registers here (ap (push_entry p.1.registers) b))
            λ _.
              Ensures-if E (q.0 == Opcode.set_address) _ _
                (λ _.
                  Ensures-bind (Reads 0 q.1) E (decode_uint32 q.1) _ (decode_uint32-Reads q.1)
                    (λ v d. Extends-of_stream s _ (Reads-after s.stream q.1 v.1 here d) b))
                λ _.
                  Ensures-if E (q.0 == Opcode.set_discriminator) _ _
                    (λ _.
                      Ensures-bind
                        (λ v. Reads 0 q.1 (0, v.1.stream) × (v.1.line_matrix ≡ p.1.line_matrix)) E
                        (operand (record p.1 { stream = q.1 })) _
                        (operand-Extends (record p.1 { stream = q.1 }))
                        (λ v d.
                          Extends-of_stream s _ (Reads-after s.stream q.1 v.1.stream here d.0)
                            (d.1 ∙ b)))
                    (λ _. Extends-of_stream s _ here b)

later :
    (s t u : LineNumberInfo)
    → Reads 1 s.stream (0, t.stream)
    → t.line_matrix ≡ s.line_matrix
    → Extends 0 t u
    → Extends 1 s u
later s t u h e x = record {
  moved = omega (arith, x.moved, h.0);
  len_same = x.len_same ∙ h.1;
  added = x.added;
  matrix_grown = x.matrix_grown ∙ ap (λ m. m ++ x.added) e;
}

round-Extends : (h : ProgramHeader) (s : LineNumberInfo) → Ensures (Extends 1 s) (round h s)
unfolding round
round-Extends h s =
    Ensures-bind (Reads 1 s.stream) (Extends 1 s) (decode_uint8 s.stream) _
      (decode_uint8-Reads s.stream)
      λ p a.
        let t : LineNumberInfo = record s { stream = p.1 } in
        let onward : (m : Option LineNumberInfo)
            → Ensures (Extends 0 t) m
            → Ensures (Extends 1 s) m =
          λ m. Ensures-mono (Extends 0 t) (Extends 1 s) m (λ u. later s t u a refl) in
        Ensures-if (Extends 1 s) (leb h.opcode_base p.0) _ _
          (λ _. onward _ (special-Extends h p.0 t))
          λ _.
            Ensures-if (Extends 1 s) (not (p.0 == 0)) _ _ (λ _. onward _ (standard-Extends h p.0 t))
              (λ _. onward _ (extended-Extends h t))

pub Ensures-view {ℓ κ} :
    {A : Type ℓ} (P : A → Type κ) (m : Option A)
    → Ensures P m
    → (m ≡ none) ⊎ ((a : A) × (m ≡ some a) × P a)
Ensures-view P none h = inl refl
Ensures-view P (some a) h = inr (a, refl, h)

Extends-trans : (s t u : LineNumberInfo) → Extends 1 s t → Extends 0 t u → Extends 0 s u
Extends-trans s t u x y = record {
  moved = omega (arith, x.moved, y.moved);
  len_same = y.len_same ∙ x.len_same;
  added = x.added ++ y.added;
  matrix_grown =
      y.matrix_grown
      ∙ ap (λ m. m ++ y.added) x.matrix_grown
      ∙ append_assoc s.line_matrix x.added y.added;
}

-- With a unit of fuel for each byte left, the loop ends: at an instruction that has no defined behaviour, or
-- at the end of the stream, with the entries that were there before still in front.
pub generate_line_number_matrix_lem :
    (fuel : ℕ) (h : ProgramHeader) (s : LineNumberInfo)
    → s.stream.stream_len ≤ s.stream.index + fuel
    → (generate_line_number_matrix fuel h s ≡ fault)
      ⊎ ((s' : LineNumberInfo) × (generate_line_number_matrix fuel h s ≡ done s')
          × (is_streamable s'.stream ≡ false)
          × Extends 0 s s')
unfolding generate_line_number_matrix
generate_line_number_matrix_lem zero h s enough =
    let at_end : is_streamable s.stream ≡ false = unfold is_streamable in ground arith in
    inr (s, rw (at_end, generate_line_number_matrix) refl, at_end, Extends-refl_like s s refl refl)
generate_line_number_matrix_lem (suc fuel) h s enough = elim (Bool-cases (is_streamable s.stream)) [
  | inr at_end ↦
      inr
        (s, rw (at_end, generate_line_number_matrix) refl, at_end, Extends-refl_like s s refl refl)
  | inl more ↦ elim (Ensures-view (Extends 1 s) (round h s) (round-Extends h s)) [
    | inl bad ↦ inl (rw (more, bad, generate_line_number_matrix) refl)
    | inr (t, e, x) ↦
        elim (generate_line_number_matrix_lem fuel h t (omega (arith, x.moved, x.len_same))) [
          | inl bad ↦ inl (rw (more, e, generate_line_number_matrix) bad)
          | inr (u, r, at_end, y) ↦
              inr (u, rw (more, e, generate_line_number_matrix) r, at_end, Extends-trans s t u x y)
        ]
  ]
]
