-- ===== src/Dwarf/CallFrame/Table.antt =====
-- The table of frame rules: `generateVirtTable`, `processInstructions`, `getCfaAtLocation`.
use t89emu.Common.{
  ℕ, zero, suc, ◌+◌, ◌*◌, ◌==◌, Bool, true, false, not, if◌then◌else◌, Option, none, some, ◌>>=◌,
  List, [], ◌∷◌, ◌++◌, u32, u64, add32, bit_and,
}
use t89emu.State.RegisterFile
use t89emu.State.RegisterFile.{RegisterFile}
use t89emu.Dwarf.DataStream.{DataStream, decode_uint8, decode_uleb128, is_streamable}
use t89emu.Dwarf.CallFrame.{CommonInfoEntry, CallFrameInfo, find_loop, insert}

pub data CfiRule : Type 0 where
  cfi_undefined cfi_same_value cfi_offset cfi_val_offset cfi_register : CfiRule
  cfi_expression cfi_val_expression cfi_architectural : CfiRule

pub record RegRule : Type 0 where
  pub value : ℕ
  pub cfi_rule : CfiRule

-- `regOffset` and `location` are one union, so one field.
pub record TableEntry : Type 0 where
  pub is_cfa_loc_expr : Bool
  pub reg_num : ℕ
  pub reg_offset_or_location : ℕ
  pub reg_rules : ℕ → RegRule

-- The vector of rows, never empty: the rows before the last one, and the last one.
pub record VirtTable : Type 0 where
  pub rows : List TableEntry
  pub back : TableEntry

unfoldable pub front : VirtTable → TableEntry
front t = elim (t.rows) [ [] ↦ t.back | (row ∷ rows) ↦ row ]

unfoldable pub push_back : VirtTable → TableEntry → VirtTable
push_back t row = record { rows = t.rows ++ (t.back ∷ []); back = row }

-- A new row is a copy of the last one at another location.
unfoldable pub new_row : VirtTable → ℕ → VirtTable
unfolding push_back
new_row t delta =
    push_back t
      (record (t.back) { reg_offset_or_location = u32 (t.back.reg_offset_or_location + delta) })

-- How one instruction ends: it goes on, or the program exits with a message.
pub data Progress : Type 0 where
  onward : VirtTable → DataStream → Progress
  exit : Progress

-- The opcodes with an operand in their low digits.
unfoldable pub primary : CommonInfoEntry → VirtTable → DataStream → ℕ → Option Progress
unfolding new_row front
primary cie t s opcode =
    let operand = bit_and opcode 0x4f in
    if bit_and opcode 0xc0 == 0x40
    then some (onward (new_row t (u64 (operand * cie.code_alignment_factor))) s)
    else if bit_and opcode 0xc0 == 0x80
    then (do
      (v, s') ← decode_uleb128 s
      let rule' : RegRule = record (t.back.reg_rules operand) {
        value = u32 (v * cie.data_alignment_factor);
      }
      some (
          onward
            (record t {
              back = record (t.back) { reg_rules = insert t.back.reg_rules operand rule' };
            })
            s'))
    else let rule' : RegRule = record (t.back.reg_rules operand) {
      cfi_rule = ((front t).reg_rules operand).cfi_rule;
    } in
      some (
        onward
          (record t {
            back = record (t.back) { reg_rules = insert t.back.reg_rules operand rule' };
          })
          s)

-- DW_CFA_nop, advance_loc1, def_cfa, def_cfa_register and def_cfa_offset.
unfoldable pub secondary : VirtTable → DataStream → ℕ → Option Progress
unfolding new_row
secondary t s opcode =
    if opcode == 0x00
    then some (onward t s)
    else if opcode == 0x02
    then (do (delta, s') ← decode_uint8 s; some (onward (new_row t delta) s'))
    else if opcode == 0x0c
    then (do
      (r, s') ← decode_uleb128 s
      (o, s'') ← decode_uleb128 s'
      some (
          onward
            (record t {
              back = record (t.back) { reg_num = u32 r; reg_offset_or_location = u32 o };
            })
            s''))
    else if opcode == 0x0d
    then (if t.back.is_cfa_loc_expr then some exit else (do
      (r, s') ← decode_uleb128 s
      some (onward (record t { back = record (t.back) { reg_num = u32 r } }) s')))
    else if opcode == 0x0e
    then (if t.back.is_cfa_loc_expr then some exit else (do
      (o, s') ← decode_uleb128 s
      some (onward (record t { back = record (t.back) { reg_offset_or_location = u32 o } }) s')))
    else some exit

unfoldable pub instruction : CommonInfoEntry → VirtTable → DataStream → Option Progress
instruction cie t s = do
  (opcode, s') ← decode_uint8 s
  if not (bit_and opcode 0xc0 == 0) then primary cie t s' opcode else secondary t s' opcode

pub data Outcome : Type 0 where
  done : VirtTable → Outcome
  exited fault out_of_fuel : Outcome

unfoldable pub process_instructions : ℕ → CommonInfoEntry → VirtTable → DataStream → Outcome
process_instructions zero cie t s = elim (is_streamable s) [ true ↦ out_of_fuel | false ↦ done t ]
process_instructions (suc fuel) cie t s = elim (is_streamable s) [
  | false ↦ done t
  | true ↦ elim (instruction cie t s) [
    | none ↦ fault
    | some exit ↦ exited
    | some (onward t' s') ↦ process_instructions fuel cie t' s'
  ]
]

-- A block of instructions; a null pointer gives none. A unit of fuel for each byte is enough.
unfoldable pub process_block : CommonInfoEntry → Option (List ℕ) → ℕ → VirtTable → Outcome
process_block cie none size t = done t
process_block cie (some bytes) size t =
    process_instructions size cie t (record { bytes = bytes; index = 0; stream_len = size })

unfoldable pub then_process : Outcome → (VirtTable → Outcome) → Outcome
then_process (done t) f = f t
then_process exited f = exited
then_process fault f = fault
then_process out_of_fuel f = out_of_fuel

-- `none` where the source answers `false`.
unfoldable pub generate_virt_table : CallFrameInfo → ℕ → Option Outcome
generate_virt_table c l1 = find_loop c.fdes l1 none >>= λ fde. c.cies fde.cie_pointer >>= λ cie.
    let start : VirtTable = record {
      rows = [];
      back = record {
        is_cfa_loc_expr = false;
        reg_num = 0;
        reg_offset_or_location = fde.initial_location;
        reg_rules = λ _. record { value = 0; cfi_rule = cfi_undefined };
      };
    } in
    some (
      then_process (process_block cie cie.initial_instructions cie.instructions_block_size start)
        (process_block cie fde.instructions fde.instructions_block_size))

-- What the caller gets: `false`, an exit, no behaviour, or the address.
pub data Cfa : Type 0 where
  not_found exits undefined : Cfa
  cfa : ℕ → Cfa

unfoldable pub cfa_of_row : RegisterFile → TableEntry → Cfa
cfa_of_row regs entry = elim (RegisterFile.read regs entry.reg_num) [
  | none ↦ undefined
  | some v ↦ cfa (add32 v entry.reg_offset_or_location)
]

unfoldable pub cfa_of_outcome : RegisterFile → Outcome → Cfa
unfolding cfa_of_row
cfa_of_outcome regs (done t) = cfa_of_row regs t.back
cfa_of_outcome regs exited = exits
cfa_of_outcome regs fault = undefined
cfa_of_outcome regs out_of_fuel = undefined

unfoldable pub get_cfa_at_location : CallFrameInfo → ℕ → RegisterFile → Cfa
get_cfa_at_location c l1 regs = elim (generate_virt_table c l1) [
  | none ↦ not_found
  | some o ↦ cfa_of_outcome regs o
]
