-- ===== src/Dwarf/LineNumber/Step.antt =====
-- One round of the loop in `generateLineNumberMatrix`, and the loop.
use t89emu.Common.{
  ℕ, zero, suc, ◌+◌, ◌-◌, ◌%◌, ◌==◌, leb, not, true, false, if◌then◌else◌, Option, none, some,
  ◌>>=◌, u32, add32,
}
use t89emu.Dwarf.DataStream.{
  decode_uint8, decode_uint16, decode_uint32, decode_uleb128, decode_leb128, is_streamable,
}
use t89emu.Dwarf.LineNumber.{
  ProgramHeader, Registers, LineNumberInfo, signed_byte, divide, clear_registers, advance,
  push_entry,
}
use t89emu.Dwarf.LineNumber.Opcode

unfoldable pub special : ProgramHeader → ℕ → LineNumberInfo → Option LineNumberInfo
special h opcode s = do
  let adjusted_opcode = opcode - h.opcode_base
  operation_advance ← divide adjusted_opcode h.line_range
  r ← advance h s.registers operation_advance
  let r' = record r {
    line = add32 r.line (u32 (signed_byte h.line_base + adjusted_opcode % h.line_range));
  }
  some (record s {
    line_matrix = push_entry r' s.line_matrix;
    registers = record r' {
      basic_block = false;
      prologue_end = false;
      epilogue_begin = false;
      discriminator = 0;
    };
  })

-- Change the registers only.
unfoldable pub with_registers : LineNumberInfo → Registers → Option LineNumberInfo
with_registers s r = some (record s { registers = r })

-- A ULEB128 operand as a `uint`, and the state behind it.
unfoldable pub operand : LineNumberInfo → Option (ℕ × LineNumberInfo)
operand s = do (v, stream) ← decode_uleb128 s.stream; some (u32 v, record s { stream = stream })

unfoldable pub standard : ProgramHeader → ℕ → LineNumberInfo → Option LineNumberInfo
unfolding with_registers operand
standard h opcode s =
    let r = s.registers in
    if opcode == Opcode.copy
    then some (record s {
      line_matrix = push_entry r s.line_matrix;
      registers = record r {
        discriminator = 0;
        basic_block = false;
        prologue_end = false;
        epilogue_begin = false;
      };
    })
    else if opcode == Opcode.advance_pc
    then (do (v, s') ← operand s; r' ← advance h r v; with_registers s' r')
    else if opcode == Opcode.advance_line
    then (do
      (v, stream) ← decode_leb128 s.stream
      with_registers (record s { stream = stream }) (record r { line = add32 r.line (u32 v) }))
    else if opcode == Opcode.set_file
    then (do (v, s') ← operand s; with_registers s' (record r { file = v }))
    else if opcode == Opcode.set_column
    then (do (v, s') ← operand s; with_registers s' (record r { column = v }))
    else if opcode == Opcode.negate_stmt
    then with_registers s (record r { is_stmt = not r.is_stmt })
    else if opcode == Opcode.set_basic_block
    then with_registers s (record r { basic_block = true })
    else if opcode == Opcode.const_add_pc
    then (do
      operation_advance ← divide (255 - h.opcode_base) h.line_range
      r' ← advance h r operation_advance
      with_registers s r')
    else if opcode == Opcode.fixed_advance_pc
    then (do
      (v, stream) ← decode_uint16 s.stream
      with_registers (record s { stream = stream })
          (record r { address = add32 r.address v; op_index = 0 }))
    else if opcode == Opcode.set_prologue_end
    then with_registers s (record r { prologue_end = true })
    else if opcode == Opcode.set_epilogue_end
    then with_registers s (record r { epilogue_begin = true })
    else if opcode == Opcode.set_isa
    then (do (v, s') ← operand s; with_registers s' (record r { isa = v }))
    else some s

-- The length is read and not used.
unfoldable pub extended : ProgramHeader → LineNumberInfo → Option LineNumberInfo
unfolding with_registers operand
extended h s0 = do
  (_, s1) ← operand s0
  (opcode, stream) ← decode_uint8 s1.stream
  let s = record s1 { stream = stream }
  let r = s.registers
  if opcode == Opcode.end_sequence
      then some
          (record s { line_matrix = push_entry r s.line_matrix; registers = clear_registers h })
      else if opcode == Opcode.set_address
      then (do
        (v, stream') ← decode_uint32 s.stream
        with_registers (record s { stream = stream' }) (record r { address = v; op_index = 0 }))
      else if opcode == Opcode.set_discriminator
      then (do (v, s') ← operand s; with_registers s' (record r { discriminator = v }))
      else some s

unfoldable pub round : ProgramHeader → LineNumberInfo → Option LineNumberInfo
round h s0 = do
  (opcode, stream) ← decode_uint8 s0.stream
  let s = record s0 { stream = stream }
  if leb h.opcode_base opcode
      then special h opcode s
      else if not (opcode == 0)
      then standard h opcode s
      else extended h s

-- How the loop on fuel ends.
pub data Outcome : Type 0 where
  done : LineNumberInfo → Outcome
  fault out_of_fuel : Outcome

unfoldable pub generate_line_number_matrix : ℕ → ProgramHeader → LineNumberInfo → Outcome
generate_line_number_matrix zero h s = elim (is_streamable s.stream) [
  | true ↦ out_of_fuel
  | false ↦ done s
]
generate_line_number_matrix (suc fuel) h s = elim (is_streamable s.stream) [
  | true ↦ elim (round h s) [ none ↦ fault | some s' ↦ generate_line_number_matrix fuel h s' ]
  | false ↦ done s
]
