-- ===== src/Tests/Dwarf.antt =====
-- The decoders and the line number program on concrete bytes.
use t89emu.Common.{
  ℕ, ◌+◌, ◌-◌, ◌*◌, ◌/◌, ◌%◌, ◌^◌, ◌≡◌, ◌⊎◌, refl, arith, ◌==◌, if◌then◌else◌, true, false, some,
  [], ◌∷◌, ◌++◌,
}
use t89emu.Dwarf.DataStream.{DataStream, decode_uleb128, decode_leb128, is_streamable}
use t89emu.Dwarf.DataStream.Leb.{leb_value, last_byte, decode_uleb128_lem, decode_leb128_lem}
use t89emu.Dwarf.LineNumber.{ProgramHeader, LineNumberInfo, LineEntry, signed_byte, clear_registers}
use t89emu.Dwarf.LineNumber.Laws.{special_lem}
use t89emu.Dwarf.LineNumber.Progress.{Extends, generate_line_number_matrix_lem}
use t89emu.Dwarf.LineNumber.Step.{special, generate_line_number_matrix, done, fault}

-- 624485 = 0xe5 0x8e 0x26, behind one byte.
decode_uleb128_lem_example :
    let s : DataStream = record {
      bytes = 7 ∷ 0xe5 ∷ 0x8e ∷ 0x26 ∷ 9 ∷ [];
      index = 1;
      stream_len = 5;
    } in
    decode_uleb128 s ≡ some (leb_value (0xe5 ∷ 0x8e ∷ 0x26 ∷ []), record s { index = 4 })
decode_uleb128_lem_example =
    decode_uleb128_lem 0xe5 (0x8e ∷ 0x26 ∷ []) (7 ∷ []) (9 ∷ []) 5
      (omega arith, omega arith, (omega arith, omega arith, omega arith)) (omega arith)
      (unfold leb_value in omega arith)

three_groups : leb_value (0xe5 ∷ 0x8e ∷ 0x26 ∷ []) ≡ 624485
unfolding leb_value
three_groups = refl

-- -2 = 0x7e.
decode_leb128_lem_example :
    let s : DataStream = record { bytes = 0x7e ∷ []; index = 0; stream_len = 1 } in
    decode_leb128 s
    ≡ some (
      if last_byte 0x7e [] / 64 % 2 == 0
          then leb_value (0x7e ∷ [])
          else leb_value (0x7e ∷ []) + (2 ^ 64 - 2 ^ 7),
      record s { index = 1 },
    )
decode_leb128_lem_example = decode_leb128_lem 0x7e [] [] [] 1 (omega arith) (omega arith)

-- Lines from -5 on, 14 of them; special opcodes from 13 on.
abbrev header : ProgramHeader
header = record {
  minimum_instruction_length = 2;
  maximum_operations_per_instruction = 1;
  default_is_stmt = 1;
  line_base = 0xfb;
  line_range = 14;
  opcode_base = 13;
}

-- One special opcode, then the end of the sequence.
abbrev info : LineNumberInfo
info = record {
  registers = clear_registers header;
  line_matrix = [];
  stream = record { bytes = 0x4b ∷ 0 ∷ 1 ∷ 1 ∷ []; index = 0; stream_len = 4 };
}

generate_line_number_matrix_lem_example :
    (generate_line_number_matrix 4 header info ≡ fault)
    ⊎ ((s' : LineNumberInfo) × (generate_line_number_matrix 4 header info ≡ done s')
        × (is_streamable s'.stream ≡ false)
        × Extends 0 info s')
generate_line_number_matrix_lem_example =
    generate_line_number_matrix_lem 4 header info (omega arith)

special_lem_example :
    (s' : LineNumberInfo) × (special header (6 + 4 * 14 + 13) info ≡ some s')
    × (s'.registers.address ≡ (info.registers.address + 2 * 4) % 2 ^ 32)
    × (s'.registers.op_index ≡ 0)
    × (s'.registers.line ≡ (info.registers.line + (signed_byte 0xfb + 6)) % 2 ^ 32)
    × ((row : LineEntry) × (s'.line_matrix ≡ [] ++ (row ∷ []))
        × (row.address ≡ s'.registers.address)
        × (row.line ≡ s'.registers.line))
special_lem_example =
    special_lem header info 6 4 refl (unfold clear_registers in refl) (omega arith) (omega arith)

abbrev row_at : ℕ → ℕ → LineEntry
row_at a n = record {
  address = a;
  line = n;
  column = 0;
  file = 1;
  is_stmt = true;
  prologue_end = false;
  epilogue_begin = false;
}
