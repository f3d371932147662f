-- ===== src/Dwarf/LineNumber.antt =====
-- t89emu/src/Dwarf/LineNumberInfo.cpp: the state machine of the line number program, from the end of
-- the program header on, and the lookup by address. A `uint` keeps its 32 digits.
pub mod Opcode
pub mod Header
pub mod Step
pub mod Laws
pub mod Progress
use t89emu.Common.{
  ℕ, zero, suc, ◌+◌, ◌-◌, ◌*◌, ◌/◌, ◌%◌, ◌==◌, ltb, leb, not, ◌&&◌, Bool, true, false,
  if◌then◌else◌, Option, none, some, ◌>>=◌, List, [], ◌∷◌, ◌++◌, u32, add32, ◌^◌,
}
use t89emu.Dwarf.DataStream.{
  DataStream, decode_uint8, decode_uint16, decode_uint32, decode_uleb128, decode_leb128,
  is_streamable,
}

-- The fields that the state machine reads. `line_base` is the byte before its cast to `int8_t`.
pub record ProgramHeader : Type 0 where
  pub minimum_instruction_length : ℕ
  pub maximum_operations_per_instruction : ℕ
  pub default_is_stmt : ℕ
  pub line_base : ℕ
  pub line_range : ℕ
  pub opcode_base : ℕ

pub record LineEntry : Type 0 where
  pub address : ℕ
  pub line : ℕ
  pub column : ℕ
  pub file : ℕ
  pub is_stmt : Bool
  pub prologue_end : Bool
  pub epilogue_begin : Bool

pub record Registers : Type 0 where
  pub address : ℕ
  pub op_index : ℕ
  pub file : ℕ
  pub line : ℕ
  pub column : ℕ
  pub is_stmt : Bool
  pub basic_block : Bool
  pub end_sequence : Bool
  pub prologue_end : Bool
  pub epilogue_begin : Bool
  pub isa : ℕ
  pub discriminator : ℕ

pub record LineNumberInfo : Type 0 where
  pub registers : Registers
  pub line_matrix : List LineEntry
  pub stream : DataStream

-- `(int8_t)` of a byte, added to a `uint`.
unfoldable pub signed_byte : ℕ → ℕ
signed_byte b = if ltb b 128 then b else b + (2 ^ 32 - 2 ^ 8)

-- A division by 0 has no behaviour.
unfoldable pub divide : ℕ → ℕ → Option ℕ
divide a b = if b == 0 then none else some (a / b)

unfoldable pub clear_registers : ProgramHeader → Registers
clear_registers h = record {
  address = 0;
  op_index = 0;
  file = 1;
  line = 1;
  column = 0;
  is_stmt = not (h.default_is_stmt == 0);
  basic_block = false;
  end_sequence = false;
  prologue_end = false;
  epilogue_begin = false;
  isa = 0;
  discriminator = 0;
}

unfoldable pub get_new_address : ProgramHeader → Registers → ℕ → Option ℕ
unfolding divide
get_new_address h r operation_advance = do
  q ← divide (add32 r.op_index operation_advance) h.maximum_operations_per_instruction
  some (add32 r.address (u32 (h.minimum_instruction_length * q)))

unfoldable pub get_new_op_index : ProgramHeader → Registers → ℕ → Option ℕ
get_new_op_index h r operation_advance =
    if h.maximum_operations_per_instruction == 0
    then none
    else some (add32 r.op_index operation_advance % h.maximum_operations_per_instruction)

-- `address = getNewAddress(n); opIndex = getNewOpIndex(n);`
unfoldable pub advance : ProgramHeader → Registers → ℕ → Option Registers
unfolding get_new_address get_new_op_index
advance h r operation_advance = do
  a ← get_new_address h r operation_advance
  i ← get_new_op_index h r operation_advance
  some (record r { address = a; op_index = i })

-- `lineMatrix.push_back(new LineEntry(...))`.
unfoldable pub push_entry : Registers → List LineEntry → List LineEntry
push_entry r matrix =
    matrix
    ++ (record {
      address = r.address;
      line = r.line;
      column = r.column;
      file = r.file;
      is_stmt = r.is_stmt;
      prologue_end = r.prologue_end;
      epilogue_begin = r.epilogue_begin;
    }
        ∷ [])

unfoldable pub get_line_entry_at_pc : List LineEntry → ℕ → Option LineEntry
get_line_entry_at_pc [] pc = none
get_line_entry_at_pc (e ∷ es) pc = if e.address == pc then some e else get_line_entry_at_pc es pc

unfoldable pub get_line_number_at_pc : List LineEntry → ℕ → ℕ
unfolding get_line_entry_at_pc
get_line_number_at_pc matrix pc = elim (get_line_entry_at_pc matrix pc) [
  | none ↦ 0
  | some e ↦ e.line
]
