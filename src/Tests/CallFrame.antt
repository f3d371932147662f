-- ===== src/Tests/CallFrame.antt =====
-- Frame rules on concrete entries.
use t89emu.Common.{ℕ, ◌≢◌, arith, some, [], ◌∷◌, false}
use t89emu.Dwarf.CallFrame.{CommonInfoEntry, FrameDescriptEntry, CallFrameInfo}
use t89emu.Dwarf.CallFrame.Parse
use t89emu.Dwarf.CallFrame.Parse.{generate_frame_info}
use t89emu.Dwarf.CallFrame.Progress.{generate_frame_info_ends}
use t89emu.Dwarf.CallFrame.Table.{VirtTable, cfi_undefined, process_instructions, out_of_fuel}
use t89emu.Dwarf.CallFrame.Laws.{process_instructions_ends}

abbrev entry_at : ℕ → FrameDescriptEntry
entry_at a = record {
  length = 16;
  cie_pointer = 0;
  initial_location = a;
  address_range = 16;
  instructions = some (0x44 ∷ 0x0e ∷ 16 ∷ []);
  instructions_block_size = 3;
}

abbrev common : CommonInfoEntry
common = record {
  length = 12;
  cie_id = 0xffffffff;
  version = 1;
  augmentation = [];
  code_alignment_factor = 1;
  data_alignment_factor = 0xfffffffffffffffc;
  return_address_register = 1;
  initial_instructions = some (0x0c ∷ 2 ∷ 0 ∷ []);
  instructions_block_size = 3;
}

abbrev pub info : CallFrameInfo
info = record {
  cies = λ _. some common;
  fdes = entry_at 0x100 ∷ entry_at 0x110 ∷ [];
  cfi_stream = record { bytes = []; index = 0; stream_len = 0 };
}

abbrev start : VirtTable
start = record {
  rows = [];
  back = record {
    is_cfa_loc_expr = false;
    reg_num = 0;
    reg_offset_or_location = 0x100;
    reg_rules = λ _. record { value = 0; cfi_rule = cfi_undefined };
  };
}

process_instructions_ends_example :
    process_instructions 3 common start
      (record { bytes = 0x0c ∷ 2 ∷ 0 ∷ []; index = 0; stream_len = 3 })
    ≢ out_of_fuel
process_instructions_ends_example =
    process_instructions_ends 3 common start
      (record { bytes = 0x0c ∷ 2 ∷ 0 ∷ []; index = 0; stream_len = 3 }) (omega arith)

-- An entry of 4 + 12 bytes that refers to the common entry.
abbrev unread : CallFrameInfo
unread = record info {
  cfi_stream = record {
    bytes = 12 ∷ 0 ∷ 0 ∷ 0 ∷ 0 ∷ 0 ∷ 0 ∷ 0 ∷ 0 ∷ 1 ∷ 0 ∷ 0 ∷ 16 ∷ 0 ∷ 0 ∷ 0 ∷ [];
    index = 0;
    stream_len = 16;
  };
}

generate_frame_info_ends_example : generate_frame_info 16 unread ≢ Parse.out_of_fuel
generate_frame_info_ends_example = generate_frame_info_ends 16 unread (omega arith)
