-- ===== src/Dwarf/CallFrame/Parse.antt =====
-- The entries of the section: `generateFrameInfo`, `parseCie`, `parseFde`.
use t89emu.Common.{
  ℕ, zero, suc, ◌+◌, ◌-◌, ◌^◌, ◌==◌, true, false, if◌then◌else◌, Option, none, some, ◌>>=◌, List,
  [], ◌∷◌, ◌++◌, u64, drop,
}
use t89emu.Dwarf.DataStream.{
  decode_uint8, decode_uint32, decode_uleb128, decode_leb128, is_streamable,
}
use t89emu.Dwarf.CallFrame.{
  CommonInfoEntry, FrameDescriptEntry, CallFrameInfo, get_len, get_data, insert,
}

-- The bytes up to a 0, and how many were read.
unfoldable pub augmentation_loop : List ℕ → Option (List ℕ × ℕ)
augmentation_loop [] = none
augmentation_loop (c ∷ cs) =
    let rest = augmentation_loop cs in
    if c == 0 then some ([], 1) else (rest >>= λ (r : List ℕ × ℕ). some (c ∷ r.0, r.1 + 1))

-- `getLen() - (getIndex() - offset)` on a `size_t`.
unfoldable block_size : ℕ → ℕ → ℕ → ℕ
block_size length index offset = u64 (get_len length + 2 ^ 64 - (index - offset))

unfoldable pub parse_cie : CallFrameInfo → ℕ → ℕ → ℕ → Option CallFrameInfo
unfolding augmentation_loop block_size
parse_cie c length cie_id debug_frame_offset = do
  (version, s1) ← decode_uint8 c.cfi_stream
  (augmentation, count) ← augmentation_loop (drop s1.index s1.bytes)
  (code_factor, s2) ← decode_uleb128 (record s1 { index = s1.index + count })
  (data_factor, s3) ← decode_leb128 s2
  (return_register, s) ← decode_uleb128 s3
  let cie : CommonInfoEntry = record {
    length = length;
    cie_id = cie_id;
    version = version;
    augmentation = augmentation;
    code_alignment_factor = code_factor;
    data_alignment_factor = data_factor;
    return_address_register = return_register;
    initial_instructions = get_data s s.index;
    instructions_block_size = block_size length s.index debug_frame_offset;
  }
  some (record c {
    cies = elim (c.cies debug_frame_offset) [
      | none ↦ insert c.cies debug_frame_offset (some cie)
      | some old ↦ c.cies
    ];
    cfi_stream = s;
  })

unfoldable pub parse_fde : CallFrameInfo → ℕ → ℕ → Option CallFrameInfo
unfolding block_size
parse_fde c length cie_pointer = do
  let start_idx = c.cfi_stream.index - 8
  (initial_location, s1) ← decode_uint32 c.cfi_stream
  (address_range, s) ← decode_uint32 s1
  let fde : FrameDescriptEntry = record {
    length = length;
    cie_pointer = cie_pointer;
    initial_location = initial_location;
    address_range = address_range;
    instructions = get_data s s.index;
    instructions_block_size = block_size length s.index start_idx;
  }
  some (record c { fdes = c.fdes ++ (fde ∷ []); cfi_stream = s })

unfoldable pub parse_entry : CallFrameInfo → Option CallFrameInfo
unfolding parse_cie parse_fde
parse_entry c = do
  let debug_frame_offset = c.cfi_stream.index
  (length, s1) ← decode_uint32 c.cfi_stream
  (identifier, s2) ← decode_uint32 s1
  let c' = record c { cfi_stream = s2 }
  c'' ←
      if identifier == 0xffffffff
      then parse_cie c' length identifier (s2.index - 8)
      else parse_fde c' length identifier
  some (record c'' {
    cfi_stream = record (c''.cfi_stream) { index = debug_frame_offset + get_len length };
  })

pub data Parsed : Type 0 where
  done : CallFrameInfo → Parsed
  fault out_of_fuel : Parsed

unfoldable pub generate_frame_info : ℕ → CallFrameInfo → Parsed
unfolding parse_entry
generate_frame_info zero c = elim (is_streamable c.cfi_stream) [
  | true ↦ out_of_fuel
  | false ↦ done c
]
generate_frame_info (suc fuel) c = elim (is_streamable c.cfi_stream) [
  | false ↦ done c
  | true ↦ elim (parse_entry c) [ none ↦ fault | some c' ↦ generate_frame_info fuel c' ]
]
