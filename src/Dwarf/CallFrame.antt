-- ===== src/Dwarf/CallFrame.antt =====
-- t89emu/src/Dwarf/CallFrameInfo.cpp: the entries of .debug_frame and the table of frame rules.
pub mod Table
pub mod Parse
pub mod Laws
pub mod Progress
use t89emu.Common.{
  ℕ, ◌+◌, ◌-◌, ◌*◌, ◌^◌, ◌==◌, ltb, leb, ◌&&◌, Bool, true, false, if◌then◌else◌, Option, none, some,
  List, [], ◌∷◌, u32, u64, add32, drop,
}
use t89emu.Dwarf.DataStream.{DataStream}

-- A pointer to instructions is the bytes from it on; `none` is a null pointer.
pub record CommonInfoEntry : Type 0 where
  pub length : ℕ
  pub cie_id : ℕ
  pub version : ℕ
  pub augmentation : List ℕ
  pub code_alignment_factor : ℕ
  pub data_alignment_factor : ℕ
  pub return_address_register : ℕ
  pub initial_instructions : Option (List ℕ)
  pub instructions_block_size : ℕ

pub record FrameDescriptEntry : Type 0 where
  pub length : ℕ
  pub cie_pointer : ℕ
  pub initial_location : ℕ
  pub address_range : ℕ
  pub instructions : Option (List ℕ)
  pub instructions_block_size : ℕ

pub record CallFrameInfo : Type 0 where
  pub cies : ℕ → Option CommonInfoEntry
  pub fdes : List FrameDescriptEntry
  pub cfi_stream : DataStream

-- `getLen` of either entry: the field of the length itself is included.
unfoldable pub get_len : ℕ → ℕ
get_len length = 4 + length

-- `getData(idx)`.
unfoldable pub get_data : DataStream → ℕ → Option (List ℕ)
get_data s idx = if ltb idx s.stream_len then some (drop idx s.bytes) else none

-- A map with one more entry.
unfoldable pub insert {ℓ} : {A : Type ℓ} → (ℕ → A) → ℕ → A → ℕ → A
insert f k v i = if i == k then v else f i

-- The loop keeps the last entry whose range holds the address.
unfoldable pub holds : FrameDescriptEntry → ℕ → Bool
holds entry l1 =
    leb entry.initial_location l1 && ltb l1 (add32 entry.initial_location entry.address_range)

unfoldable pub find_loop :
    List FrameDescriptEntry → ℕ → Option FrameDescriptEntry → Option FrameDescriptEntry
find_loop [] l1 fde = fde
find_loop (entry ∷ entries) l1 fde =
    find_loop entries l1 (if holds entry l1 then some entry else fde)
