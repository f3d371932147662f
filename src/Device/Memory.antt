-- ===== src/Device/Memory.antt =====
-- t89emu/src/MemoryDevice.cpp: a buffer of bytes at a base address. An access that leaves the buffer
-- has no behaviour: `none`.
pub mod Bytes
pub mod Access
use t89emu.Common.{
  ℕ, ◌+◌, ◌%◌, ◌==◌, leb, Bool, true, if◌then◌else◌, Option, none, some, ◌>>=◌, ◌>>◌, add32, sub32,
}
use t89emu.Arch.{byte, halfword, word}
use Bytes.{load_le, store_le}

pub record MemoryDevice : Type 0 where
  pub base_address : ℕ
  pub device_size : ℕ
  pub mem : ℕ → ℕ

-- What a read leaves behind: its status, and the caller's variable, which may still be unwritten.
abbrev pub Answer : Type 0
Answer = ℕ × Option ℕ

unfoldable pub init : ℕ → ℕ → MemoryDevice
init base size = record { base_address = base; device_size = size; mem = λ _. 0 }

unfoldable pub check_alignment : ℕ → ℕ → Bool
check_alignment addr size =
    if size == word
    then addr % word == 0
    else if size == halfword
    then addr % halfword == 0
    else if size == byte
    then true
    else true

-- The offset into the buffer; the subtraction wraps around.
unfoldable pub get_address : MemoryDevice → ℕ → ℕ
get_address d addr = sub32 addr d.base_address

unfoldable pub get_end_address : MemoryDevice → ℕ
get_end_address d = add32 d.base_address d.device_size

-- `*((uintN_t *)getAddress(addr))` as a value, for N = 8 * count.
unfoldable pub peek : MemoryDevice → ℕ → ℕ → Option ℕ
unfolding get_address
peek d count addr =
    let offset = get_address d addr in
    if leb (offset + count) d.device_size then some (load_le count d.mem offset) else none

-- `*((uintN_t *)getAddress(addr)) = value`.
unfoldable pub poke : MemoryDevice → ℕ → ℕ → ℕ → Option MemoryDevice
unfolding get_address
poke d count addr value =
    let offset = get_address d addr in
    if leb (offset + count) d.device_size
    then some (record d { mem = store_le count d.mem offset value })
    else none

-- The `switch` of a read whose cases end in no `break`: each case runs on into the next.
unfoldable pub peek_fall_through : MemoryDevice → ℕ → ℕ → Option ℕ → Option (Option ℕ)
peek_fall_through d size addr old =
    if size == byte
    then (do peek d byte addr; peek d halfword addr; v ← peek d word addr; some (some v))
    else if size == halfword
    then (do peek d halfword addr; v ← peek d word addr; some (some v))
    else if size == word
    then (do v ← peek d word addr; some (some v))
    else some old

-- The `switch` of a read whose cases end in `break`.
unfoldable pub peek_sized : MemoryDevice → ℕ → ℕ → Option ℕ → Option (Option ℕ)
peek_sized d size addr old =
    if size == byte
    then (do v ← peek d byte addr; some (some v))
    else if size == halfword
    then (do v ← peek d halfword addr; some (some v))
    else if size == word
    then (do v ← peek d word addr; some (some v))
    else some old

-- The `switch` of a write.
unfoldable pub poke_sized : MemoryDevice → ℕ → ℕ → ℕ → Option MemoryDevice
poke_sized d size addr value =
    if size == byte
    then poke d byte addr value
    else if size == halfword
    then poke d halfword addr value
    else if size == word
    then poke d word addr value
    else some d
