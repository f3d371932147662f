-- ===== src/Dwarf/DataStream.antt =====
-- t89emu/src/Dwarf/DataStream.cpp: a position in a sequence of bytes. `bytes` holds the bytes from the
-- pointer on that may be read; to read behind them has no behaviour: `none`.
pub mod Leb
pub mod Within
use t89emu.Common.{
  ℕ, ◌+◌, ◌-◌, ◌*◌, ◌^◌, ◌==◌, ltb, Bool, true, false, ◌&&◌, if◌then◌else◌, Option, none, some,
  ◌>>=◌, List, [], ◌∷◌, get_elem?, drop, bit_and, bit_or, u32, ◌<<<◌,
}

pub record DataStream : Type 0 where
  pub bytes : List ℕ
  pub index : ℕ
  pub stream_len : ℕ

unfoldable pub decode_uint8 : DataStream → Option (ℕ × DataStream)
decode_uint8 s = do res ← get_elem? s.bytes s.index; some (res, record s { index = s.index + 1 })

unfoldable pub decode_uint16 : DataStream → Option (ℕ × DataStream)
decode_uint16 s = do
  b0 ← get_elem? s.bytes s.index
  b1 ← get_elem? s.bytes (s.index + 1)
  some (bit_or b0 (b1 <<< 8), record s { index = s.index + 2 })

unfoldable pub decode_uint32 : DataStream → Option (ℕ × DataStream)
decode_uint32 s = do
  b0 ← get_elem? s.bytes s.index
  b1 ← get_elem? s.bytes (s.index + 1)
  b2 ← get_elem? s.bytes (s.index + 2)
  b3 ← get_elem? s.bytes (s.index + 3)
  some (
    bit_or (bit_or (bit_or b0 (b1 <<< 8)) (b2 <<< 16)) (b3 <<< 24),
    record s { index = s.index + 4 },
  )

-- `v << shift` on an `int`, as a 64-bit word: it has no behaviour for a shift by 32 or more and where
-- the product does not fit in 32 digits; a product with the sign digit is a negative number.
unfoldable pub int_shift : ℕ → ℕ → Option ℕ
int_shift v shift =
    if ltb shift 32 && ltb (v * 2 ^ shift) (2 ^ 32)
    then some
        (if ltb (v * 2 ^ shift) (2 ^ 31) then v * 2 ^ shift else v * 2 ^ shift + (2 ^ 64 - 2 ^ 32))
    else none

-- The loop over the remaining bytes: the result, the last byte, the shift of the last byte and the number of
-- bytes read.
unfoldable pub leb_loop : List ℕ → ℕ → ℕ → ℕ → Option (ℕ × ℕ × ℕ × ℕ)
leb_loop [] shift result count = none
leb_loop (byte ∷ bytes) shift result count = int_shift (bit_and byte 0x7f) shift >>= λ part.
    elim (bit_and byte 0x80 == 0) [
      | true ↦ some (bit_or result part, byte, shift, count + 1)
      | false ↦ leb_loop bytes (shift + 7) (bit_or result part) (count + 1)
    ]

unfoldable pub decode_uleb128 : DataStream → Option (ℕ × DataStream)
decode_uleb128 s = do
  (result, _, _, count) ← leb_loop (drop s.index s.bytes) 0 0 0
  some (result, record s { index = s.index + count })

-- The sign: `-(1 << shift)` on an `int`, as a 64-bit word.
unfoldable pub decode_leb128 : DataStream → Option (ℕ × DataStream)
decode_leb128 s = do
  (result, byte, last_shift, count) ← leb_loop (drop s.index s.bytes) 0 0 0
  let shift = last_shift + 7
  let s' = record s { index = s.index + count }
  if bit_and byte 0x40 == 0
      then some (result, s')
      else if ltb shift 31
      then some (bit_or result (2 ^ 64 - 2 ^ shift), s')
      else none

unfoldable pub is_streamable : DataStream → Bool
is_streamable s = ltb s.index s.stream_len
