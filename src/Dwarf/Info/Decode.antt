-- ===== src/Dwarf/Info/Decode.antt =====
-- t89emu/src/Dwarf/CompileUnit.cpp, `decodeInfo`: the value of an attribute by its form.
pub mod Laws
use t89emu.Common.{
  ℕ, zero, suc, ◌+◌, ◌/◌, ◌%◌, ◌==◌, ◌||◌, Bool, true, false, if◌then◌else◌, Option, none, some,
  List, [], ◌∷◌, length, drop,
}
use t89emu.Dwarf.DataStream.{
  DataStream, decode_uint8, decode_uint16, decode_uint32, decode_uleb128, decode_leb128,
}
use t89emu.Dwarf.Encoding.Form
use t89emu.Dwarf.StringTable.{c_string, get_string}
use t89emu.Result.{Result, ok, exited, ◌>>=◌, lift}
use t89emu.Dwarf.Info.{DebugData, contains, write}
use t89emu.Dwarf.Info.Abbrev.{AttributeEntry}

-- The bytes from the start of .debug_str and of .debug_line_str on.
pub record StringTables : Type 0 where
  pub debug_str : List ℕ
  pub debug_line_str : List ℕ

-- Bytes of a number, lowest first, as `memcpy` takes them.
unfoldable pub le_bytes : ℕ → ℕ → List ℕ
le_bytes zero v = []
le_bytes (suc n) v = v % 256 ∷ le_bytes n (v / 256)

-- `for (; streamLen > 0; streamLen--)`.
unfoldable pub read_block : ℕ → DebugData → DataStream → Result (DebugData × DataStream)
read_block zero data' s = ok (data', s)
read_block (suc n) data' s = do
  (byte, s') ← lift (decode_uint8 s)
  read_block n (write data' (byte ∷ [])) s'

-- The bytes of a string in the stream, without the 0 behind them, which is read too.
unfoldable pub read_string : DebugData → DataStream → Result (DebugData × DataStream)
read_string data' s = do
  str ← lift (c_string (drop s.index s.bytes))
  ok (write data' str, record s { index = s.index + length str + 1 })

abbrev one_byte_forms : List ℕ
one_byte_forms = Form.data1 ∷ Form.flag ∷ Form.ref1 ∷ Form.strx1 ∷ Form.addrx1 ∷ []

abbrev two_byte_forms : List ℕ
two_byte_forms = Form.data2 ∷ Form.ref2 ∷ Form.strx2 ∷ Form.addrx2 ∷ []

abbrev three_byte_forms : List ℕ
three_byte_forms = Form.strx3 ∷ Form.addrx3 ∷ []

abbrev four_byte_forms : List ℕ
four_byte_forms =
    Form.data4 ∷ Form.ref_addr ∷ Form.ref4 ∷ Form.sec_offset ∷ Form.strx4 ∷ Form.addrx4 ∷ []

abbrev eight_byte_forms : List ℕ
eight_byte_forms = Form.data8 ∷ Form.ref8 ∷ Form.ref_sig8 ∷ []

abbrev pub unsigned_forms : List ℕ
unsigned_forms =
    Form.udata ∷ Form.ref_udata ∷ Form.strx ∷ Form.addrx ∷ Form.loclistx ∷ Form.rnglistx ∷ []

-- The forms of a fixed size.
unfoldable pub fixed_size : ℕ → ℕ → Option ℕ
unfolding contains
fixed_size address_size form =
    if form == Form.addr
    then some address_size
    else if form == Form.flag_present
    then some 0
    else if contains one_byte_forms form
    then some 1
    else if contains two_byte_forms form
    then some 2
    else if contains three_byte_forms form
    then some 3
    else if contains four_byte_forms form
    then some 4
    else if contains eight_byte_forms form
    then some 8
    else if form == Form.data16
    then some 16
    else none

-- The forms that read their size, or another encoding.
unfoldable pub decode_variable :
    StringTables → AttributeEntry → DataStream → Result (DebugData × DataStream)
unfolding contains le_bytes read_block read_string
decode_variable tables entry s =
    let form = entry.form in
    let data' : DebugData = record { bytes = []; form = form } in
    if form == Form.block || form == Form.exprloc
    then (do (n, s') ← lift (decode_uleb128 s); read_block n data' s')
    else if form == Form.block1
    then (do (n, s') ← lift (decode_uint8 s); read_block n data' s')
    else if form == Form.block2
    then (do (n, s') ← lift (decode_uint16 s); read_block n data' s')
    else if form == Form.block4
    then (do (n, s') ← lift (decode_uint32 s); read_block n data' s')
    else if form == Form.sdata
    then (do (v, s') ← lift (decode_leb128 s); ok (write data' (le_bytes 8 v), s'))
    else if contains unsigned_forms form
    then (do (v, s') ← lift (decode_uleb128 s); ok (write data' (le_bytes 8 v), s'))
    else if form == Form.strp || form == Form.line_strp
    then (do
      (offset, s') ← lift (decode_uint32 s)
      str ← lift (
          get_string (if form == Form.strp then tables.debug_str else tables.debug_line_str) offset)
      ok (write data' str, s'))
    else if form == Form.string
    then read_string data' s
    else if form == Form.implicit_const
    then ok (write data' (le_bytes 8 entry.special), s)
    else exited

unfoldable pub decode_info :
    StringTables → ℕ → AttributeEntry → DataStream → Result (DebugData × DataStream)
unfolding fixed_size decode_variable read_block
decode_info tables address_size entry s = elim (fixed_size address_size entry.form) [
  | none ↦ decode_variable tables entry s
  | some n ↦ read_block n (record { bytes = []; form = entry.form }) s
]
