-- ===== src/Dwarf/Info/Decode/Laws.antt =====
-- The value of an attribute is read from bytes that there are.
use t89emu.Common.{
  ℕ, zero, suc, ◌≤◌, ◌<◌, refl, arith, ◌==◌, ◌||◌, if◌then◌else◌, Option, Ensures, Ensures_trivial,
  [], ◌∷◌, length, drop,
}
use t89emu.Dwarf.DataStream.{
  DataStream, decode_uint8, decode_uint16, decode_uint32, decode_uleb128, decode_leb128,
}
use t89emu.Dwarf.DataStream.Within.{
  Within, Within-trans, decode_uint8-Within, decode_uint16-Within, decode_uint32-Within,
  decode_uleb128-Within, decode_leb128-Within, length-drop, inside_of,
}
use t89emu.Dwarf.Encoding.Form
use t89emu.Result.{Result, ◌>>=◌, lift, Ends, Ends-bind, Ends-lift, Ends-mono, Ends-if, Ends-option}
use t89emu.Dwarf.StringTable.{c_string, get_string, c_string-length}
use t89emu.Dwarf.Info.{DebugData, contains, write}
use t89emu.Dwarf.Info.Abbrev.{AttributeEntry}
use t89emu.Dwarf.Info.Decode.{
  StringTables, read_block, read_string, fixed_size, decode_variable, decode_info, unsigned_forms,
}

abbrev Moves : DataStream → DebugData × DataStream → Type 0
Moves s r = Within 0 s r.1

pub Within-refl : (s : DataStream) → s.index ≤ length s.bytes → Within 0 s s
Within-refl s h = record { moved = omega arith; inside = h; bytes_same = refl; len_same = refl }

read_block-Moves :
    (n : ℕ) (data' : DebugData) (s : DataStream)
    → s.index ≤ length s.bytes
    → Ends (Moves s) (read_block n data' s)
unfolding read_block
read_block-Moves zero data' s h = Within-refl s h
read_block-Moves (suc n) data' s h =
    Ends-bind (λ r. Within 1 s r.1) (Moves s) (lift (decode_uint8 s)) _
      (Ends-lift _ (decode_uint8 s) (decode_uint8-Within s))
      λ r k.
        Ends-mono (Moves r.1) (Moves s) (read_block n (write data' (r.0 ∷ [])) r.1)
          (λ q m. Within-trans k m (omega arith))
          (read_block-Moves n (write data' (r.0 ∷ [])) r.1 (inside_of k))

read_string-Moves : (data' : DebugData) (s : DataStream) → Ends (Moves s) (read_string data' s)
unfolding read_string
read_string-Moves data' s =
    Ends-bind (λ str. length str < length (drop s.index s.bytes)) (Moves s)
      (lift (c_string (drop s.index s.bytes))) _
      (Ends-lift _ (c_string (drop s.index s.bytes)) (c_string-length (drop s.index s.bytes)))
      λ str h. record {
        moved = omega arith;
        inside = omega (arith, length-drop s.index s.bytes);
        bytes_same = refl;
        len_same = refl;
      }

-- A size, then a block; or a number as eight bytes.
sized :
    (s : DataStream) (m : Option (ℕ × DataStream))
    (f : ℕ × DataStream → Result (DebugData × DataStream))
    → Ensures (λ r. Within 1 s r.1) m
    → ((v : ℕ) (t : DataStream) → t.index ≤ length t.bytes → Ends (Moves t) (f (v, t)))
    → Ends (Moves s) (lift m >>= f)
sized s m f h k =
    Ends-bind (λ r. Within 1 s r.1) (Moves s) (lift m) f (Ends-lift _ m h)
      λ r w.
        Ends-mono (Moves r.1) (Moves s) (f r) (λ q x. Within-trans w x (omega arith))
          (k r.0 r.1 (inside_of w))

decode_variable-Moves :
    (tables : StringTables) (entry : AttributeEntry) (s : DataStream)
    → s.index ≤ length s.bytes
    → Ends (Moves s) (decode_variable tables entry s)
unfolding decode_variable
decode_variable-Moves tables entry s h =
    let P = Moves s in
    let d : DebugData = record { bytes = []; form = entry.form } in
    let ifs = Ends-if P in
    ifs (entry.form == Form.block || entry.form == Form.exprloc) _ _
      (λ _. sized s (decode_uleb128 s) _ (decode_uleb128-Within s) λ v t. read_block-Moves v d t)
      λ _.
        ifs (entry.form == Form.block1) _ _
          (λ _. sized s (decode_uint8 s) _ (decode_uint8-Within s) λ v t. read_block-Moves v d t)
          λ _.
            ifs (entry.form == Form.block2) _ _
              (λ _.
                sized s (decode_uint16 s) _ (decode_uint16-Within s) λ v t. read_block-Moves v d t)
              λ _.
                ifs (entry.form == Form.block4) _ _
                  (λ _.
                    sized s (decode_uint32 s) _ (decode_uint32-Within s)
                      λ v t. read_block-Moves v d t)
                  λ _.
                    ifs (entry.form == Form.sdata) _ _
                      (λ _.
                        sized s (decode_leb128 s) _ (decode_leb128-Within s) λ v t. Within-refl t)
                      λ _.
                        ifs (contains unsigned_forms entry.form) _ _
                          (λ _.
                            sized s (decode_uleb128 s) _ (decode_uleb128-Within s)
                              λ v t. Within-refl t)
                          λ _.
                            ifs (entry.form == Form.strp || entry.form == Form.line_strp) _ _
                              (λ _. sized s (decode_uint32 s) _ (decode_uint32-Within s) λ v t i.
                                Ends-bind (λ _. Unit {0}) (Moves t)
                                  (lift (
                                    get_string
                                      (if entry.form == Form.strp
                                        then tables.debug_str
                                        else tables.debug_line_str)
                                      v))
                                  _ (Ends-lift (λ _. Unit {0}) _ (Ensures_trivial _))
                                  (λ str _. Within-refl t i))
                              λ _.
                                ifs (entry.form == Form.string) _ _ (λ _. read_string-Moves d s)
                                  λ _.
                                    ifs (entry.form == Form.implicit_const) _ _
                                      (λ _. Within-refl s h) (λ _. tt)

pub decode_info-Moves :
    (tables : StringTables) (address_size : ℕ) (entry : AttributeEntry) (s : DataStream)
    → s.index ≤ length s.bytes
    → Ends (λ r. Within 0 s r.1) (decode_info tables address_size entry s)
unfolding decode_info
decode_info-Moves tables address_size entry s h =
    Ends-option (Moves s) (fixed_size address_size entry.form) _ _
      (decode_variable-Moves tables entry s h)
      (λ n. read_block-Moves n (record { bytes = []; form = entry.form }) s h)
