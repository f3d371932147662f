-- ===== src/Dwarf/Variable/Laws.antt =====
-- What is known about a variable after an update.
use t89emu.Common.{
  ℕ, ◌+◌, ◌-◌, ◌*◌, ◌/◌, ◌%◌, ◌^◌, ◌<◌, ◌≡◌, ◌≢◌, ◌∙◌, refl, sym, ap, arith, ◌==◌, not,
  if◌then◌else◌, Bool, true, false, Option, none, some, List, [], ◌∷◌, length, u32, add32,
}
use mathlib.Core.List.{append-nil}
use t89emu.Dwarf.DataStream.{DataStream, decode_uint8, decode_leb128, is_streamable}
use t89emu.Dwarf.DataStream.Leb.{leb_value, last_byte, IsLeb, decode_leb128_lem}
use t89emu.Dwarf.CallFrame.Table.{cfa, get_cfa_at_location}
use t89emu.Dwarf.Encoding.Attribute
use t89emu.Result.{Result, ◌>>=◌, ok, out_of_fuel, Ends, Ends-bind, Ends-ne, Ends-ok, Ends-self}
use t89emu.Dwarf.Info.{DebugData, empty_data, write, get_uint}
use t89emu.Dwarf.Info.Decode.{le_bytes}
use t89emu.Dwarf.Info.Value.{le_value, get_uint_lem, get_uint-Ends}
use t89emu.Dwarf.Expr.{Frame, Machine, push_cfa, operation, run, top, evaluate, frame_base}
use t89emu.Dwarf.Expr.Laws.{
  Finished, evaluate-Ends, evaluate-again, frame_base-Ends, run-done, run-more,
}
use t89emu.Dwarf.Variable.{
  VarInfo, Variable, unknown, update_location, update_value, invalidate, get_var_info,
}

-- The flag is not set.
abbrev NotValid : VarInfo × Variable → Type 0
NotValid (info, w) = (info.is_valid ≢ some true) × (w.var_info.is_valid ≢ some true)

-- Another update of the location does the same, whatever the frame is and whatever is known of the variable.
abbrev Repeats : Frame → Bool × Variable → Type 0
Repeats f (located, v) =
    (info : VarInfo)
    → update_location f (record v { var_info = info })
      ≡ ok (
        located,
        record v {
          var_info = if located then record info { location = v.var_info.location } else info;
        },
      )

-- What an update of the location does: the flag stays, and it can be repeated.
record Located (f : Frame) (v : Variable) (r : Bool × Variable) : Type 0 where
  flag : r.1.var_info.is_valid ≡ v.var_info.is_valid
  repeats : Repeats f r

update_location-Ends : (f f' : Frame) (v : Variable) → Ends (Located f' v) (update_location f v)
unfolding update_location
update_location-Ends f f' v = go v.loc_expr refl
  where
    base : Frame → Option (Result ℕ)
    base g = some (frame_base g (v.parent_entry.attributes Attribute.frame_base))

    go :
        (o : Option DebugData)
        → v.loc_expr ≡ o
        → Ends (Located f' v) (elim o [
          | none ↦ ok (false, v)
          | some expr ↦ evaluate f (base f) v.machine expr >>= λ (location, machine).
              get_uint location >>= λ address. ok (
                true,
                record v {
                  machine = machine;
                  var_info = record (v.var_info) { location = some address };
                },
              )
        ])
    go none e = record { flag = refl; repeats = λ info. cc }
    go (some expr) e =
        Ends-bind (Finished expr) (Located f' v) (evaluate f (base f) v.machine expr) _
          (evaluate-Ends f (base f) v.machine expr
            (frame_base-Ends f (v.parent_entry.attributes Attribute.frame_base)))
          λ r done.
            Ends-bind (λ address. get_uint r.0 ≡ ok address) (Located f' v) (get_uint r.0) _
              (Ends-self (get_uint r.0) (get_uint-Ends r.0))
              λ address u. record {
                flag = refl;
                repeats = λ info. let again = evaluate-again f' (base f') r.1 expr r.0 done in cc;
              }

settled :
    (located : Bool) (v : Variable)
    → v.var_info.is_valid ≢ some true
    → let (valued, w) = if located then update_value v else (false, v) in
      (if not valued then invalidate w else w).var_info.is_valid ≢ some true
unfolding update_value invalidate
settled true v h = h
settled false v h = λ e. cc

get_var_info-Ends :
    (do_update : Bool) (f : Frame) (v : Variable)
    → v.var_info.is_valid ≢ some true
    → Ends NotValid (get_var_info do_update f v)
unfolding get_var_info update_value invalidate
get_var_info-Ends false f v h = (h, h)
get_var_info-Ends true f v h =
    Ends-bind (Located f v) NotValid (update_location f v) _ (update_location-Ends f f v)
      λ r l. let w = settled r.0 r.1 (λ bad. h (sym l.flag ∙ bad)) in (w, w)

get_var_info-again :
    (f f' : Frame) (v : Variable)
    → Ends (λ r. get_var_info true f' r.1 ≡ ok r) (get_var_info true f v)
unfolding get_var_info update_value invalidate
get_var_info-again f f' v =
    Ends-bind (Located f' v) (λ r. get_var_info true f' r.1 ≡ ok r) (update_location f v) _
      (update_location-Ends f f' v) (λ r l. same r.0 r.1 l.repeats)
  where
    same :
        (located : Bool) (w : Variable)
        → Repeats f' (located, w)
        → let (valued, w') = if located then update_value w else (false, w) in
          let x = if not valued then invalidate w' else w' in
          get_var_info true f' x ≡ ok (x.var_info, x)
    same true w rep = rw (rep (record (w.var_info) { value = unknown })) refl
    same false w rep = rw (rep (record (w.var_info) { is_valid = some false })) refl

-- Once an update of a variable has succeeded, every later one answers the same and changes nothing, whatever the
-- frame is by then: the variable is not located again.
pub get_var_info_stale :
    (f f' : Frame) (v w : Variable) (info : VarInfo)
    → get_var_info true f v ≡ ok (info, w)
    → get_var_info true f' w ≡ ok (info, w)
get_var_info_stale f f' v w info e =
    Ends-ok (λ r. get_var_info true f' r.1 ≡ ok r) (get_var_info true f v)
      (get_var_info-again f f' v) e

-- Whatever the frame and the variable, an update ends; and the flag that says whether a variable is valid, which
-- has no value at first, is never set to true.
pub get_var_info_never_valid :
    (do_update : Bool) (f : Frame) (v : Variable)
    → v.var_info.is_valid ≢ some true
    → (get_var_info do_update f v ≢ out_of_fuel)
      × ((info : VarInfo) (w : Variable)
          → get_var_info do_update f v ≡ ok (info, w)
          → (info.is_valid ≢ some true) × (w.var_info.is_valid ≢ some true))
get_var_info_never_valid do_update f v h =
    let ends = get_var_info-Ends do_update f v h in
    (
      Ends-ne NotValid (get_var_info do_update f v) ends,
      λ info w e. Ends-ok NotValid (get_var_info do_update f v) ends e,
    )

-- Four bytes of a word are read back as the word.
get_uint-word : (v : ℕ) → v < 2 ^ 32 → get_uint (write empty_data (le_bytes 4 v)) ≡ ok v
unfolding write le_bytes le_value get_uint
get_uint-word v h =
    get_uint_lem (write empty_data (le_bytes 4 v)) (omega arith)
      (omega arith, (omega arith, (omega arith, (omega arith, tt))))
    ∙ ap ok (omega arith)

-- A frame base of the one operation DW_OP_call_frame_cfa.
frame_base-cfa :
    (f : Frame) (base : ℕ) (form : ℕ)
    → get_cfa_at_location f.cfi f.pc f.regs ≡ cfa base
    → base < 2 ^ 32
    → frame_base f (some (record { bytes = 0x9c ∷ []; form = form })) ≡ ok base
unfolding frame_base evaluate run operation push_cfa top decode_uint8 is_streamable
frame_base-cfa f base form e h = rw e (get_uint-word base h)

-- The number behind DW_OP_fbreg, as a 32-bit word.
abbrev pub frame_offset : ℕ → List ℕ → ℕ
frame_offset b bs = u32 (
    if last_byte b bs / 64 % 2 == 0
    then leb_value (b ∷ bs)
    else leb_value (b ∷ bs) + (2 ^ 64 - 2 ^ (7 * length bs + 7)))

operation-fbreg :
    (f : Frame) (base v : ℕ) (bytes stack : List ℕ) (stream_len : ℕ) (s' : DataStream)
    → decode_leb128 (record { bytes = 0x91 ∷ bytes; index = 1; stream_len = stream_len })
      ≡ some (v, s')
    → operation f
        (some (ok base))
        stack
        (record { bytes = 0x91 ∷ bytes; index = 0; stream_len = stream_len })
      ≡ ok (add32 (u32 v) base ∷ stack, s')
unfolding operation decode_uint8
operation-fbreg f base v bytes stack stream_len s' e = rw e refl

evaluate-fbreg :
    (f : Frame) (base b : ℕ) (bs stack : List ℕ) (form : ℕ)
    → IsLeb b bs
    → length bs < 4
    → let m : Machine = record { stack = stack; index = 0 } in
      evaluate f (some (ok base)) m (record { bytes = 0x91 ∷ b ∷ bs; form = form })
      ≡ ok (
        write empty_data (le_bytes 4 (add32 (frame_offset b bs) base)),
        record { stack = add32 (frame_offset b bs) base ∷ stack; index = 1 + length (b ∷ bs) },
      )
unfolding evaluate top
evaluate-fbreg f base b bs stack form h short =
    let all = length (0x91 ∷ b ∷ bs) in
    let parent = some (ok base) in
    let s : DataStream = record { bytes = 0x91 ∷ b ∷ bs; index = 0; stream_len = all } in
    let s' : DataStream = record s { index = 1 + length (b ∷ bs) } in
    let decoded = rw append-nil at (decode_leb128_lem b bs (0x91 ∷ []) [] all h short) in
    let first = operation-fbreg f base _ (b ∷ bs) stack all s' decoded in
    let more : is_streamable s ≡ true = unfold is_streamable in ground arith in
    let at_end : is_streamable s' ≡ false = unfold is_streamable in ground arith in
    rw
      (run-more (length (b ∷ bs)) f parent stack _ s s' more first
        ∙ run-done (length (b ∷ bs)) f parent _ s' at_end)
      refl

-- The first update of a variable at an offset from the frame base of its function, where that base is the
-- canonical frame address, finds it at that address plus the signed offset, with wrap-around, for an offset of
-- one to four bytes. Nothing but the location, the value and its machine changes: the address is on top of the
-- stack, and the stream stands behind the expression.
pub get_var_info_fbreg :
    (f : Frame) (v : Variable) (base b : ℕ) (bs : List ℕ) (form form' : ℕ)
    → v.loc_expr ≡ some (record { bytes = 0x91 ∷ b ∷ bs; form = form })
    → v.parent_entry.attributes Attribute.frame_base
      ≡ some (record { bytes = 0x9c ∷ []; form = form' })
    → IsLeb b bs
    → length bs < 4
    → get_cfa_at_location f.cfi f.pc f.regs ≡ cfa base
    → base < 2 ^ 32
    → v.machine.index ≡ 0
    → let info : VarInfo = record (v.var_info) {
      location = some (add32 (frame_offset b bs) base);
      value = 63 ∷ 63 ∷ 63 ∷ [];
    } in
      get_var_info true f v
      ≡ ok (
        info,
        record v {
          var_info = info;
          machine = record {
            stack = add32 (frame_offset b bs) base ∷ v.machine.stack;
            index = 1 + length (b ∷ bs);
          };
        },
      )
unfolding get_var_info update_location update_value
get_var_info_fbreg f v base b bs form form' e p h short c small fresh =
    let address = add32 (frame_offset b bs) base in
    rw
      (
        e,
        p,
        frame_base-cfa f base form' c small,
        fresh,
        evaluate-fbreg f base b bs v.machine.stack form h short,
        get_uint-word address (omega arith),
      )
      refl
