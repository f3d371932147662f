-- ===== src/Dwarf/CallFrame/Progress.antt =====
-- The parsing of .debug_frame ends.
use t89emu.Common.{
  ℕ, zero, suc, ◌+◌, ◌-◌, ◌≤◌, ◌≡◌, ◌≢◌, ◌∙◌, arith, ◌==◌, false, Bool-cases, inl, inr, Option,
  ◌>>=◌, Ensures, Ensures-bind, Ensures-if, drop,
}
use t89emu.Dwarf.DataStream.{
  DataStream, decode_uint8, decode_uint32, decode_uleb128, decode_leb128, is_streamable,
}
use t89emu.Dwarf.DataStream.Within.{
  Within, decode_uint8-Within, decode_uint32-Within, decode_uleb128-Within, decode_leb128-Within,
}
use t89emu.Dwarf.LineNumber.Progress.{any, Ensures-view}
use t89emu.Dwarf.CallFrame.{CallFrameInfo, get_len}
use t89emu.Dwarf.CallFrame.Parse.{
  augmentation_loop, parse_cie, parse_fde, parse_entry, generate_frame_info, out_of_fuel,
}

-- The length of the stream stays.
abbrev Same : ℕ → CallFrameInfo → Type 0
Same len c = c.cfi_stream.stream_len ≡ len

-- A number from a stream of length `len`, and then the rest.
number {ℓ} :
    {A : Type ℓ} {len : ℕ} (s : DataStream) (m : Option (A × DataStream))
    (f : A × DataStream → Option CallFrameInfo)
    → s.stream_len ≡ len
    → Ensures (λ r. Within 1 s r.1) m
    → ((v : A) (t : DataStream) → t.stream_len ≡ len → Ensures (Same len) (f (v, t)))
    → Ensures (Same len) (m >>= f)
number s m f e h k =
    Ensures-bind (λ r. Within 1 s r.1) (Same _) m f h (λ r w. k r.0 r.1 (w.len_same ∙ e))

parse_cie-Same :
    (c : CallFrameInfo) (length cie_id offset len : ℕ)
    → Same len c
    → Ensures (Same len) (parse_cie c length cie_id offset)
unfolding parse_cie
parse_cie-Same c length cie_id offset len e =
    number c.cfi_stream (decode_uint8 c.cfi_stream) _ e (decode_uint8-Within c.cfi_stream)
      λ _ s1 e1. any (Same len) (augmentation_loop (drop s1.index s1.bytes)) _ λ a.
        number _ (decode_uleb128 _) _ e1 (decode_uleb128-Within _) λ _ s2 e2.
          number s2 (decode_leb128 s2) _ e2 (decode_leb128-Within s2)
            λ _ s3 e3. number s3 (decode_uleb128 s3) _ e3 (decode_uleb128-Within s3) (λ _ s e4. e4)

parse_fde-Same :
    (c : CallFrameInfo) (length cie_pointer len : ℕ)
    → Same len c
    → Ensures (Same len) (parse_fde c length cie_pointer)
unfolding parse_fde
parse_fde-Same c length cie_pointer len e =
    number c.cfi_stream (decode_uint32 c.cfi_stream) _ e (decode_uint32-Within c.cfi_stream)
      λ _ s1 e1. number s1 (decode_uint32 s1) _ e1 (decode_uint32-Within s1) (λ _ s e2. e2)

-- An entry moves on by four bytes or more.
Onward : CallFrameInfo → CallFrameInfo → Type 0
Onward c d =
    (c.cfi_stream.index + 4 ≤ d.cfi_stream.index)
    × (d.cfi_stream.stream_len ≡ c.cfi_stream.stream_len)

parse_entry-Onward : (c : CallFrameInfo) → Ensures (Onward c) (parse_entry c)
unfolding parse_entry Onward get_len
parse_entry-Onward c =
    let len = c.cfi_stream.stream_len in
    Ensures-bind (λ r. Within 1 c.cfi_stream r.1) (Onward c) (decode_uint32 c.cfi_stream) _
      (decode_uint32-Within c.cfi_stream)
      λ r w.
        Ensures-bind (λ q. Within 1 r.1 q.1) (Onward c) (decode_uint32 r.1) _
          (decode_uint32-Within r.1)
          λ q v.
            Ensures-bind (Same len) (Onward c) _ _
              (Ensures-if (Same len) (q.0 == 0xffffffff) _ _
                (λ _.
                  parse_cie-Same (record c { cfi_stream = q.1 }) r.0 q.0 (q.1.index - 8) len
                    (v.len_same ∙ w.len_same))
                (λ _.
                  parse_fde-Same (record c { cfi_stream = q.1 }) r.0 q.0 len
                    (v.len_same ∙ w.len_same)))
              (λ d same. (omega arith, same))

-- With a unit of fuel for each byte left, the entries of the section are read to its end, or the run stops at an
-- access that has no behaviour: it is never cut off, since each entry has four bytes or more.
pub generate_frame_info_ends :
    (fuel : ℕ) (c : CallFrameInfo)
    → c.cfi_stream.stream_len ≤ c.cfi_stream.index + fuel
    → generate_frame_info fuel c ≢ out_of_fuel
unfolding generate_frame_info Onward
generate_frame_info_ends zero c enough bad =
    let at_end : is_streamable c.cfi_stream ≡ false = unfold is_streamable in ground arith in
    cc (let q = rw (at_end, generate_frame_info) at bad in q)
generate_frame_info_ends (suc fuel) c enough bad = elim (Bool-cases (is_streamable c.cfi_stream)) [
  | inr at_end ↦ cc (let q = rw (at_end, generate_frame_info) at bad in q)
  | inl more ↦ elim (Ensures-view (Onward c) (parse_entry c) (parse_entry-Onward c)) [
    | inl stuck ↦ cc (let q = rw (more, stuck, generate_frame_info) at bad in q)
    | inr (d, e, on) ↦
        generate_frame_info_ends fuel d (omega (arith, on.0, on.1))
          (rw (more, e, generate_frame_info) at bad)
  ]
]
