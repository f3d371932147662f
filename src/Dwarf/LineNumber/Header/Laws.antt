-- ===== src/Dwarf/LineNumber/Header/Laws.antt =====
-- The tables in the header of the line number program are read to their end.
use t89emu.Common.{
  ℕ, zero, suc, ◌-◌, ◌≤◌, arith, Option, Ensures, List, [], ◌∷◌, ◌++◌, length, u32, none, get_elem?,
  Ensures_trivial,
}
use t89emu.Dwarf.DataStream.{DataStream, decode_uint8, decode_uint16, decode_uint32, decode_uleb128}
use t89emu.Dwarf.DataStream.Within.{
  Within, Within-trans, decode_uint8-Within, decode_uint16-Within, decode_uint32-Within,
  decode_uleb128-Within, inside_of,
}
use t89emu.Result.{Result, ◌>>=◌, lift, Ends, Ends-bind, Ends-lift}
use t89emu.Dwarf.Info.{get_uint}
use t89emu.Dwarf.Info.Value.{get_uint-Ends}
use t89emu.Dwarf.Info.Decode.{StringTables, decode_info}
use t89emu.Dwarf.Info.Decode.Laws.{Within-refl, decode_info-Moves}
use t89emu.Dwarf.LineNumber.Header.{
  FileEntry, InfoHeader, format_loop, generate_file_format_info, file_entry, files_loop,
  generate_file_information, lengths_loop, parse_program_header, content_of, directory_paths,
  file_paths, generate_file_paths,
}

-- Over the bytes that there were at the start, and not behind their end.
abbrev pub From {ℓ} : {A : Type ℓ} → DataStream → A × DataStream → Type 0
From s0 r = Within 0 s0 r.1

-- A number, or a part of the tables, and then the rest.
read {ℓ κ} :
    {A : Type ℓ} {B : Type κ} (P : B → Type 0) (s0 s : DataStream) (m : Option (A × DataStream))
    (f : A × DataStream → Result B)
    → Within 0 s0 s
    → Ensures (λ r. Within 1 s r.1) m
    → ((v : A) (s' : DataStream) → Within 0 s0 s' → Ends P (f (v, s')))
    → Ends P (lift m >>= f)
read P s0 s m f w h k =
    Ends-bind (λ r. Within 1 s r.1) P (lift m) f (Ends-lift (λ r. Within 1 s r.1) m h)
      (λ r g. k r.0 r.1 (Within-trans w g (omega arith)))

part {ℓ κ} :
    {A : Type ℓ} {B : Type κ} (P : B → Type 0) (s0 : DataStream) (m : Result (A × DataStream))
    (f : A × DataStream → Result B)
    → Ends (From s0) m
    → ((v : A) (s' : DataStream) → Within 0 s0 s' → Ends P (f (v, s')))
    → Ends P (m >>= f)
part P s0 m f h k = Ends-bind (From s0) P m f h (λ r g. k r.0 r.1 g)

module _ (s0 : DataStream) where
  format_loop-From :
      (n : ℕ) (formats : List (ℕ × ℕ)) (s : DataStream)
      → Within 0 s0 s
      → Ends (From s0) (format_loop n formats s)
  unfolding format_loop
  format_loop-From zero formats s w = w
  format_loop-From (suc n) formats s w =
      read (From s0) s0 s (decode_uleb128 s) _ w (decode_uleb128-Within s) λ content s1 w1.
        read (From s0) s0 s1 (decode_uleb128 s1) _ w1 (decode_uleb128-Within s1)
          λ form s2 w2. format_loop-From n (formats ++ ((u32 content, u32 form) ∷ [])) s2 w2

  generate_file_format_info-From :
      (s : DataStream) → Within 0 s0 s → Ends (From s0) (generate_file_format_info s)
  unfolding generate_file_format_info
  generate_file_format_info-From s w =
      read (From s0) s0 s (decode_uint8 s) _ w (decode_uint8-Within s)
        (λ n s' w'. format_loop-From n [] s' w')

  module _ (tables : StringTables) (address_size : ℕ) where
    file_entry-From :
        (formats : List (ℕ × ℕ)) (entry : FileEntry) (s : DataStream)
        → Within 0 s0 s
        → Ends (From s0) (file_entry tables address_size formats entry s)
    unfolding file_entry
    file_entry-From [] entry s w = w
    file_entry-From ((content, form) ∷ formats) entry s w =
        Ends-bind (λ r. Within 0 s r.1) (From s0) (decode_info tables address_size _ s) _
          (decode_info-Moves tables address_size _ s (inside_of w))
          (λ r g. file_entry-From formats _ r.1 (Within-trans w g (omega arith)))

    files_loop-From :
        (n : ℕ) (formats : List (ℕ × ℕ)) (entries : List FileEntry) (s : DataStream)
        → Within 0 s0 s
        → Ends (From s0) (files_loop n tables address_size formats entries s)
    unfolding files_loop
    files_loop-From zero formats entries s w = w
    files_loop-From (suc n) formats entries s w =
        part (From s0) s0 (file_entry tables address_size formats (λ _. none) s) _
          (file_entry-From formats (λ _. none) s w)
          (λ entry s' w'. files_loop-From n formats (entries ++ (entry ∷ [])) s' w')

    generate_file_information-From :
        (formats : List (ℕ × ℕ)) (s : DataStream)
        → Within 0 s0 s
        → Ends (From s0) (generate_file_information tables address_size formats s)
    unfolding generate_file_information
    generate_file_information-From formats s w =
        read (From s0) s0 s (decode_uleb128 s) _ w (decode_uleb128-Within s)
          (λ n s' w'. files_loop-From (u32 n) formats [] s' w')

  lengths_loop-From :
      (n : ℕ) (lengths : List ℕ) (s : DataStream)
      → Within 0 s0 s
      → Ends (From s0) (lengths_loop n lengths s)
  unfolding lengths_loop
  lengths_loop-From zero lengths s w = w
  lengths_loop-From (suc n) lengths s w =
      read (From s0) s0 s (decode_uint8 s) _ w (decode_uint8-Within s)
        (λ b s' w'. lengths_loop-From n (lengths ++ (b ∷ [])) s' w')

  byte {κ} :
      {B : Type κ} (P : B → Type 0) (s : DataStream) (f : ℕ × DataStream → Result B)
      → Within 0 s0 s
      → ((v : ℕ) (s' : DataStream) → Within 0 s0 s' → Ends P (f (v, s')))
      → Ends P (lift (decode_uint8 s) >>= f)
  byte P s f w k = read P s0 s (decode_uint8 s) f w (decode_uint8-Within s) k

-- The header is read from bytes that there are, over the same stream.
pub parse_program_header-From :
    (tables : StringTables) (unit_address_size : ℕ) (s0 : DataStream)
    → s0.index ≤ length s0.bytes
    → Ends (From s0) (parse_program_header tables unit_address_size s0)
unfolding parse_program_header
parse_program_header-From tables size s0 h =
    let P : InfoHeader × DataStream → Type 0 = From s0 in
    read P s0 s0 (decode_uint32 s0) _ (Within-refl s0 h) (decode_uint32-Within s0) λ _ s1 w1.
      read P s0 s1 (decode_uint16 s1) _ w1 (decode_uint16-Within s1) λ _ s2 w2.
        byte s0 P s2 _ w2 λ _ s3 w3. byte s0 P s3 _ w3 λ _ s4 w4.
          read P s0 s4 (decode_uint32 s4) _ w4 (decode_uint32-Within s4) λ _ s5 w5.
            byte s0 P s5 _ w5 λ _ s6 w6. byte s0 P s6 _ w6 λ _ s7 w7. byte s0 P s7 _ w7 λ _ s8 w8.
              byte s0 P s8 _ w8 λ _ s9 w9. byte s0 P s9 _ w9 λ _ s10 w10.
                byte s0 P s10 _ w10 λ base s11 w11.
                  part P s0 (lengths_loop (base - 1) [] s11) _
                    (lengths_loop-From s0 (base - 1) [] s11 w11)
                    λ _ s12 w12.
                      part P s0 (generate_file_format_info s12) _
                        (generate_file_format_info-From s0 s12 w12)
                        λ format s13 w13.
                          part P s0 (generate_file_information tables size format s13) _
                            (generate_file_information-From s0 tables size format s13 w13)
                            λ _ s14 w14.
                              part P s0 (generate_file_format_info s14) _
                                (generate_file_format_info-From s0 s14 w14)
                                λ format s15 w15.
                                  part P s0 (generate_file_information tables size format s15) _
                                    (generate_file_information-From s0 tables size format s15 w15)
                                    (λ _ s16 w16. w16)

abbrev pub Any {ℓ} : {A : Type ℓ} → A → Type 0
Any _ = Unit {0}

-- A value that may be missing.
pub found {ℓ κ} :
    {A : Type ℓ} {B : Type κ} (m : Option A) (f : A → Result B)
    → ((a : A) → Ends Any (f a))
    → Ends Any (lift m >>= f)
found m f k = Ends-bind Any Any (lift m) f (Ends-lift Any m (Ensures_trivial m)) (λ a _. k a)

directory_paths-Ends :
    (compile_directory : List ℕ) (ds : List FileEntry)
    → Ends Any (directory_paths compile_directory ds)
unfolding directory_paths content_of
directory_paths-Ends compile_directory [] = tt
directory_paths-Ends compile_directory (d ∷ ds) = found (d _) _ λ path.
    Ends-bind Any Any (directory_paths compile_directory ds) _
      (directory_paths-Ends compile_directory ds) (λ _ _. tt)

file_paths-Ends :
    (directories : List (List ℕ)) (fs : List FileEntry) → Ends Any (file_paths directories fs)
unfolding file_paths content_of
file_paths-Ends directories [] = tt
file_paths-Ends directories (f ∷ fs) = found (f _) _ λ index.
    Ends-bind Any Any (get_uint index) _ (get_uint-Ends index) λ n _.
      found (get_elem? directories (u32 n)) _ λ directory. found (f _) _ λ path.
        Ends-bind Any Any (file_paths directories fs) _ (file_paths-Ends directories fs) (λ _ _. tt)

pub generate_file_paths-Ends : (h : InfoHeader) → Ends Any (generate_file_paths h)
unfolding generate_file_paths content_of
generate_file_paths-Ends h = found (get_elem? h.directories 0) _ λ first.
    found (first _) _ λ directory.
      Ends-bind Any Any (directory_paths _ h.directories) _ (directory_paths-Ends _ h.directories)
        (λ directories _. file_paths-Ends directories h.file_names)
