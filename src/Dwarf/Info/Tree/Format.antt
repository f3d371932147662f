-- ===== src/Dwarf/Info/Tree/Format.antt =====
-- How a value of an attribute is written in .debug_info, and that it is read back.
use t89emu.Common.{
  ℕ, zero, suc, ◌+◌, ◌<◌, ◌≡◌, ◌≢◌, ◌∙◌, ◌⊎◌, inl, inr, refl, sym, ap, ap₂, arith, ◌==◌, false,
  Option, some, List, [], ◌∷◌, ◌++◌, length, length-append, get_elem?, drop, All,
}
use mathlib.Core.List.{map, append-nil, append_assoc}
use mathlib.Core.Path.{subst}
use t89emu.Dwarf.DataStream.{DataStream, decode_uint8, decode_uleb128}
use t89emu.Dwarf.DataStream.Leb.{leb_value, leb_loop-start}
use t89emu.Dwarf.Encoding.Form
use t89emu.Dwarf.StringTable.{c_string}
use t89emu.Result.{ok}
use t89emu.Dwarf.Info.{contains, write}
use t89emu.Dwarf.Info.Abbrev.{AttributeEntry}
use t89emu.Dwarf.Info.Decode.{
  StringTables, read_block, read_string, fixed_size, decode_variable, decode_info,
}

-- The bytes from the place of a stream on.
abbrev pub ahead : DataStream → List ℕ
ahead s = drop s.index s.bytes

abbrev pub skip : DataStream → ℕ → DataStream
skip s n = record s { index = s.index + n }

drop-next :
    (xs : List ℕ) (i b : ℕ) (rest : List ℕ)
    → drop i xs ≡ b ∷ rest
    → (get_elem? xs i ≡ some b) × (drop (suc i) xs ≡ rest)
drop-next [] zero b rest e = absurd (cc)
drop-next (x ∷ xs) zero b rest e = (ap some (cc), cc)
drop-next [] (suc i) b rest e = absurd (cc)
drop-next (x ∷ xs) (suc i) b rest e = drop-next xs i b rest e

pub skip-skip : (s : DataStream) (m n : ℕ) → skip (skip s m) n ≡ skip s (m + n)
skip-skip s m n = ap (λ i. record s { index = i }) (omega arith)

pub skip-one : (s : DataStream) (n : ℕ) → skip (skip s 1) n ≡ skip s (suc n)
skip-one s n = ap (λ i. record s { index = i }) (omega arith)

-- A byte that is ahead.
pub byte-ahead :
    (s : DataStream) (b : ℕ) (rest : List ℕ)
    → ahead s ≡ b ∷ rest
    → (decode_uint8 s ≡ some (b, skip s 1)) × (ahead (skip s 1) ≡ rest)
unfolding decode_uint8
byte-ahead s b rest e =
    let (here, later) = drop-next s.bytes s.index b rest e in
    let next : s.index + 1 ≡ suc s.index = omega arith in
    (rw here refl, ap (λ i. drop i s.bytes) next ∙ later)

pub append-ahead :
    (bs : List ℕ) (s : DataStream) (rest : List ℕ)
    → ahead s ≡ bs ++ rest
    → ahead (skip s (length bs)) ≡ rest
append-ahead [] s rest e =
    let same : s.index + 0 ≡ s.index = omega arith in ap (λ i. drop i s.bytes) same ∙ e
append-ahead (b ∷ bs) s rest e =
    sym (ap ahead (skip-one s (length bs)))
    ∙ append-ahead bs (skip s 1) rest (byte-ahead s b (bs ++ rest) e).1

read_block-bytes :
    (bs acc : List ℕ) (form : ℕ) (s : DataStream) (rest : List ℕ)
    → ahead s ≡ bs ++ rest
    → read_block (length bs) (record { bytes = acc; form = form }) s
      ≡ ok (record { bytes = acc ++ bs; form = form }, skip s (length bs))
unfolding read_block write
read_block-bytes [] acc form s rest e = ap ok (
    ap₂ (λ a t. (record { bytes = a; form = form }, t)) (sym (append-nil acc))
      (ap (λ i. record s { index = i }) (omega arith)))
read_block-bytes (b ∷ bs) acc form s rest e =
    let (here, later) = byte-ahead s b (bs ++ rest) e in
    rw here (
      read_block-bytes bs (acc ++ (b ∷ [])) form (skip s 1) rest later
      ∙ ap₂ (λ a t. ok (record { bytes = a; form = form }, t)) (append_assoc acc (b ∷ []) bs)
          (skip-one s (length bs)))

pub nonzero : (b : ℕ) → b ≢ 0 → (b == 0) ≡ false
nonzero b h = ground arith

c_string-bytes : (bs rest : List ℕ) → All (λ b. b ≢ 0) bs → c_string (bs ++ (0 ∷ rest)) ≡ some bs
unfolding c_string
c_string-bytes [] rest h = refl
c_string-bytes (b ∷ bs) rest (hb, hbs) = rw (nonzero b hb, c_string-bytes bs rest hbs) refl

pub uleb-byte :
    (s : DataStream) (v : ℕ) (rest : List ℕ)
    → v < 128
    → ahead s ≡ v ∷ rest
    → decode_uleb128 s ≡ some (v, skip s 1)
unfolding decode_uleb128
uleb-byte s v rest h e =
    let small : leb_value (v ∷ []) ≡ v = unfold leb_value in omega arith in
    rw (e, leb_loop-start v [] rest h (omega arith) (omega (arith, small)), small) refl

-- The sizes that the DWARF manual gives to forms.
abbrev pub sizes : ℕ → List (ℕ × ℕ)
sizes address_size =
    (Form.addr, address_size)
    ∷ (Form.flag_present, 0)
    ∷ (Form.flag, 1)
    ∷ (Form.data1, 1)
    ∷ (Form.data2, 2)
    ∷ (Form.data4, 4)
    ∷ (Form.data8, 8)
    ∷ (Form.data16, 16)
    ∷ (Form.ref1, 1)
    ∷ (Form.ref2, 2)
    ∷ (Form.ref4, 4)
    ∷ (Form.ref8, 8)
    ∷ (Form.ref_sig8, 8)
    ∷ (Form.ref_addr, 4)
    ∷ (Form.sec_offset, 4)
    ∷ (Form.strx1, 1)
    ∷ (Form.strx2, 2)
    ∷ (Form.strx3, 3)
    ∷ (Form.strx4, 4)
    ∷ (Form.addrx1, 1)
    ∷ (Form.addrx2, 2)
    ∷ (Form.addrx3, 3)
    ∷ (Form.addrx4, 4)
    ∷ []

-- Whether two lists of results are the same shows at each entry.
same_at :
    (f g : ℕ × ℕ → Option ℕ) (xs : List (ℕ × ℕ)) (k : ℕ) (x : ℕ × ℕ)
    → map f xs ≡ map g xs
    → get_elem? xs k ≡ some x
    → f x ≡ g x
same_at f g [] k x same e = absurd (cc)
same_at f g (y ∷ ys) zero x same e = cc
same_at f g (y ∷ ys) (suc k) x same e = same_at f g ys k x (cc) e

fixed_size-sizes :
    (address_size k form n : ℕ)
    → get_elem? (sizes address_size) k ≡ some (form, n)
    → fixed_size address_size form ≡ some n
unfolding fixed_size
fixed_size-sizes address_size k form n =
    same_at (λ p. fixed_size address_size p.0) (λ p. some p.1) (sizes address_size) k (form, n) refl

-- How a value stands in .debug_info: a form of a fixed size as its bytes, a string with a 0 behind it, and an
-- expression behind its length, where that is one byte.
abbrev pub Value : ℕ → ℕ → List ℕ → List ℕ → Type 0
Value address_size form bs written =
    ((k : ℕ) × (get_elem? (sizes address_size) k ≡ some (form, length bs)) × (written ≡ bs))
    ⊎ ((form ≡ Form.string) × All (λ b. b ≢ 0) bs × (written ≡ bs ++ (0 ∷ [])))
    ⊎ ((form ≡ Form.exprloc) × (length bs < 128) × (written ≡ length bs ∷ bs))

decode-fixed :
    (tables : StringTables) (address_size n : ℕ) (entry : AttributeEntry) (s : DataStream)
    → fixed_size address_size entry.form ≡ some n
    → decode_info tables address_size entry s
      ≡ read_block n (record { bytes = []; form = entry.form }) s
unfolding decode_info
decode-fixed tables address_size n entry s e = rw (e, decode_info) refl

decode-string :
    (tables : StringTables) (address_size name special : ℕ) (s : DataStream) (bs rest : List ℕ)
    → All (λ b. b ≢ 0) bs
    → ahead s ≡ (bs ++ (0 ∷ [])) ++ rest
    → decode_info tables address_size
        (record { name = name; form = Form.string; special = special })
        s
      ≡ ok (record { bytes = bs; form = Form.string }, skip s (length (bs ++ (0 ∷ []))))
unfolding decode_info fixed_size decode_variable read_string contains write
decode-string tables address_size name special s bs rest nonzeros e =
    let here : c_string (ahead s) ≡ some bs =
      ap c_string (e ∙ append_assoc bs (0 ∷ []) rest) ∙ c_string-bytes bs rest nonzeros in
    let place : s.index + length bs + 1 ≡ s.index + length (bs ++ (0 ∷ [])) =
      omega (arith, length-append bs (0 ∷ [])) in
    rw (here, place) refl

decode-expression :
    (tables : StringTables) (address_size name special : ℕ) (s : DataStream) (bs rest : List ℕ)
    → length bs < 128
    → ahead s ≡ length bs ∷ (bs ++ rest)
    → decode_info tables address_size
        (record { name = name; form = Form.exprloc; special = special })
        s
      ≡ ok (record { bytes = bs; form = Form.exprloc }, skip s (suc (length bs)))
unfolding decode_info fixed_size decode_variable contains
decode-expression tables address_size name special s bs rest short e =
    rw (uleb-byte s (length bs) (bs ++ rest) short e) (
      read_block-bytes bs [] Form.exprloc (skip s 1) rest
        (byte-ahead s (length bs) (bs ++ rest) e).1
      ∙ ap (λ t. ok (record { bytes = bs; form = Form.exprloc }, t)) (skip-one s (length bs)))

-- What is written is read back.
pub decode_info-Value :
    (tables : StringTables) (address_size : ℕ) (entry : AttributeEntry) (s : DataStream)
    (bs written rest : List ℕ)
    → Value address_size entry.form bs written
    → ahead s ≡ written ++ rest
    → decode_info tables address_size entry s
      ≡ ok (record { bytes = bs; form = entry.form }, skip s (length written))
decode_info-Value tables size entry s bs written rest (inl (k, g, w)) e =
    decode-fixed tables size (length bs) entry s (fixed_size-sizes size k entry.form (length bs) g)
    ∙ read_block-bytes bs [] entry.form s rest (e ∙ ap (λ t. t ++ rest) w)
    ∙ ap (λ t. ok (record { bytes = bs; form = entry.form }, skip s (length t))) (sym w)
decode_info-Value tables size entry s bs written rest (inr (inl (f, nonzeros, w))) e =
    subst
      (λ form.
        decode_info tables size (record entry { form = form }) s
        ≡ ok (record { bytes = bs; form = form }, skip s (length written)))
      (sym f)
      (decode-string tables size entry.name entry.special s bs rest nonzeros
          (e ∙ ap (λ t. t ++ rest) w)
        ∙ ap (λ t. ok (record { bytes = bs; form = Form.string }, skip s (length t))) (sym w))
decode_info-Value tables size entry s bs written rest (inr (inr (f, short, w))) e =
    subst
      (λ form.
        decode_info tables size (record entry { form = form }) s
        ≡ ok (record { bytes = bs; form = form }, skip s (length written)))
      (sym f)
      (decode-expression tables size entry.name entry.special s bs rest short
          (e ∙ ap (λ t. t ++ rest) w)
        ∙ ap (λ t. ok (record { bytes = bs; form = Form.exprloc }, skip s (length t))) (sym w))
