-- ===== src/Dwarf/DataStream/Within.antt =====
-- A decoder never moves behind the bytes there are: each step consumes at least the bytes it promises.
use t89emu.Common.{
  ℕ, zero, suc, ◌+◌, ◌-◌, ◌≤◌, ◌<◌, ◌≡◌, refl, ap, ◌∙◌, arith, ◌==◌, ltb, Ensures, Ensures-bind,
  Ensures-mono, Ensures-if, List, [], ◌∷◌, length, get_elem?, drop, bit_and, bit_or, Bool-cases,
  inl, inr,
}
use t89emu.Dwarf.DataStream.{
  DataStream, int_shift, leb_loop, decode_uint8, decode_uint16, decode_uint32, decode_uleb128,
  decode_leb128,
}
use t89emu.Dwarf.LineNumber.Progress.{any}

-- Moved on by `n` bytes or more over the same bytes, and not behind their end.
pub record Within (n : ℕ) (s s' : DataStream) : Type 0 where
  pub moved : s.index + n ≤ s'.index
  pub inside : s'.index ≤ length s.bytes
  pub bytes_same : s'.bytes ≡ s.bytes
  pub len_same : s'.stream_len ≡ s.stream_len

pub get_elem?-inside {ℓ} :
    {A : Type ℓ} (xs : List A) (i : ℕ) → Ensures (λ _. i < length xs) (get_elem? xs i)
get_elem?-inside [] i = tt
get_elem?-inside (x ∷ xs) zero = omega arith
get_elem?-inside (x ∷ xs) (suc i) =
    Ensures-mono (λ _. i < length xs) (λ _. suc i < suc (length xs)) (get_elem? xs i)
      (λ _ h. omega arith) (get_elem?-inside xs i)

pub length-drop {ℓ} : {A : Type ℓ} (n : ℕ) (xs : List A) → length (drop n xs) ≡ length xs - n
length-drop zero xs = omega arith
length-drop (suc n) [] = omega arith
length-drop (suc n) (x ∷ xs) = omega (arith, length-drop n xs)

-- The loop reads a byte or more, and only bytes that there are.
leb_loop-count :
    (bs : List ℕ) (shift result count : ℕ)
    → Ensures (λ r. (count + 1 ≤ r.3) × (r.3 ≤ count + length bs)) (leb_loop bs shift result count)
unfolding leb_loop
leb_loop-count [] shift result count = tt
leb_loop-count (b ∷ bs) shift result count =
    let P : ℕ × ℕ × ℕ × ℕ → Type 0 = λ r. (count + 1 ≤ r.3) × (r.3 ≤ count + suc (length bs)) in
    any P (int_shift (bit_and b 0x7f) shift) _ λ part. elim (Bool-cases (bit_and b 0x80 == 0)) [
      | inl last ↦ rw last (omega arith, omega arith)
      | inr more ↦ rw more (
          Ensures-mono (λ r. (count + 1 + 1 ≤ r.3) × (r.3 ≤ count + 1 + length bs)) P
            (leb_loop bs (shift + 7) (bit_or result part) (count + 1))
            (λ r h. (omega arith, omega arith))
            (leb_loop-count bs (shift + 7) (bit_or result part) (count + 1)))
    ]

leb-Within :
    (s : DataStream)
    → Ensures
        (λ r. Within 1 s (record s { index = s.index + r.3 }))
        (leb_loop (drop s.index s.bytes) 0 0 0)
leb-Within s =
    Ensures-mono (λ r. (0 + 1 ≤ r.3) × (r.3 ≤ 0 + length (drop s.index s.bytes))) _
      (leb_loop (drop s.index s.bytes) 0 0 0)
      (λ r h. record {
        moved = omega arith;
        inside = omega (arith, length-drop s.index s.bytes);
        bytes_same = refl;
        len_same = refl;
      })
      (leb_loop-count (drop s.index s.bytes) 0 0 0)

pub decode_uleb128-Within : (s : DataStream) → Ensures (λ r. Within 1 s r.1) (decode_uleb128 s)
unfolding decode_uleb128
decode_uleb128-Within s =
    Ensures-bind _ (λ r. Within 1 s r.1) (leb_loop (drop s.index s.bytes) 0 0 0) _ (leb-Within s)
      (λ r h. h)

pub decode_leb128-Within : (s : DataStream) → Ensures (λ r. Within 1 s r.1) (decode_leb128 s)
unfolding decode_leb128
decode_leb128-Within s =
    let W : ℕ × DataStream → Type 0 = λ r. Within 1 s r.1 in
    Ensures-bind _ W (leb_loop (drop s.index s.bytes) 0 0 0) _ (leb-Within s) λ r h.
      Ensures-if W (bit_and r.1 0x40 == 0) _ _ (λ _. h)
        λ _. Ensures-if W (ltb (r.2 + 7) 31) _ _ (λ _. h) (λ _. tt)

pub decode_uint8-Within : (s : DataStream) → Ensures (λ r. Within 1 s r.1) (decode_uint8 s)
unfolding decode_uint8
decode_uint8-Within s =
    Ensures-bind _ _ (get_elem? s.bytes s.index) _ (get_elem?-inside s.bytes s.index) λ b h.
      record { moved = omega arith; inside = omega arith; bytes_same = refl; len_same = refl }

pub decode_uint16-Within : (s : DataStream) → Ensures (λ r. Within 1 s r.1) (decode_uint16 s)
unfolding decode_uint16
decode_uint16-Within s =
    let W : ℕ × DataStream → Type 0 = λ r. Within 1 s r.1 in
    any W (get_elem? s.bytes s.index) _ λ a.
      Ensures-bind _ W (get_elem? s.bytes (s.index + 1)) _ (get_elem?-inside s.bytes (s.index + 1))
        λ b h. record {
          moved = omega arith;
          inside = omega arith;
          bytes_same = refl;
          len_same = refl;
        }

pub decode_uint32-Within : (s : DataStream) → Ensures (λ r. Within 1 s r.1) (decode_uint32 s)
unfolding decode_uint32
decode_uint32-Within s =
    let W : ℕ × DataStream → Type 0 = λ r. Within 1 s r.1 in
    any W (get_elem? s.bytes s.index) _ λ a. any W (get_elem? s.bytes (s.index + 1)) _ λ b.
      any W (get_elem? s.bytes (s.index + 2)) _ λ c.
        Ensures-bind _ W (get_elem? s.bytes (s.index + 3)) _
          (get_elem?-inside s.bytes (s.index + 3))
          λ d h. record {
            moved = omega arith;
            inside = omega arith;
            bytes_same = refl;
            len_same = refl;
          }

pub Within-trans :
    {m n k : ℕ} {s t u : DataStream} → Within m s t → Within n t u → k ≤ m + n → Within k s u
Within-trans h g le = record {
  moved = omega (arith, h.moved, g.moved);
  inside = omega (arith, g.inside, ap length h.bytes_same);
  bytes_same = g.bytes_same ∙ h.bytes_same;
  len_same = g.len_same ∙ h.len_same;
}

pub inside_of : {n : ℕ} {s t : DataStream} → Within n s t → t.index ≤ length t.bytes
inside_of h = omega (arith, h.inside, ap length h.bytes_same)
