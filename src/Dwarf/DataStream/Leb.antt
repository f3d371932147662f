-- ===== src/Dwarf/DataStream/Leb.antt =====
-- The LEB128 decoders against the value of a sequence of 7-digit groups.
use t89emu.Common.{
  ℕ, zero, suc, ◌+◌, ◌-◌, ◌*◌, ◌/◌, ◌%◌, ◌^◌, ◌<◌, ◌≤◌, ◌≡◌, refl, ap, sym, ◌∙◌, arith, ◌==◌, ltb,
  true, false, if◌then◌else◌, Option, some, List, [], ◌∷◌, ◌++◌, length, drop, bit_and, bit_or,
  Bool-cases, inl, inr,
}
use t89emu.Common.Bits.{bit_and_mask, bit_and_field, bit_or_fields_swap, bit_or_high}
use native.Mathlib.Nat.{pow-suc, mul-add, mul_comm, mul_assoc, mul-le-mul_right, pow-le-pow_right}
use t89emu.Dwarf.DataStream.{DataStream, int_shift, leb_loop, decode_uleb128, decode_leb128}

-- Groups of seven digits, the lowest first.
unfoldable pub leb_value : List ℕ → ℕ
leb_value [] = 0
leb_value (b ∷ bs) = b % 128 + 128 * leb_value bs

-- Every byte but the last has its top digit set.
abbrev pub IsLeb : ℕ → List ℕ → Type 0
IsLeb b [] = b < 128
IsLeb b (c ∷ cs) = (128 ≤ b) × (b < 256) × IsLeb c cs

pub last_byte : ℕ → List ℕ → ℕ
last_byte b [] = b
last_byte b (c ∷ cs) = last_byte c cs

low_group : (b : ℕ) → bit_and b 0x7f ≡ b % 128
low_group b = bit_and_mask 7 b

more_flag : (b : ℕ) → bit_and b 0x80 ≡ b / 128 % 2 * 128
more_flag b = bit_and_field 1 7 b

sign_flag : (b : ℕ) → bit_and b 0x40 ≡ b / 64 % 2 * 64
sign_flag b = bit_and_field 1 6 b

sign_test : (b : ℕ) → (bit_and b 0x40 == 0) ≡ (b / 64 % 2 == 0)
sign_test b = ground (arith, sign_flag b)

int_shift-small :
    (v shift : ℕ) → shift < 32 → v * 2 ^ shift < 2 ^ 31 → int_shift v shift ≡ some (v * 2 ^ shift)
unfolding int_shift
int_shift-small v shift h k = ground arith

pub pow-next : (n m : ℕ) → m ≡ n + 1 → 2 ^ m ≡ 2 ^ n * 2
pow-next n m e = let e' : m ≡ suc n = omega arith in rw e' (omega (arith, pow-suc 2 n))

pub pow-seven : (s : ℕ) → 2 ^ (s + 7) ≡ 2 ^ s * 128
pow-seven s = omega (
  arith,
  pow-next s (s + 1) refl,
  pow-next (s + 1) (s + 2) (omega arith),
  pow-next (s + 2) (s + 3) (omega arith),
  pow-next (s + 3) (s + 4) (omega arith),
  pow-next (s + 4) (s + 5) (omega arith),
  pow-next (s + 5) (s + 6) (omega arith),
  pow-next (s + 6) (s + 7) (omega arith),
)

spread : (t v l : ℕ) → t * (v + 128 * l) ≡ v * t + t * 128 * l
spread t v l = omega (arith, mul-add t v (128 * l), mul_comm t v, mul_assoc t 128 l)

module _ (b : ℕ) (xs : List ℕ) (shift result count : ℕ) where
  part-eq :
      shift < 32
      → b % 128 * 2 ^ shift < 2 ^ 31
      → int_shift (bit_and b 0x7f) shift ≡ some (b % 128 * 2 ^ shift)
  part-eq h k = rw (low_group b) (int_shift-small (b % 128) shift h k)

  sum-eq : result < 2 ^ shift → bit_or result (b % 128 * 2 ^ shift) ≡ result + b % 128 * 2 ^ shift
  sum-eq low = bit_or_fields_swap shift (b % 128) result low

  leb_loop-last :
      b < 128
      → result < 2 ^ shift
      → shift < 32
      → b % 128 * 2 ^ shift < 2 ^ 31
      → leb_loop (b ∷ xs) shift result count
        ≡ some (result + b % 128 * 2 ^ shift, b, shift, count + 1)
  unfolding leb_loop
  leb_loop-last h low short fits =
      let final : (bit_and b 0x80 == 0) ≡ true = ground (arith, more_flag b) in
      rw (part-eq short fits, final, sum-eq low) refl

  leb_loop-more :
      128 ≤ b
      → b < 256
      → result < 2 ^ shift
      → shift < 32
      → b % 128 * 2 ^ shift < 2 ^ 31
      → leb_loop (b ∷ xs) shift result count
        ≡ leb_loop xs (shift + 7) (result + b % 128 * 2 ^ shift) (count + 1)
  unfolding leb_loop
  leb_loop-more big byte low short fits =
      let more : (bit_and b 0x80 == 0) ≡ false = ground (arith, more_flag b) in
      rw (part-eq short fits, more, sum-eq low) refl

answer-eq :
    {a a' b c c' d d' : ℕ}
    → a ≡ a'
    → c ≡ c'
    → d ≡ d'
    → ◌≡◌ {A = Option (ℕ × ℕ × ℕ × ℕ)} (some (a, b, c, d)) (some (a', b, c', d'))
answer-eq p q r = cc

leb_loop_lem :
    (b : ℕ) (bs rest : List ℕ) (shift result count : ℕ)
    → IsLeb b bs
    → result < 2 ^ shift
    → shift + 7 * length bs < 32
    → result + 2 ^ shift * leb_value (b ∷ bs) < 2 ^ 31
    → leb_loop (b ∷ bs ++ rest) shift result count
      ≡ some (
        result + 2 ^ shift * leb_value (b ∷ bs),
        last_byte b bs,
        shift + 7 * length bs,
        count + length (b ∷ bs),
      )
unfolding leb_value last_byte
leb_loop_lem b [] rest shift result count h low short fits =
    let e = spread (2 ^ shift) (b % 128) 0 in
    leb_loop-last b rest shift result count h low (omega arith) (omega arith)
    ∙ answer-eq (omega arith) (omega arith) (omega arith)
leb_loop_lem b (c ∷ cs) rest shift result count (big, byte, h) low short fits =
    let v = b % 128 in
    let e = spread (2 ^ shift) v (leb_value (c ∷ cs)) in
    let seven = pow-seven shift in
    let grown : v * 2 ^ shift ≤ 127 * 2 ^ shift = mul-le-mul_right (2 ^ shift) (omega arith) in
    let split : 2 ^ (shift + 7) * leb_value (c ∷ cs) ≡ 2 ^ shift * 128 * leb_value (c ∷ cs) =
      ap (λ t. t * leb_value (c ∷ cs)) seven in
    leb_loop-more b (c ∷ cs ++ rest) shift result count big byte low (omega arith) (omega arith)
    ∙ leb_loop_lem c cs rest (shift + 7) (result + v * 2 ^ shift) (count + 1) h (omega arith)
        (omega arith) (omega arith)
    ∙ answer-eq (omega arith) (omega arith) (omega arith)

drop-length : (front xs : List ℕ) → drop (length front) (front ++ xs) ≡ xs
drop-length [] xs = refl
drop-length (x ∷ front) xs = drop-length front xs

-- The loop from the start of a sequence.
pub leb_loop-start :
    (b : ℕ) (bs rest : List ℕ)
    → IsLeb b bs
    → length bs < 5
    → leb_value (b ∷ bs) < 2 ^ 31
    → leb_loop (b ∷ bs ++ rest) 0 0 0
      ≡ some (leb_value (b ∷ bs), last_byte b bs, 7 * length bs, length (b ∷ bs))
leb_loop-start b bs rest h short fits =
    leb_loop_lem b bs rest 0 0 0 h (omega arith) (omega arith) (omega arith)
    ∙ answer-eq (omega arith) (omega arith) (omega arith)

-- Where a sequence of one to five bytes whose value is below 2 ^ 31 stands in the stream, the unsigned
-- decoder yields its value and moves behind its last byte.
pub decode_uleb128_lem :
    (b : ℕ) (bs front rest : List ℕ) (stream_len : ℕ)
    → IsLeb b bs
    → length bs < 5
    → leb_value (b ∷ bs) < 2 ^ 31
    → let s : DataStream = record {
      bytes = front ++ (b ∷ bs ++ rest);
      index = length front;
      stream_len = stream_len;
    } in
      decode_uleb128 s
      ≡ some (leb_value (b ∷ bs), record s { index = length front + length (b ∷ bs) })
unfolding decode_uleb128
decode_uleb128_lem b bs front rest stream_len h short fits =
    rw (drop-length front (b ∷ bs ++ rest), leb_loop-start b bs rest h short fits) refl

leb_value-lt : (bs : List ℕ) → leb_value bs < 2 ^ (7 * length bs)
unfolding leb_value
leb_value-lt [] = omega arith
leb_value-lt (b ∷ bs) =
    let longer : 7 * length (b ∷ bs) ≡ 7 * length bs + 7 = omega arith in
    rw longer (omega (arith, leb_value-lt bs, pow-seven (7 * length bs)))

sign_fill :
    (n r : ℕ)
    → n < 4
    → r < 2 ^ (7 * n + 7)
    → bit_or r (2 ^ 64 - 2 ^ (7 * n + 7)) ≡ r + (2 ^ 64 - 2 ^ (7 * n + 7))
sign_fill zero r h low = bit_or_high 7 r (2 ^ 64 - 2 ^ 7) refl low
sign_fill (suc zero) r h low = bit_or_high 14 r (2 ^ 64 - 2 ^ 14) refl low
sign_fill (suc (suc zero)) r h low = bit_or_high 21 r (2 ^ 64 - 2 ^ 21) refl low
sign_fill (suc (suc (suc zero))) r h low = bit_or_high 28 r (2 ^ 64 - 2 ^ 28) refl low
sign_fill (suc (suc (suc (suc n)))) r h low = absurd (omega arith)

-- Where a sequence of one to four bytes stands in the stream, the signed decoder moves behind its last
-- byte and yields its value if digit 6 of the last byte is clear, and the value with all the digits
-- above it set, as a 64-bit word, if that digit is set.
pub decode_leb128_lem :
    (b : ℕ) (bs front rest : List ℕ) (stream_len : ℕ)
    → IsLeb b bs
    → length bs < 4
    → let s : DataStream = record {
      bytes = front ++ (b ∷ bs ++ rest);
      index = length front;
      stream_len = stream_len;
    } in
      decode_leb128 s
      ≡ some (
        if last_byte b bs / 64 % 2 == 0
            then leb_value (b ∷ bs)
            else leb_value (b ∷ bs) + (2 ^ 64 - 2 ^ (7 * length bs + 7)),
        record s { index = length front + length (b ∷ bs) },
      )
unfolding decode_leb128
decode_leb128_lem b bs front rest stream_len h short =
    let longer : 7 * length (b ∷ bs) ≡ 7 * length bs + 7 = omega arith in
    let bound : leb_value (b ∷ bs) < 2 ^ (7 * length bs + 7) =
      rw (sym longer) (leb_value-lt (b ∷ bs)) in
    let small : 2 ^ (7 * length bs + 7) ≤ 2 ^ 28 =
      pow-le-pow_right {n = 2} (omega arith) {i = 7 * length bs + 7} {j = 28} (omega arith) in
    let fill = sign_fill (length bs) (leb_value (b ∷ bs)) short bound in
    let room : ltb (7 * length bs + 7) 31 ≡ true = ground arith in
    let start = leb_loop-start b bs rest h (omega arith) (omega arith) in
    elim (Bool-cases (last_byte b bs / 64 % 2 == 0)) [
      | inl clear ↦
          let test : (bit_and (last_byte b bs) 0x40 == 0) ≡ true =
            sign_test (last_byte b bs) ∙ clear in
          rw (drop-length front (b ∷ bs ++ rest), start, test, clear) refl
      | inr negative ↦
          let test : (bit_and (last_byte b bs) 0x40 == 0) ≡ false =
            sign_test (last_byte b bs) ∙ negative in
          rw (drop-length front (b ∷ bs ++ rest), start, test, negative, room, fill) refl
    ]
