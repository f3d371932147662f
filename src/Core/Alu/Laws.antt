-- ===== src/Core/Alu/Laws.antt =====
-- The ALU against two's complement arithmetic.
use t89emu.Common.{
  ℕ, ◌+◌, ◌-◌, ◌*◌, ◌/◌, ◌^◌, ◌<◌, ◌≤◌, ◌≡◌, ◌↔◌, ◌⊎◌, arith, ltb, if◌then◌else◌, none, some,
  Ensures, sub32, signed32, bit_xor, ◌>>>◌, Bool-cases, ltb→lt, inl, inr, ◌∙◌,
}
use t89emu.Common.Int.{pos, negsuc, ◌-ℤ◌, ◌≤ℤ◌, ◌<ℤ◌}
use t89emu.Common.Bits.{bit_xor_ones, bit_xor-zero, bit_or-lt, bit_xor-lt, bit_and-le, bit_xor_comm}
use t89emu.Core.Alu.{execute, sign_mask, srl, sra, sll, slt, sltu}
use native.Mathlib.Nat.{one-le-pow, div-le_self, div-add-mod, mod-lt}

-- The signed difference can be written in 32 digits.
abbrev pub FitsSigned : ℕ → ℕ → Type 0
FitsSigned a b =
    (negsuc (2 ^ 31 - 1) ≤ℤ signed32 a -ℤ signed32 b)
    × (signed32 a -ℤ signed32 b ≤ℤ pos (2 ^ 31 - 1))

-- The sign digit of `a - b`.
unfoldable pub sign_of_difference : ℕ → ℕ → ℕ
sign_of_difference a b = sub32 a b >>> 31

-- The sign digit of the wrapped difference tells the signed order if the difference fits, and tells
-- the opposite if it does not.
pub sign_of_difference_lem :
    (a b : ℕ)
    → a < 2 ^ 32
    → b < 2 ^ 32
    → (FitsSigned a b → (sign_of_difference a b ≡ 1) ↔ (signed32 a <ℤ signed32 b))
      × (¬ FitsSigned a b → (sign_of_difference a b ≡ 1) ↔ (¬ (signed32 a <ℤ signed32 b)))
unfolding sign_of_difference
sign_of_difference_lem a b ha hb = ground arith

-- The comparisons of two words. SLTU answers the unsigned order. SLT answers 1 for a signed difference
-- that fits in 32 digits when the first is less, and for one that does not fit when it is not less.
pub execute_compare :
    (a b : ℕ)
    → a < 2 ^ 32
    → b < 2 ^ 32
    → ((execute a b sltu ≡ some 1) ↔ (a < b))
      × ((execute a b slt ≡ some 1) ↔ (
          (FitsSigned a b × (signed32 a <ℤ signed32 b))
          ⊎ ((¬ FitsSigned a b) × (¬ (signed32 a <ℤ signed32 b)))))
unfolding execute
execute_compare a b ha hb =
    (ground arith, unfold sign_of_difference in ground (arith, sign_of_difference_lem a b ha hb))

-- Exactly the shifts by 32 or more have no result.
pub execute-none_iff :
    (a b op : ℕ) → (execute a b op ≡ none) ↔ (((op ≡ srl) ⊎ (op ≡ sra) ⊎ (op ≡ sll)) × (32 ≤ b))
unfolding execute
execute-none_iff a b op = ground arith

shifted-lt : (a b : ℕ) → a < 2 ^ 32 → a >>> b < 2 ^ 32
shifted-lt a b ha = omega (arith, div-le_self a (2 ^ b))

sign_mask-lt : (a : ℕ) → sign_mask a < 2 ^ 32
unfolding sign_mask
sign_mask-lt a = omega arith

arithmetic_shift-lt :
    (a b : ℕ) → a < 2 ^ 32 → bit_xor (bit_xor (sign_mask a) a >>> b) (sign_mask a) < 2 ^ 32
arithmetic_shift-lt a b ha =
    bit_xor-lt 32 _ (sign_mask a)
      (shifted-lt _ b (bit_xor-lt 32 (sign_mask a) a (sign_mask-lt a) ha)) (sign_mask-lt a)

-- A result is a 32-bit word.
pub execute-lt : (a b op : ℕ) → a < 2 ^ 32 → b < 2 ^ 32 → Ensures (λ r. r < 2 ^ 32) (execute a b op)
unfolding execute
execute-lt a b op ha hb = ground (
  arith,
  bit_or-lt 32 a b ha hb,
  bit_xor-lt 32 a b ha hb,
  bit_and-le a b,
  shifted-lt a b ha,
  arithmetic_shift-lt a b ha,
)

-- The arithmetic shift of each sign: of the pattern itself, or of its complement.
arithmetic_shift_value :
    (a b : ℕ)
    → a < 2 ^ 32
    → bit_xor (bit_xor (sign_mask a) a >>> b) (sign_mask a)
      ≡ (if ltb a (2 ^ 31) then a / 2 ^ b else 2 ^ 32 - 1 - (2 ^ 32 - 1 - a) / 2 ^ b)
arithmetic_shift_value a b ha = elim (Bool-cases (ltb a (2 ^ 31))) [
  | inl low ↦
      let e : sign_mask a ≡ 0 = unfold sign_mask in ground arith in
      rw (low, e, bit_xor_comm 0 a, bit_xor-zero a) (bit_xor-zero (a / 2 ^ b))
  | inr high ↦
      let e : sign_mask a ≡ 2 ^ 32 - 1 = unfold sign_mask in ground arith in
      rw (high, e, bit_xor_ones 32 a ha, bit_xor_comm ((2 ^ 32 - 1 - a) / 2 ^ b) (2 ^ 32 - 1))
        (bit_xor_ones 32 ((2 ^ 32 - 1 - a) / 2 ^ b)
          (omega (arith, div-le_self (2 ^ 32 - 1 - a) (2 ^ b))))
]

pub execute-sra_value :
    (a b : ℕ)
    → a < 2 ^ 32
    → b < 32
    → execute a b sra
      ≡ some (if ltb a (2 ^ 31) then a / 2 ^ b else 2 ^ 32 - 1 - (2 ^ 32 - 1 - a) / 2 ^ b)
unfolding execute
execute-sra_value a b ha hb = ground (arith, arithmetic_shift_value a b ha)

floor : (x b : ℕ) → (x / 2 ^ b * 2 ^ b ≤ x) × (x < (x / 2 ^ b + 1) * 2 ^ b)
floor x b = omega (
  arith,
  one-le-pow b 2,
  div-add-mod x (2 ^ b),
  mod-lt x {m = 2 ^ b} (one-le-pow b 2 (omega arith)),
)

-- SRA of a word by less than 32 digits divides the signed number by 2 ^ b and rounds down: with r the
-- result, a number that is not negative lies from r * 2 ^ b to just below (r + 1) * 2 ^ b. A negative one
-- has a negative result, and the absolute value of the operand lies above (|r| - 1) * 2 ^ b and at most at
-- |r| * 2 ^ b.
pub execute-sra :
    (a b : ℕ)
    → a < 2 ^ 32
    → b < 32
    → (r : ℕ) × (execute a b sra ≡ some r)
      × (((a < 2 ^ 31) × (r * 2 ^ b ≤ a) × (a < (r + 1) * 2 ^ b))
          ⊎ ((2 ^ 31 ≤ a)
              × (2 ^ 31 ≤ r)
              × (2 ^ 32 - a ≤ (2 ^ 32 - r) * 2 ^ b)
              × ((2 ^ 32 - r - 1) * 2 ^ b < 2 ^ 32 - a)))
execute-sra a b ha hb = elim (Bool-cases (ltb a (2 ^ 31))) [
  | inl low ↦ (
    a / 2 ^ b,
    execute-sra_value a b ha hb ∙ rw low,
    inl (ltb→lt a (2 ^ 31) low, (floor a b).0, (floor a b).1),
  )
  | inr high ↦
      let x = 2 ^ 32 - 1 - a in
      let q = x / 2 ^ b in
      let le : q ≤ x = div-le_self x (2 ^ b) in
      (
        2 ^ 32 - 1 - q,
        execute-sra_value a b ha hb ∙ rw high,
        inr (
            let neg : 2 ^ 31 ≤ a = ground arith in
            let e : 2 ^ 32 - (2 ^ 32 - 1 - q) ≡ q + 1 = omega arith in
            let e' : 2 ^ 32 - (2 ^ 32 - 1 - q) - 1 ≡ q = omega arith in
            (neg, omega arith, rw e (omega (arith, floor x b)), rw e' (omega (arith, floor x b)))),
      )
]
