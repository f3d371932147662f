-- ===== src/Common/Bits/Step.antt =====
-- One equation for the lowest digit of each bit operation, from its native definition.
use Prim.Native.Nat.{
  ℕ, zero, suc, ◌+◌, ◌-◌, ◌*◌, ◌/◌, ◌%◌, ◌≤◌, ◌<◌, min, max, differ, bit_and, bit_or, bit_xor,
  digits, bitwise, bit_and-bitwise, bit_or-bitwise, bit_xor-bitwise,
}
use mathlib.Core.Path.{◌≡◌, refl, subst, ap, ◌∙◌}
use native.Mathlib.Omega.{arith}

module _ (z : ℕ → ℕ) (f : ℕ → ℕ → ℕ) where
  -- With fuel for every digit of `a`, one more unit changes nothing.
  one_more : (fuel a b : ℕ) → a ≤ fuel → digits z f (suc fuel) a b ≡ digits z f fuel a b
  one_more zero zero b fits = refl
  one_more (suc fuel) zero b fits = refl
  one_more zero (suc a) b fits = absurd (omega arith)
  one_more (suc fuel) (suc a) b fits = rw (one_more fuel (suc a / 2) (b / 2) (omega arith))

  spare : (extra a b : ℕ) → digits z f (extra + a) a b ≡ bitwise z f a b
  spare zero a b = ap (λ n. digits z f n a b) (omega arith)
  spare (suc extra) a b =
      let shift : suc extra + a ≡ suc (extra + a) = omega arith in
      rw shift (one_more (extra + a) a b (omega arith) ∙ spare extra a b)

  -- The lowest digit splits off, also for `a = 0`, if `z` lets it split off there.
  lowest :
      ((b : ℕ) → z b ≡ z (b / 2) * 2 + f 0 (b % 2))
      → (a b : ℕ) → bitwise z f a b ≡ bitwise z f (a / 2) (b / 2) * 2 + f (a % 2) (b % 2)
  lowest at_zero zero b = at_zero b
  lowest at_zero (suc a) b =
      let half = suc a / 2 in
      let split : a - half + half ≡ a = omega arith in
      let fuelled : digits z f a half (b / 2) ≡ bitwise z f half (b / 2) =
        subst (λ n. digits z f n half (b / 2) ≡ bitwise z f half (b / 2)) split
          (spare (a - half) half (b / 2)) in
      omega (arith, fuelled)

differ_digits : (x y : ℕ) → x < 2 → y < 2 → differ x y ≡ (x + y) % 2
differ_digits zero y p q = omega arith
differ_digits (suc zero) zero p q = refl
differ_digits (suc zero) (suc zero) p q = refl
differ_digits (suc zero) (suc (suc y)) p q = absurd (omega arith)
differ_digits (suc (suc x)) y p q = absurd (omega arith)

pub bit_xor_step : (a b : ℕ) → bit_xor a b ≡ bit_xor (a / 2) (b / 2) * 2 + (a + b) % 2
bit_xor_step a b =
    let digit : differ (a % 2) (b % 2) ≡ (a + b) % 2 =
      omega (arith, differ_digits (a % 2) (b % 2) (omega arith) (omega arith)) in
    let step =
      lowest (λ y. y) differ
        (λ y. omega (arith, differ_digits 0 (y % 2) (omega arith) (omega arith))) a b in
    simp bit_xor-bitwise (omega (arith, step, digit))

pub bit_and_step : (a b : ℕ) → bit_and a b ≡ bit_and (a / 2) (b / 2) * 2 + min (a % 2) (b % 2)
bit_and_step a b = simp bit_and-bitwise (lowest (λ y. 0) min (λ y. omega arith) a b)

pub bit_or_step : (a b : ℕ) → bit_or a b ≡ bit_or (a / 2) (b / 2) * 2 + max (a % 2) (b % 2)
bit_or_step a b = simp bit_or-bitwise (lowest (λ y. y) max (λ y. omega arith) a b)
