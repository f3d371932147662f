-- ===== src/Common/Bits.antt =====
-- The bit operations as arithmetic, at every width.
mod Step
pub use Step.{bit_or_step, bit_and_step, bit_xor_step}
use Prim.Native.Nat.{
  ℕ, zero, suc, ◌+◌, ◌-◌, ◌*◌, ◌/◌, ◌%◌, ◌^◌, ◌≤◌, ◌<◌, min, max, bit_and, bit_or, bit_xor,
  bit_or-bitwise, bit_xor-bitwise,
}
use mathlib.Core.Path.{◌≡◌, refl, ap}
use native.Mathlib.Omega.{arith}
use native.Mathlib.Nat.{pow-suc, one-le-pow, div-div-eq-div-mul, mod-add-div'}
use t89emu.Common.Word.{bit, u32, ◌<<<◌, ◌>>>◌}

-- A bound on the digits to go, for inductions that halve.
bit_or-zero_below : (n a : ℕ) → a ≤ n → bit_or a 0 ≡ a
bit_or-zero_below n zero h = refl
bit_or-zero_below zero (suc a) h = absurd (omega arith)
bit_or-zero_below (suc n) (suc a) h =
    omega (arith, bit_or_step (suc a) 0, bit_or-zero_below n (suc a / 2) (omega arith))

bit_or-zero : (a : ℕ) → bit_or a 0 ≡ a
bit_or-zero a = bit_or-zero_below a a (omega arith)

bit_and-zero_below : (n a : ℕ) → a ≤ n → bit_and a 0 ≡ 0
bit_and-zero_below n zero h = refl
bit_and-zero_below zero (suc a) h = absurd (omega arith)
bit_and-zero_below (suc n) (suc a) h =
    omega (arith, bit_and_step (suc a) 0, bit_and-zero_below n (suc a / 2) (omega arith))

bit_and-zero : (a : ℕ) → bit_and a 0 ≡ 0
bit_and-zero a = bit_and-zero_below a a (omega arith)

bit_xor-zero_below : (n a : ℕ) → a ≤ n → bit_xor a 0 ≡ a
bit_xor-zero_below n zero h = refl
bit_xor-zero_below zero (suc a) h = absurd (omega arith)
bit_xor-zero_below (suc n) (suc a) h =
    omega (arith, bit_xor_step (suc a) 0, bit_xor-zero_below n (suc a / 2) (omega arith))

pub bit_xor-zero : (a : ℕ) → bit_xor a 0 ≡ a
bit_xor-zero a = bit_xor-zero_below a a (omega arith)

-- One place further left.
mul-pow_suc : (k q : ℕ) → 2 * (q * 2 ^ k) ≡ q * 2 ^ suc k
mul-pow_suc k q =
    let power : 2 ^ suc k ≡ 2 ^ k * 2 = omega (arith, pow-suc 2 k) in rw power (omega arith)

-- `(q << k) | r` is a sum when `r` fits in `k` bits.
bit_or_fields : (k q r : ℕ) → r < 2 ^ k → bit_or (q * 2 ^ k) r ≡ q * 2 ^ k + r
bit_or_fields zero q r fits = ground (arith, bit_or-zero q)
bit_or_fields (suc k) q r fits =
    let below : r / 2 < 2 ^ k = omega (arith, pow-suc 2 k) in
    ground (arith, bit_or_fields k q (r / 2) below, mul-pow_suc k q, bit_or_step (q * 2 ^ suc k) r)

bit_and_low : (k q r : ℕ) → r < 2 ^ k → bit_and (q * 2 ^ k + r) (2 ^ k - 1) ≡ r
bit_and_low zero q r fits = ground (arith, bit_and-zero (q * 1 + r))
bit_and_low (suc k) q r fits =
    let power : 2 ^ suc k ≡ 2 * 2 ^ k = omega (arith, pow-suc 2 k) in
    ground (
      arith,
      power,
      one-le-pow k 2,
      bit_and_low k q (r / 2),
      mul-pow_suc k q,
      bit_and_step (q * 2 ^ suc k + r) (2 ^ suc k - 1),
    )

-- A mask of `k` low ones is the remainder by `2 ^ k`.
pub bit_and_mask : (k a : ℕ) → bit_and a (2 ^ k - 1) ≡ a % 2 ^ k
bit_and_mask k a = ground (arith, one-le-pow k 2, bit_and_low k (a / 2 ^ k) (a % 2 ^ k))

-- A mask of ones shifted by `k` keeps a field in its place.
bit_and_shifted : (k x m : ℕ) → bit_and x (m * 2 ^ k) ≡ bit_and (x / 2 ^ k) m * 2 ^ k
bit_and_shifted zero x m = ground (arith)
bit_and_shifted (suc k) x m = ground (
  arith,
  bit_and_step x (m * 2 ^ suc k),
  mul-pow_suc k m,
  mul-pow_suc k (bit_and (x / 2 ^ suc k) m),
  pow-suc 2 k,
  div-div-eq-div-mul x 2 (2 ^ k),
  bit_and_shifted k (x / 2) m,
)

-- The digits of the result, one by one.
pub bit-bit_or : (i a b : ℕ) → bit (bit_or a b) i ≡ max (bit a i) (bit b i)
bit-bit_or zero a b = omega (arith, bit_or_step a b)
bit-bit_or (suc i) a b =
    let half : bit_or a b / 2 ≡ bit_or (a / 2) (b / 2) = omega (arith, bit_or_step a b) in
    rw half (bit-bit_or i (a / 2) (b / 2))

pub bit-bit_and : (i a b : ℕ) → bit (bit_and a b) i ≡ min (bit a i) (bit b i)
bit-bit_and zero a b = omega (arith, bit_and_step a b)
bit-bit_and (suc i) a b =
    let half : bit_and a b / 2 ≡ bit_and (a / 2) (b / 2) = omega (arith, bit_and_step a b) in
    rw half (bit-bit_and i (a / 2) (b / 2))

-- The operations stay within a width.
pub bit_or-lt : (k a b : ℕ) → a < 2 ^ k → b < 2 ^ k → bit_or a b < 2 ^ k
bit_or-lt zero zero zero p q = omega arith
bit_or-lt zero zero (suc b) p q = absurd (omega arith)
bit_or-lt zero (suc a) b p q = absurd (omega arith)
bit_or-lt (suc k) a b p q = omega (
  arith,
  bit_or_step a b,
  pow-suc 2 k,
  bit_or-lt k (a / 2) (b / 2) (omega (arith, pow-suc 2 k)) (omega (arith, pow-suc 2 k)),
)

pub bit_xor-lt : (k a b : ℕ) → a < 2 ^ k → b < 2 ^ k → bit_xor a b < 2 ^ k
bit_xor-lt zero zero zero p q = omega arith
bit_xor-lt zero zero (suc b) p q = absurd (omega arith)
bit_xor-lt zero (suc a) b p q = absurd (omega arith)
bit_xor-lt (suc k) a b p q = omega (
  arith,
  bit_xor_step a b,
  pow-suc 2 k,
  bit_xor-lt k (a / 2) (b / 2) (omega (arith, pow-suc 2 k)) (omega (arith, pow-suc 2 k)),
)

bit_and-le_below : (n a b : ℕ) → b ≤ n → bit_and a b ≤ b
bit_and-le_below n a zero h = omega (arith, bit_and-zero a)
bit_and-le_below zero a (suc b) h = absurd (omega arith)
bit_and-le_below (suc n) a (suc b) h =
    omega (arith, bit_and_step a (suc b), bit_and-le_below n (a / 2) (suc b / 2) (omega arith))

pub bit_and-le : (a b : ℕ) → bit_and a b ≤ b
bit_and-le a b = bit_and-le_below b a b (omega arith)

-- Exclusive or with `k` ones is the complement.
pub bit_xor_ones : (k a : ℕ) → a < 2 ^ k → bit_xor (2 ^ k - 1) a ≡ 2 ^ k - 1 - a
bit_xor_ones zero zero h = refl
bit_xor_ones zero (suc a) h = absurd (omega arith)
bit_xor_ones (suc k) a h =
    let half : (2 ^ suc k - 1) / 2 ≡ 2 ^ k - 1 = omega (arith, pow-suc 2 k, one-le-pow k 2) in
    let rest : bit_xor ((2 ^ suc k - 1) / 2) (a / 2) ≡ 2 ^ k - 1 - a / 2 =
      rw half (bit_xor_ones k (a / 2) (omega (arith, pow-suc 2 k))) in
    omega (arith, bit_xor_step (2 ^ suc k - 1) a, pow-suc 2 k, one-le-pow k 2, rest)

-- Numbers with no digit in common: the lower one fits under the other's `k` zeros, on either side.
pub bit_or_low : (k a r : ℕ) → a % 2 ^ k ≡ 0 → r < 2 ^ k → bit_or a r ≡ a + r
bit_or_low k a r e fits =
    let whole : a ≡ a / 2 ^ k * 2 ^ k = omega (arith, mod-add-div' a (2 ^ k)) in
    rw whole (bit_or_fields k (a / 2 ^ k) r fits)

bit_or-zero_swap : (b : ℕ) → bit_or 0 b ≡ b
bit_or-zero_swap b = bit_or-bitwise 0 b

pub bit_or_fields_swap : (k q r : ℕ) → r < 2 ^ k → bit_or r (q * 2 ^ k) ≡ r + q * 2 ^ k
bit_or_fields_swap zero q zero fits =
    ground (arith, bit_or_step 0 (q * 1), bit_or-zero_swap (q * 1))
bit_or_fields_swap zero q (suc r) fits = absurd (omega arith)
bit_or_fields_swap (suc k) q r fits = ground (
  arith,
  bit_or_step r (q * 2 ^ suc k),
  mul-pow_suc k q,
  pow-suc 2 k,
  bit_or_fields_swap k q (r / 2),
)

pub bit_or_high : (k r a : ℕ) → a % 2 ^ k ≡ 0 → r < 2 ^ k → bit_or r a ≡ r + a
bit_or_high k r a e fits =
    let whole : a ≡ a / 2 ^ k * 2 ^ k = omega (arith, mod-add-div' a (2 ^ k)) in
    rw whole (bit_or_fields_swap k (a / 2 ^ k) r fits)

-- A mask of `j` ones from digit `k` on.
pub bit_and_field : (j k a : ℕ) → bit_and a ((2 ^ j - 1) * 2 ^ k) ≡ a / 2 ^ k % 2 ^ j * 2 ^ k
bit_and_field j k a = rw (bit_and_shifted k a (2 ^ j - 1), bit_and_mask j (a / 2 ^ k))

bit_xor_comm_below : (n a b : ℕ) → a + b ≤ n → bit_xor a b ≡ bit_xor b a
bit_xor_comm_below n zero b h = omega (arith, bit_xor-zero b, bit_xor-bitwise 0 b)
bit_xor_comm_below zero (suc a) b h = absurd (omega arith)
bit_xor_comm_below (suc n) (suc a) b h = omega (
  arith,
  bit_xor_step (suc a) b,
  bit_xor_step b (suc a),
  bit_xor_comm_below n (suc a / 2) (b / 2) (omega arith),
)

pub bit_xor_comm : (a b : ℕ) → bit_xor a b ≡ bit_xor b a
bit_xor_comm a b = bit_xor_comm_below (a + b) a b (omega arith)
