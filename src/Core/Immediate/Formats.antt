-- ===== src/Core/Immediate/Formats.antt =====
-- The immediate of each instruction format as arithmetic on the fields of the word.
use t89emu.Common.{
  ℕ, ◌+◌, ◌-◌, ◌*◌, ◌/◌, ◌%◌, ◌^◌, ◌<◌, ◌≡◌, ◌∙◌, arith, ◌==◌, ltb, ◌||◌, if◌then◌else◌, bit_and,
  bit_or, u32, ◌>>>◌, ◌<<<◌,
}
use t89emu.Common.Bits.{bit_or_low, bit_or_high, bit_and_field, bit_and_mask}
use t89emu.Core.Immediate.{
  extend_by, extend_msb, jal_immediate, jalr_immediate, branch_immediate, load_immediate,
  store_immediate, itype_immediate,
}

-- A pattern of `k` digits, widened to 32 by its sign digit.
abbrev pub sign_extend : ℕ → ℕ → ℕ
sign_extend k v = if ltb v (2 ^ (k - 1)) then v else v + (2 ^ 32 - 2 ^ k)

pub sign_extend_eq : (k v w : ℕ) → v ≡ w → sign_extend k v ≡ sign_extend k w
sign_extend_eq k v w e = rw e

-- `(instruction >> i) & mask`, for a mask of `j` ones from digit `k` on.
field :
    (j k i x : ℕ) → bit_and (x / 2 ^ i) ((2 ^ j - 1) * 2 ^ k) ≡ x / 2 ^ i / 2 ^ k % 2 ^ j * 2 ^ k
field j k i x = bit_and_field j k (x / 2 ^ i)

-- Setting the digits above digit `k - 1` when that one is set.
extend_by_ones :
    (k v : ℕ)
    → v < 2 ^ k
    → (2 ^ 32 - 2 ^ k) % 2 ^ k ≡ 0
    → extend_by (bit_and (v / 2 ^ (k - 1)) 1) (2 ^ 32 - 2 ^ k) v
      ≡ (if v / 2 ^ (k - 1) % 2 == 1 then v + (2 ^ 32 - 2 ^ k) else v)
unfolding extend_by
extend_by_ones k v h e = rw (bit_or_high k v (2 ^ 32 - 2 ^ k) e h, bit_and_mask 1 (v / 2 ^ (k - 1)))

-- Four fields side by side, highest first.
join_four :
    (i j k a b c d : ℕ)
    → a % 2 ^ i ≡ 0
    → b < 2 ^ i
    → (a + b) % 2 ^ j ≡ 0
    → c < 2 ^ j
    → (a + b + c) % 2 ^ k ≡ 0
    → d < 2 ^ k
    → bit_or (bit_or (bit_or a b) c) d ≡ a + b + c + d
join_four i j k a b c d ha hb hab hc habc hd =
    rw (bit_or_low i a b ha hb, bit_or_low j (a + b) c hab hc, bit_or_low k (a + b + c) d habc hd)

abbrev pub jal_fields : ℕ → ℕ
jal_fields x =
    x / 2 ^ 31 % 2 * 2 ^ 19
    + x / 2 ^ 12 % 2 ^ 8 * 2 ^ 11
    + x / 2 ^ 20 % 2 * 2 ^ 10
    + x / 2 ^ 21 % 2 ^ 10

jal_fields_lem :
    (x : ℕ)
    → bit_or
        (bit_or
          (bit_or (bit_and (x >>> 12) 0x80000) (bit_and (x >>> 1) 0x7f800))
          (bit_and (x >>> 10) 0x400))
        (bit_and (x >>> 21) 0x3ff)
      ≡ jal_fields x
jal_fields_lem x =
    rw (field 1 19 12 x, field 8 11 1 x, field 1 10 10 x, field 10 0 21 x)
      (let a = x / 4096 / 524288 % 2 * 524288 in
        let b = x / 2 / 2048 % 256 * 2048 in
        let c = x / 1024 / 1024 % 2 * 1024 in
        let d = x / 2097152 / 1 % 1024 * 1 in
        join_four 19 11 10 a b c d (omega arith) (omega arith) (omega arith) (omega arith)
          (omega arith) (omega arith)
        ∙ omega arith)

abbrev pub branch_fields : ℕ → ℕ
branch_fields x =
    x / 2 ^ 31 % 2 * 2 ^ 11
    + x / 2 ^ 7 % 2 * 2 ^ 10
    + x / 2 ^ 25 % 2 ^ 6 * 2 ^ 4
    + x / 2 ^ 8 % 2 ^ 4

branch_fields_lem :
    (x : ℕ)
    → bit_or
        (bit_or
          (bit_or (bit_and (x >>> 20) 0x800) (bit_and (u32 (x <<< 3)) 0x400))
          (bit_and (x >>> 21) 0x3f0))
        (bit_and (x >>> 8) 0xf)
      ≡ branch_fields x
branch_fields_lem x =
    rw (field 1 11 20 x, bit_and_field 1 10 (u32 (x <<< 3)), field 6 4 21 x, field 4 0 8 x)
      (let a = x / 1048576 / 2048 % 2 * 2048 in
        let b = x * 8 % 4294967296 / 1024 % 2 * 1024 in
        let c = x / 2097152 / 16 % 64 * 16 in
        let d = x / 256 / 1 % 16 * 1 in
        join_four 11 10 4 a b c d (omega arith) (omega arith) (omega arith) (omega arith)
          (omega arith) (omega arith)
        ∙ omega arith)

-- The five formats.
pub jal_immediate_lem : (x : ℕ) → jal_immediate x ≡ sign_extend 21 (2 * jal_fields x)
unfolding jal_immediate
jal_immediate_lem x =
    rw (jal_fields_lem x, extend_by_ones 20 (jal_fields x) (omega arith) (omega arith))
      (ground arith)

pub branch_immediate_lem : (x : ℕ) → branch_immediate x ≡ sign_extend 13 (2 * branch_fields x)
unfolding branch_immediate
branch_immediate_lem x =
    rw (branch_fields_lem x, extend_by_ones 12 (branch_fields x) (omega arith) (omega arith))
      (ground arith)

pub jalr_immediate_lem : (x : ℕ) → jalr_immediate x ≡ sign_extend 12 (x / 2 ^ 20 % 2 ^ 12)
unfolding jalr_immediate
jalr_immediate_lem x =
    rw
      (
        bit_and_mask 12 (x / 2 ^ 20),
        extend_by_ones 12 (x / 2 ^ 20 % 2 ^ 12) (omega arith) (omega arith),
      )
      (ground arith)

extend_msb_ones :
    (x v : ℕ) → v < 2 ^ 12 → extend_msb x v ≡ (if x / 2 ^ 31 == 0 then v else v + (2 ^ 32 - 2 ^ 12))
unfolding extend_msb
extend_msb_ones x v h = rw (bit_or_high 12 v (2 ^ 32 - 2 ^ 12) (omega arith) h) (ground arith)

pub load_immediate_lem : (x : ℕ) → x < 2 ^ 32 → load_immediate x ≡ sign_extend 12 (x / 2 ^ 20)
unfolding load_immediate
load_immediate_lem x h = rw (extend_msb_ones x (x / 2 ^ 20) (omega arith)) (ground arith)

abbrev pub store_fields : ℕ → ℕ
store_fields x = x / 2 ^ 25 % 2 ^ 7 * 2 ^ 5 + x / 2 ^ 7 % 2 ^ 5

pub store_immediate_lem : (x : ℕ) → x < 2 ^ 32 → store_immediate x ≡ sign_extend 12 (store_fields x)
unfolding store_immediate
store_immediate_lem x h =
    let e : u32 (bit_and (x >>> 20) 0xfe0 + bit_and (x >>> 7) 0b11111) ≡ store_fields x =
      rw (field 7 5 20 x, field 5 0 7 x) (omega arith) in
    rw (e, extend_msb_ones x (store_fields x) (omega arith)) (ground arith)

-- A shift by an immediate keeps five digits of it.
pub itype_immediate_lem :
    (x : ℕ)
    → x < 2 ^ 32
    → itype_immediate x ≡ (
        if (x / 2 ^ 12 % 8 == 1) || (x / 2 ^ 12 % 8 == 5)
        then x / 2 ^ 20 % 32
        else sign_extend 12 (x / 2 ^ 20))
unfolding itype_immediate
itype_immediate_lem x h =
    rw
      (
        extend_msb_ones x (x / 2 ^ 20) (omega arith),
        bit_and_mask 3 (x / 2 ^ 12),
        bit_and_mask 5 (if x / 2 ^ 31 == 0 then x / 2 ^ 20 else x / 2 ^ 20 + (2 ^ 32 - 2 ^ 12)),
      )
      (ground arith)
