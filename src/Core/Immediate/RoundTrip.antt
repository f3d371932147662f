-- ===== src/Core/Immediate/RoundTrip.antt =====
-- The instruction formats of the RISC-V manual as encoders, and the generator as their inverse.
use t89emu.Common.{
  ℕ, ◌+◌, ◌*◌, ◌/◌, ◌%◌, ◌^◌, ◌<◌, ◌≡◌, ◌⊎◌, inl, inr, arith, ◌==◌, bit_and, ◌||◌, ◌&&◌,
  if◌then◌else◌,
}
use t89emu.Common.Bits.{bit_and_mask}
use t89emu.Arch.Opcode
use t89emu.Core.Immediate.{get_immediate}
use t89emu.Core.Immediate.Formats.{
  sign_extend, sign_extend_eq, jal_fields, branch_fields, store_fields, jal_immediate_lem,
  jalr_immediate_lem, branch_immediate_lem, load_immediate_lem, store_immediate_lem,
  itype_immediate_lem,
}

-- The low 20 digits that the register formats share.
abbrev registers_low : ℕ → ℕ → ℕ → ℕ → ℕ
registers_low opcode rd funct3 rs1 = opcode + rd * 2 ^ 7 + funct3 * 2 ^ 12 + rs1 * 2 ^ 15

unfoldable pub encode_i : ℕ → ℕ → ℕ → ℕ → ℕ → ℕ
encode_i opcode rd funct3 rs1 v = registers_low opcode rd funct3 rs1 + v * 2 ^ 20

pub encode_s : ℕ → ℕ → ℕ → ℕ → ℕ
encode_s funct3 rs1 rs2 v =
    registers_low Opcode.store (v % 32) funct3 rs1 + rs2 * 2 ^ 20 + v / 32 * 2 ^ 25

unfoldable pub encode_b : ℕ → ℕ → ℕ → ℕ → ℕ
encode_b funct3 rs1 rs2 v =
    registers_low Opcode.btype (v / 2 ^ 11 % 2 + v / 2 % 2 ^ 4 * 2) funct3 rs1
    + rs2 * 2 ^ 20
    + v / 2 ^ 5 % 2 ^ 6 * 2 ^ 25
    + v / 2 ^ 12 * 2 ^ 31

unfoldable pub encode_u : ℕ → ℕ → ℕ → ℕ
encode_u opcode rd v = opcode + rd * 2 ^ 7 + v * 2 ^ 12

unfoldable pub encode_j : ℕ → ℕ → ℕ
encode_j rd v =
    Opcode.jal
    + rd * 2 ^ 7
    + v / 2 ^ 12 % 2 ^ 8 * 2 ^ 12
    + v / 2 ^ 11 % 2 * 2 ^ 20
    + v / 2 % 2 ^ 10 * 2 ^ 21
    + v / 2 ^ 20 * 2 ^ 31

-- A jump's offset, even and of 21 digits, comes back sign-extended.
pub get_immediate-encode_j :
    (rd v : ℕ) → rd < 32 → v < 2 ^ 21 → v % 2 ≡ 0 → get_immediate (encode_j rd v) ≡ sign_extend 21 v
unfolding get_immediate encode_j
get_immediate-encode_j rd v hrd hv even =
    let x = encode_j rd v in
    let e : bit_and x 0b1111111 ≡ Opcode.jal = omega (arith, bit_and_mask 7 x) in
    rw (e, jal_immediate_lem x) (sign_extend_eq 21 (2 * jal_fields x) v (omega arith))

-- A branch's offset, even and of 13 digits, comes back sign-extended.
pub get_immediate-encode_b :
    (funct3 rs1 rs2 v : ℕ)
    → funct3 < 8
    → rs1 < 32
    → rs2 < 32
    → v < 2 ^ 13
    → v % 2 ≡ 0
    → get_immediate (encode_b funct3 rs1 rs2 v) ≡ sign_extend 13 v
unfolding get_immediate encode_b
get_immediate-encode_b funct3 rs1 rs2 v hf h1 h2 hv even =
    let x = encode_b funct3 rs1 rs2 v in
    let e : bit_and x 0b1111111 ≡ Opcode.btype = omega (arith, bit_and_mask 7 x) in
    rw (e, branch_immediate_lem x) (sign_extend_eq 13 (2 * branch_fields x) v (omega arith))

-- A store's offset of 12 digits comes back sign-extended.
pub get_immediate-encode_s :
    (funct3 rs1 rs2 v : ℕ)
    → funct3 < 8
    → rs1 < 32
    → rs2 < 32
    → v < 2 ^ 12
    → get_immediate (encode_s funct3 rs1 rs2 v) ≡ sign_extend 12 v
unfolding get_immediate encode_s
get_immediate-encode_s funct3 rs1 rs2 v hf h1 h2 hv =
    let x = encode_s funct3 rs1 rs2 v in
    let e : bit_and x 0b1111111 ≡ Opcode.store = omega (arith, bit_and_mask 7 x) in
    rw (e, store_immediate_lem x (omega arith)) (sign_extend_eq 12 (store_fields x) v (omega arith))

-- By opcode, the forms that keep the top 12 digits.
get_immediate-load :
    (x : ℕ) → x < 2 ^ 32 → x % 128 ≡ Opcode.load → get_immediate x ≡ sign_extend 12 (x / 2 ^ 20)
unfolding get_immediate
get_immediate-load x h o =
    let e : bit_and x 0b1111111 ≡ Opcode.load = omega (arith, bit_and_mask 7 x) in
    rw (e, load_immediate_lem x h)

get_immediate-jalr :
    (x : ℕ) → x < 2 ^ 32 → x % 128 ≡ Opcode.jalr → get_immediate x ≡ sign_extend 12 (x / 2 ^ 20)
unfolding get_immediate
get_immediate-jalr x h o =
    let e : bit_and x 0b1111111 ≡ Opcode.jalr = omega (arith, bit_and_mask 7 x) in
    rw (e, jalr_immediate_lem x)
      (sign_extend_eq 12 (x / 2 ^ 20 % 2 ^ 12) (x / 2 ^ 20) (omega arith))

pub get_immediate-itype :
    (x : ℕ)
    → x < 2 ^ 32
    → x % 128 ≡ Opcode.itype
    → get_immediate x ≡ (
        if (x / 2 ^ 12 % 8 == 1) || (x / 2 ^ 12 % 8 == 5)
        then x / 2 ^ 20 % 32
        else sign_extend 12 (x / 2 ^ 20))
unfolding get_immediate
get_immediate-itype x h o =
    let e : bit_and x 0b1111111 ≡ Opcode.itype = omega (arith, bit_and_mask 7 x) in
    rw (e, itype_immediate_lem x h)

get_immediate-priv : (x : ℕ) → x < 2 ^ 32 → x % 128 ≡ Opcode.priv → get_immediate x ≡ x / 2 ^ 20
unfolding get_immediate
get_immediate-priv x h o =
    let e : bit_and x 0b1111111 ≡ Opcode.priv = omega (arith, bit_and_mask 7 x) in
    rw e (omega (arith, bit_and_mask 12 (x / 2 ^ 20)))

-- The 12 digits of a load, a jump through a register or an immediate operation that is no shift come
-- back sign-extended; of a shift by an immediate the lowest five come back; those of a privileged
-- instruction come back as they are.
pub get_immediate-encode_i :
    (opcode rd funct3 rs1 v : ℕ)
    → (opcode ≡ Opcode.load)
      ⊎ (opcode ≡ Opcode.jalr)
      ⊎ (opcode ≡ Opcode.itype)
      ⊎ (opcode ≡ Opcode.priv)
    → rd < 32
    → funct3 < 8
    → rs1 < 32
    → v < 2 ^ 12
    → get_immediate (encode_i opcode rd funct3 rs1 v) ≡ (
        if opcode == Opcode.priv
        then v
        else if (opcode == Opcode.itype) && ((funct3 == 1) || (funct3 == 5))
        then v % 32
        else sign_extend 12 v)
unfolding encode_i
get_immediate-encode_i opcode rd funct3 rs1 v which hrd hf h1 hv =
    let x = encode_i opcode rd funct3 rs1 v in
    let same : x / 2 ^ 20 ≡ v = omega arith in
    elim which [
      | inl o ↦ ground (arith, get_immediate-load x (omega arith) (omega arith))
      | inr (inl o) ↦ ground (arith, get_immediate-jalr x (omega arith) (omega arith))
      | inr (inr (inl o)) ↦ ground (arith, get_immediate-itype x (omega arith) (omega arith))
      | inr (inr (inr o)) ↦ ground (arith, get_immediate-priv x (omega arith) (omega arith))
    ]
