-- ===== src/Mcu/Isa/Decode.antt =====
-- The machine code of the abstract machine's instructions, and the decode stage as its inverse.
use t89emu.Common.{
  ℕ, ◌+◌, ◌*◌, ◌/◌, ◌%◌, ◌^◌, ◌<◌, ◌≡◌, ◌∙◌, ◌⊎◌, inl, inr, refl, arith, ◌==◌, ◌||◌, ◌&&◌,
  if◌then◌else◌,
}
use t89emu.Common.Bits.{bit_and_mask, bit_and_field}
use t89emu.Arch.Opcode
use t89emu.Core.Immediate.{get_immediate}
use t89emu.Core.Immediate.RoundTrip.{
  encode_i, encode_b, encode_u, encode_j, get_immediate-encode_i, get_immediate-encode_b,
  get_immediate-encode_j,
}
use t89emu.Mcu.Isa.{extend}
use t89emu.Mcu.Decode.{decode}

unfoldable pub encode_r : ℕ → ℕ → ℕ → ℕ → ℕ → ℕ
encode_r funct7 rs2 rs1 funct3 rd =
    Opcode.rtype + rd * 2 ^ 7 + funct3 * 2 ^ 12 + rs1 * 2 ^ 15 + rs2 * 2 ^ 20 + funct7 * 2 ^ 25

-- Any word decodes to its fields.
decode_fields :
    (w : ℕ)
    → w < 2 ^ 32
    → ((decode w).opcode ≡ w % 2 ^ 7)
      × ((decode w).rd ≡ w / 2 ^ 7 % 2 ^ 5)
      × ((decode w).funct3 ≡ w / 2 ^ 12 % 2 ^ 3)
      × ((decode w).rs1 ≡ w / 2 ^ 15 % 2 ^ 5)
      × ((decode w).rs2 ≡ w / 2 ^ 20 % 2 ^ 5)
      × ((decode w).funct7 ≡ w / 2 ^ 25)
      × ((decode w).immediate ≡ get_immediate w)
unfolding decode
decode_fields w h = (
  bit_and_mask 7 w,
  bit_and_mask 5 (w / 2 ^ 7),
  bit_and_mask 3 (w / 2 ^ 12),
  bit_and_mask 5 (w / 2 ^ 15),
  bit_and_mask 5 (w / 2 ^ 20),
  omega (arith, bit_and_mask 7 (w / 2 ^ 25)),
  refl,
)

get_immediate-encode_u :
    (opcode rd v : ℕ)
    → (opcode ≡ Opcode.lui) ⊎ (opcode ≡ Opcode.auipc)
    → rd < 32
    → v < 2 ^ 20
    → get_immediate (encode_u opcode rd v) ≡ v * 2 ^ 12
unfolding get_immediate encode_u
get_immediate-encode_u opcode rd v which hrd hv =
    let w = encode_u opcode rd v in ground (arith, bit_and_mask 7 w, bit_and_field 20 12 w)

-- The fields of each format come back.
pub decode-encode_u :
    (opcode rd v : ℕ)
    → (opcode ≡ Opcode.lui) ⊎ (opcode ≡ Opcode.auipc)
    → rd < 32
    → v < 2 ^ 20
    → let d = decode (encode_u opcode rd v) in
      (d.opcode ≡ opcode) × (d.rd ≡ rd) × (d.immediate ≡ v * 2 ^ 12)
unfolding encode_u
decode-encode_u opcode rd v which hrd hv =
    let w = encode_u opcode rd v in
    ground (arith, decode_fields w (ground arith), get_immediate-encode_u opcode rd v which hrd hv)

pub decode-encode_j :
    (rd v : ℕ)
    → rd < 32
    → v < 2 ^ 21
    → v % 2 ≡ 0
    → let d = decode (encode_j rd v) in
      (d.opcode ≡ Opcode.jal) × (d.rd ≡ rd) × (d.immediate ≡ extend 21 v)
unfolding encode_j
decode-encode_j rd v hrd hv even =
    let w = encode_j rd v in
    ground (arith, decode_fields w (omega arith), get_immediate-encode_j rd v hrd hv even)

pub decode-encode_b :
    (funct3 rs1 rs2 v : ℕ)
    → funct3 < 8
    → rs1 < 32
    → rs2 < 32
    → v < 2 ^ 13
    → v % 2 ≡ 0
    → let d = decode (encode_b funct3 rs1 rs2 v) in
      (d.opcode ≡ Opcode.btype)
      × (d.funct3 ≡ funct3)
      × (d.rs1 ≡ rs1)
      × (d.rs2 ≡ rs2)
      × (d.immediate ≡ extend 13 v)
unfolding encode_b
decode-encode_b funct3 rs1 rs2 v hf h1 h2 hv even =
    let w = encode_b funct3 rs1 rs2 v in
    let e : get_immediate w ≡ extend 13 v =
      get_immediate-encode_b funct3 rs1 rs2 v hf h1 h2 hv even ∙ ground arith in
    omega (arith, decode_fields w (omega arith), e)

pub decode-encode_r :
    (funct7 rs2 rs1 funct3 rd : ℕ)
    → funct7 < 128
    → rs2 < 32
    → rs1 < 32
    → funct3 < 8
    → rd < 32
    → let d = decode (encode_r funct7 rs2 rs1 funct3 rd) in
      (d.opcode ≡ Opcode.rtype)
      × (d.rd ≡ rd)
      × (d.funct3 ≡ funct3)
      × (d.rs1 ≡ rs1)
      × (d.rs2 ≡ rs2)
      × (d.funct7 ≡ funct7)
unfolding encode_r
decode-encode_r funct7 rs2 rs1 funct3 rd h7 h2 h1 hf hrd =
    let w = encode_r funct7 rs2 rs1 funct3 rd in omega (arith, decode_fields w (omega arith))

pub decode-encode_i :
    (opcode rd funct3 rs1 v : ℕ)
    → (opcode ≡ Opcode.jalr) ⊎ (opcode ≡ Opcode.itype)
    → rd < 32
    → funct3 < 8
    → rs1 < 32
    → v < 2 ^ 12
    → let d = decode (encode_i opcode rd funct3 rs1 v) in
      (d.opcode ≡ opcode)
      × (d.rd ≡ rd)
      × (d.funct3 ≡ funct3)
      × (d.rs1 ≡ rs1)
      × (d.funct7 ≡ v / 2 ^ 5)
      × (d.immediate ≡ (
          if (opcode == Opcode.itype) && ((funct3 == 1) || (funct3 == 5))
          then v % 32
          else extend 12 v))
unfolding encode_i
decode-encode_i opcode rd funct3 rs1 v which hrd hf h1 hv =
    let w = encode_i opcode rd funct3 rs1 v in
    let e =
      get_immediate-encode_i opcode rd funct3 rs1 v
        (elim which [ inl o ↦ inr (inl o) | inr o ↦ inr (inr (inl o)) ]) hrd hf h1 hv in
    ground (arith, decode_fields w (ground arith), e)
