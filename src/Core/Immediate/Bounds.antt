-- ===== src/Core/Immediate/Bounds.antt =====
-- Every immediate is a 32-bit word.
use t89emu.Common.{ℕ, ◌^◌, ◌<◌, arith, ◌==◌, true, false, Bool, if◌then◌else◌, bit_and, ◌>>>◌}
use t89emu.Common.Bits.{bit_and-le}
use t89emu.Arch.Opcode
use t89emu.Core.Immediate.{
  get_immediate, jal_immediate, jalr_immediate, branch_immediate, load_immediate, store_immediate,
  itype_immediate,
}
use t89emu.Core.Immediate.Formats.{
  jal_immediate_lem, jalr_immediate_lem, branch_immediate_lem, load_immediate_lem,
  store_immediate_lem, itype_immediate_lem,
}

abbrev IsWord : ℕ → Type 0
IsWord v = v < 2 ^ 32

if-IsWord : (b : Bool) (x y : ℕ) → IsWord x → IsWord y → IsWord (if b then x else y)
if-IsWord true x y p q = p
if-IsWord false x y p q = q

jal_immediate-lt : (x : ℕ) → IsWord (jal_immediate x)
jal_immediate-lt x = ground (arith, jal_immediate_lem x)

branch_immediate-lt : (x : ℕ) → IsWord (branch_immediate x)
branch_immediate-lt x = ground (arith, branch_immediate_lem x)

jalr_immediate-lt : (x : ℕ) → IsWord (jalr_immediate x)
jalr_immediate-lt x = ground (arith, jalr_immediate_lem x)

load_immediate-lt : (x : ℕ) → IsWord x → IsWord (load_immediate x)
load_immediate-lt x h = ground (arith, load_immediate_lem x h)

store_immediate-lt : (x : ℕ) → IsWord x → IsWord (store_immediate x)
store_immediate-lt x h = ground (arith, store_immediate_lem x h)

itype_immediate-lt : (x : ℕ) → IsWord x → IsWord (itype_immediate x)
itype_immediate-lt x h = ground (arith, itype_immediate_lem x h)

-- For a 32-bit instruction the generator yields a 32-bit word.
pub get_immediate-lt : (x : ℕ) → x < 2 ^ 32 → get_immediate x < 2 ^ 32
unfolding get_immediate
get_immediate-lt x h =
    let op = bit_and x 0b1111111 in
    let upper : IsWord (bit_and x 0xfffff000) = omega (arith, bit_and-le x 0xfffff000) in
    let csr : IsWord (bit_and (x >>> 20) 0xfff) = omega (arith, bit_and-le (x >>> 20) 0xfff) in
    if-IsWord (op == Opcode.lui) _ _ upper (
      if-IsWord (op == Opcode.auipc) _ _ upper (
        if-IsWord (op == Opcode.jal) _ _ (jal_immediate-lt x) (
          if-IsWord (op == Opcode.jalr) _ _ (jalr_immediate-lt x) (
            if-IsWord (op == Opcode.btype) _ _ (branch_immediate-lt x) (
              if-IsWord (op == Opcode.load) _ _ (load_immediate-lt x h) (
                if-IsWord (op == Opcode.store) _ _ (store_immediate-lt x h) (
                  if-IsWord (op == Opcode.itype) _ _ (itype_immediate-lt x h)
                    (if-IsWord (op == Opcode.priv) _ _ csr (omega arith)))))))))
