-- ===== src/State/Csr/Fields.antt =====
-- The status and interrupt fields of t89emu/include/Csr.h as binary digits of their registers, and
-- what the setters and resetters do to those digits.
use t89emu.Common.{◌+◌, ◌*◌, ◌≡◌, arith, bit, ◌>>>◌, not32}
use t89emu.Common.Bits.{bit_and_mask, bit-bit_and, bit-bit_or}
use t89emu.State.Csr.{
  Csr, mstatus, mie, mip, get_mie, get_mpie, get_mpp, get_mtie, get_msie, get_mtip, get_msip,
  set_mtip, reset_mtip, set_msip,
}

pub get_mie-bit : (c : Csr) → get_mie c ≡ bit (c.registers mstatus) 3
unfolding get_mie
get_mie-bit c = omega (arith, bit_and_mask 1 (c.registers mstatus >>> 3))

pub get_mpie-bit : (c : Csr) → get_mpie c ≡ bit (c.registers mstatus) 7
unfolding get_mpie
get_mpie-bit c = omega (arith, bit_and_mask 1 (c.registers mstatus >>> 7))

pub get_mpp-bits :
    (c : Csr) → get_mpp c ≡ bit (c.registers mstatus) 11 + 2 * bit (c.registers mstatus) 12
unfolding get_mpp
get_mpp-bits c = omega (arith, bit_and_mask 2 (c.registers mstatus >>> 11))

get_mtie-bit : (c : Csr) → get_mtie c ≡ bit (c.registers mie) 7
unfolding get_mtie
get_mtie-bit c = omega (arith, bit_and_mask 1 (c.registers mie >>> 7))

get_msie-bit : (c : Csr) → get_msie c ≡ bit (c.registers mie) 3
unfolding get_msie
get_msie-bit c = omega (arith, bit_and_mask 1 (c.registers mie >>> 3))

get_mtip-bit : (c : Csr) → get_mtip c ≡ bit (c.registers mip) 7
unfolding get_mtip
get_mtip-bit c = omega (arith, bit_and_mask 1 (c.registers mip >>> 7))

get_msip-bit : (c : Csr) → get_msip c ≡ bit (c.registers mip) 3
unfolding get_msip
get_msip-bit c = omega (arith, bit_and_mask 1 (c.registers mip >>> 3))

-- The pending digits that the core-local interruptor drives.
pub get_mtip-set_mtip : (c : Csr) → get_mtip (set_mtip c) ≡ 1
unfolding set_mtip
get_mtip-set_mtip c = ground (arith, get_mtip-bit (set_mtip c), bit-bit_or 7 (c.registers mip) 128)

pub get_mtip-reset_mtip : (c : Csr) → get_mtip (reset_mtip c) ≡ 0
unfolding reset_mtip
get_mtip-reset_mtip c =
    ground (arith, get_mtip-bit (reset_mtip c), bit-bit_and 7 (c.registers mip) (not32 128))

pub get_mtip-set_msip : (c : Csr) → get_mtip (set_msip c) ≡ get_mtip c
unfolding set_msip
get_mtip-set_msip c =
    ground (arith, get_mtip-bit (set_msip c), get_mtip-bit c, bit-bit_or 7 (c.registers mip) 8)

pub get_msip-set_msip : (c : Csr) → get_msip (set_msip c) ≡ 1
unfolding set_msip
get_msip-set_msip c = ground (arith, get_msip-bit (set_msip c), bit-bit_or 3 (c.registers mip) 8)

pub get_msip-set_mtip : (c : Csr) → get_msip (set_mtip c) ≡ get_msip c
unfolding set_mtip
get_msip-set_mtip c =
    ground (arith, get_msip-bit (set_mtip c), get_msip-bit c, bit-bit_or 3 (c.registers mip) 128)

pub get_msip-reset_mtip : (c : Csr) → get_msip (reset_mtip c) ≡ get_msip c
unfolding reset_mtip
get_msip-reset_mtip c = ground (
  arith,
  get_msip-bit (reset_mtip c),
  get_msip-bit c,
  bit-bit_and 3 (c.registers mip) (not32 128),
)
