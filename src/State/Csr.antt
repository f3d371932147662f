-- ===== src/State/Csr.antt =====
-- t89emu/src/Csr.cpp and t89emu/include/Csr.h. The map of registers gives 0 for an address that was
-- never written, as `operator[]` does.
pub mod Fields
use t89emu.Common.{ℕ, ◌<<<◌, ◌>>>◌, bit_and, bit_or, not32, update}

pub record Csr : Type 0 where
  pub registers : ℕ → ℕ

abbrev pub mstatus : ℕ
mstatus = 0x300

abbrev pub mtvec : ℕ
mtvec = 0x305

abbrev pub mie : ℕ
mie = 0x304

abbrev pub mip : ℕ
mip = 0x344

abbrev pub mcause : ℕ
mcause = 0x342

abbrev pub mepc : ℕ
mepc = 0x341

abbrev mstatus_mie_mask : ℕ
mstatus_mie_mask = 3

abbrev mstatus_mpie_mask : ℕ
mstatus_mpie_mask = 7

abbrev mstatus_mpp_mask : ℕ
mstatus_mpp_mask = 11

abbrev pub machine_mode : ℕ
machine_mode = 0b11

abbrev meip_mask : ℕ
meip_mask = 11

abbrev mtip_mask : ℕ
mtip_mask = 7

abbrev msip_mask : ℕ
msip_mask = 3

unfoldable pub init : Csr
init = record { registers = λ _. 0 }

unfoldable pub read_csr : Csr → ℕ → ℕ
read_csr c address = c.registers address

unfoldable pub write_csr : Csr → ℕ → ℕ → Csr
write_csr c address value = record { registers = update c.registers address value }

-- `registers[address] |= mask` and `registers[address] &= ~mask`.
set_digits : ℕ → ℕ → Csr → Csr
set_digits address mask c = record {
  registers = update c.registers address (bit_or (c.registers address) mask);
}

reset_digits : ℕ → ℕ → Csr → Csr
reset_digits address mask c = record {
  registers = update c.registers address (bit_and (c.registers address) (not32 mask));
}

get_digit : ℕ → ℕ → Csr → ℕ
get_digit address shift c = bit_and (c.registers address >>> shift) 0b1

unfoldable pub set_mie : Csr → Csr
unfolding set_digits
set_mie = set_digits mstatus (1 <<< mstatus_mie_mask)

unfoldable pub set_mpie : Csr → Csr
unfolding set_digits
set_mpie = set_digits mstatus (1 <<< mstatus_mpie_mask)

unfoldable pub set_mpp : ℕ → Csr → Csr
unfolding set_digits
set_mpp mask = set_digits mstatus (bit_and mask 0b11 <<< mstatus_mpp_mask)

unfoldable set_meip : Csr → Csr
unfolding set_digits
set_meip = set_digits mip (1 <<< meip_mask)

unfoldable pub set_mtip : Csr → Csr
unfolding set_digits
set_mtip = set_digits mip (1 <<< mtip_mask)

unfoldable pub set_msip : Csr → Csr
unfolding set_digits
set_msip = set_digits mip (1 <<< msip_mask)

unfoldable pub reset_mie : Csr → Csr
unfolding reset_digits
reset_mie = reset_digits mstatus (1 <<< mstatus_mie_mask)

unfoldable reset_mpie : Csr → Csr
unfolding reset_digits
reset_mpie = reset_digits mstatus (1 <<< mstatus_mpie_mask)

unfoldable reset_mpp : Csr → Csr
unfolding reset_digits
reset_mpp = reset_digits mstatus (0b11 <<< mstatus_mpp_mask)

unfoldable reset_meip : Csr → Csr
unfolding reset_digits
reset_meip = reset_digits mip (1 <<< meip_mask)

unfoldable reset_msip : Csr → Csr
unfolding reset_digits
reset_msip = reset_digits mip (1 <<< msip_mask)

unfoldable pub reset_mtip : Csr → Csr
unfolding reset_digits
reset_mtip = reset_digits mip (1 <<< mtip_mask)

unfoldable pub get_mie : Csr → ℕ
unfolding get_digit
get_mie = get_digit mstatus mstatus_mie_mask

unfoldable pub get_mpie : Csr → ℕ
unfolding get_digit
get_mpie = get_digit mstatus mstatus_mpie_mask

unfoldable pub get_mpp : Csr → ℕ
get_mpp c = bit_and (c.registers mstatus >>> mstatus_mpp_mask) 0b11

unfoldable get_meie : Csr → ℕ
unfolding get_digit
get_meie = get_digit mie meip_mask

unfoldable get_meip : Csr → ℕ
unfolding get_digit
get_meip = get_digit mip meip_mask

unfoldable pub get_mtie : Csr → ℕ
unfolding get_digit
get_mtie = get_digit mie mtip_mask

unfoldable pub get_msie : Csr → ℕ
unfolding get_digit
get_msie = get_digit mie msip_mask

unfoldable pub get_mtip : Csr → ℕ
unfolding get_digit
get_mtip = get_digit mip mtip_mask

unfoldable pub get_msip : Csr → ℕ
unfolding get_digit
get_msip = get_digit mip msip_mask

unfoldable pub set_mepc : ℕ → Csr → Csr
set_mepc value c = write_csr c mepc value

unfoldable pub set_mcause : ℕ → Csr → Csr
set_mcause value c = write_csr c mcause value

unfoldable pub get_mepc : Csr → ℕ
get_mepc c = c.registers mepc

unfoldable pub get_mtvec : Csr → ℕ
get_mtvec c = c.registers mtvec
