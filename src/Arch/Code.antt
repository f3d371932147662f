-- ===== src/Arch/Code.antt =====
-- t89emu/include/Architecture.h: immediates of the privileged instructions, and what a stage of the
-- machine returns: success, an interrupt or an exception.
use t89emu.Common.{ℕ}

abbrev pub ecall_imm : ℕ
ecall_imm = 0b000000000000

abbrev pub mret_imm : ℕ
mret_imm = 0b001100000010

abbrev pub status_ok : ℕ
status_ok = 0xffffffff

abbrev pub machine_software_interrupt : ℕ
machine_software_interrupt = 0x80000003

abbrev pub machine_timer_interrupt : ℕ
machine_timer_interrupt = 0x80000007

abbrev pub instruction_address_misaligned : ℕ
instruction_address_misaligned = 0x0

abbrev pub illegal_instruction : ℕ
illegal_instruction = 0x2

abbrev pub load_address_misaligned : ℕ
load_address_misaligned = 0x4

abbrev pub load_access_fault : ℕ
load_access_fault = 0x5

abbrev pub store_address_misaligned : ℕ
store_address_misaligned = 0x6

abbrev pub store_access_fault : ℕ
store_access_fault = 0x7

abbrev pub ecall_from_m_mode : ℕ
ecall_from_m_mode = 0xb
