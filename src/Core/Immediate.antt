-- ===== src/Core/Immediate.antt =====
-- t89emu/src/ImmediateGenerator.cpp.
pub mod Formats
pub mod Bounds
pub mod RoundTrip
use t89emu.Common.{ℕ, ◌+◌, ◌==◌, not, if◌then◌else◌, ◌||◌, u32, ◌>>>◌, ◌<<<◌, bit_and, bit_or}
use t89emu.Arch.Opcode

-- `immediate |= mask` if the sign digit is set.
extend_by : ℕ → ℕ → ℕ → ℕ
extend_by sign mask immediate = if sign == 1 then bit_or immediate mask else immediate

pub jal_immediate : ℕ → ℕ
unfolding extend_by
jal_immediate instruction =
    let fields =
      bit_or
        (bit_or
          (bit_or (bit_and (instruction >>> 12) 0x80000) (bit_and (instruction >>> 1) 0x7f800))
          (bit_and (instruction >>> 10) 0x400))
        (bit_and (instruction >>> 21) 0x3ff) in
    u32 (extend_by (bit_and (fields >>> 19) 0b1) 0xfff00000 fields <<< 1)

pub jalr_immediate : ℕ → ℕ
unfolding extend_by
jalr_immediate instruction =
    let fields = bit_and (instruction >>> 20) 0xfff in
    extend_by (bit_and (fields >>> 11) 0b1) 0xfffff000 fields

pub branch_immediate : ℕ → ℕ
unfolding extend_by
branch_immediate instruction =
    let fields =
      bit_or
        (bit_or
          (bit_or (bit_and (instruction >>> 20) 0x800) (bit_and (u32 (instruction <<< 3)) 0x400))
          (bit_and (instruction >>> 21) 0x3f0))
        (bit_and (instruction >>> 8) 0xf) in
    u32 (extend_by (bit_and (fields >>> 11) 0x1) 0xfffff000 fields <<< 1)

-- `if (instruction >> 31)` is taken on any value but 0.
extend_msb : ℕ → ℕ → ℕ
extend_msb instruction immediate =
    if not (instruction >>> 31 == 0) then bit_or immediate 0xfffff000 else immediate

pub load_immediate : ℕ → ℕ
unfolding extend_msb
load_immediate instruction = extend_msb instruction (instruction >>> 20)

pub store_immediate : ℕ → ℕ
unfolding extend_msb
store_immediate instruction =
    extend_msb instruction
      (u32 (bit_and (instruction >>> 20) 0xfe0 + bit_and (instruction >>> 7) 0b11111))

unfoldable pub itype_immediate : ℕ → ℕ
unfolding extend_msb
itype_immediate instruction =
    let immediate = extend_msb instruction (instruction >>> 20) in
    let funct3 = bit_and (instruction >>> 12) 0b111 in
    if funct3 == 0b001 || funct3 == 0b101 then bit_and immediate 0b11111 else immediate

unfoldable pub get_immediate : ℕ → ℕ
get_immediate instruction =
    let opcode = bit_and instruction 0b1111111 in
    if opcode == Opcode.lui
    then bit_and instruction 0xfffff000
    else if opcode == Opcode.auipc
    then bit_and instruction 0xfffff000
    else if opcode == Opcode.jal
    then jal_immediate instruction
    else if opcode == Opcode.jalr
    then jalr_immediate instruction
    else if opcode == Opcode.btype
    then branch_immediate instruction
    else if opcode == Opcode.load
    then load_immediate instruction
    else if opcode == Opcode.store
    then store_immediate instruction
    else if opcode == Opcode.itype
    then itype_immediate instruction
    else if opcode == Opcode.priv
    then bit_and (instruction >>> 20) 0xfff
    else 0
