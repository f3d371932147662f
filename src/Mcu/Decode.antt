-- ===== src/Mcu/Decode.antt =====
-- t89emu/src/Mcu.cpp, the decode stage of `executeInstruction`.
use t89emu.Common.{ℕ, ◌>>>◌, bit_and}
use t89emu.Core.Immediate.{get_immediate}

pub record Decoded : Type 0 where
  pub opcode : ℕ
  pub funct3 : ℕ
  pub funct7 : ℕ
  pub rs1 : ℕ
  pub rs2 : ℕ
  pub rd : ℕ
  pub immediate : ℕ
  pub csr_addr : ℕ

unfoldable pub decode : ℕ → Decoded
decode instruction = record {
  opcode = bit_and instruction 0b1111111;
  funct3 = bit_and (instruction >>> 12) 0b111;
  funct7 = bit_and (instruction >>> 25) 0b1111111;
  rs1 = bit_and (instruction >>> 15) 0b11111;
  rs2 = bit_and (instruction >>> 20) 0b11111;
  rd = bit_and (instruction >>> 7) 0b11111;
  immediate = get_immediate instruction;
  csr_addr = bit_and (instruction >>> 20) 0xfff;
}
