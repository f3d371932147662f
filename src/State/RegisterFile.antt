-- ===== src/State/RegisterFile.antt =====
-- t89emu/src/RegisterFile.cpp: 32 registers. An index out of range has no behaviour: `none`.
use t89emu.Common.{ℕ, ◌==◌, ltb, not, if◌then◌else◌, Option, none, some, update}

pub record RegisterFile : Type 0 where
  pub registers : ℕ → ℕ

abbrev register_count : ℕ
register_count = 32

unfoldable pub init : RegisterFile
init = record { registers = λ _. 0 }

unfoldable pub read : RegisterFile → ℕ → Option ℕ
read rf reg = if ltb reg register_count then some (rf.registers reg) else none

-- Writing to register x0 stores 0.
unfoldable pub write : RegisterFile → ℕ → ℕ → Option RegisterFile
write rf data_in reg =
    if ltb reg register_count
    then some
        (record { registers = update rf.registers reg (if not (reg == 0) then data_in else 0) })
    else none
