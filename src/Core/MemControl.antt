-- ===== src/Core/MemControl.antt =====
-- t89emu/src/MemControlUnit.cpp: how many bytes a load or store moves.
use t89emu.Common.{ℕ, ◌==◌, if◌then◌else◌, ◌||◌}
use t89emu.Arch.{byte, halfword, word}

unfoldable pub get_mem_size : ℕ → ℕ
get_mem_size funct3 =
    if funct3 == 0b000 || funct3 == 0b100
    then byte
    else if funct3 == 0b001 || funct3 == 0b101
    then halfword
    else if funct3 == 0b010
    then word
    else 0
