-- ===== src/Tests/Debugger.antt =====
-- The debugger on a machine with a program.
use t89emu.Common.{ℕ, ◌/◌, ◌≡◌, refl, some, ◌==◌, ◌||◌, true}
use t89emu.Bus
use t89emu.Core.Alu
use t89emu.Core.Immediate.{get_immediate, itype_immediate}
use t89emu.Core.AluControl.{get_alu_operation}
use t89emu.Device.Memory
use t89emu.Device.Memory.Bytes.{load_le, store_le}
use t89emu.Device.Rom
use t89emu.Device.Clint
use t89emu.State.RegisterFile
use t89emu.State.Csr
use t89emu.State.Csr.{get_mie}
use t89emu.State.NextPc.{target, calculate_next_pc}
use t89emu.Mcu.{init, interrupt_phase, next_instruction}
use t89emu.Mcu.Decode.{decode}
use t89emu.Mcu.Execute.{Mcu, dispatch, finish, execute_instruction}
use t89emu.Debug.{McuDebug, contains, is_breakpoint, add_breakpoint, execute_instructions}
use t89emu.Debug.Breakpoints.{IsDistinct, add_breakpoint_lem}
use t89emu.Debug.Stepping.{run, Stopped, execute_instructions_lem}
use t89emu.Tests.Program.{machine, session, is_some, get, some-get}

abbrev after : Mcu
after = get machine (run 1 machine)

one_runs : is_some (run 1 machine) ≡ true
unfolding run init next_instruction interrupt_phase execute_instruction dispatch finish decode
    get_immediate itype_immediate Bus.read Clint.check_interrupts get_mie Clint.next_cycle load_le
    store_le Csr.set_mtip Bus.read_device Rom.read Memory.peek get_alu_operation RegisterFile.read
    Alu.execute RegisterFile.write calculate_next_pc target
one_runs = refl

after_one : run 1 machine ≡ some after
after_one = some-get machine (run 1 machine) one_runs

execute_instructions_lem_example :
    (s' : McuDebug) × (n : ℕ) × (execute_instructions 1 session ≡ some s') × Stopped 1 n session s'
execute_instructions_lem_example = execute_instructions_lem 1 session after after_one

-- One line for each word.
abbrev lines : ℕ → ℕ
lines pc = pc / 4

add_breakpoint_lem_example :
    ((b : ℕ) → is_breakpoint (add_breakpoint session 8) b ≡ (is_breakpoint session b || 8 == b))
    × IsDistinct (add_breakpoint session 8).breakpoints
add_breakpoint_lem_example = add_breakpoint_lem session 8 (unfold contains in (refl, tt))
