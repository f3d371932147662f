-- ===== src/Tests/Machine.antt =====
-- Whole instructions, cycles and traps on a machine with a program.
use t89emu.Common.{
  ℕ, ◌+◌, ◌-◌, ◌*◌, ◌≡◌, ◌⊎◌, ◌↔◌, refl, arith, some, ◌==◌, if◌then◌else◌, leb, true, add32, max,
}
use t89emu.Arch.Code
use t89emu.Bus
use t89emu.Bus.{rom, ram, vram, clint, base_part}
use t89emu.Bus.Access.{KeepsDevices}
use t89emu.Core.Alu
use t89emu.Core.Immediate.{get_immediate, itype_immediate}
use t89emu.Core.AluControl.{get_alu_operation}
use t89emu.Device.Memory
use t89emu.Device.Memory.{get_end_address}
use t89emu.Device.Memory.Bytes.{load_le, store_le}
use t89emu.Device.Rom
use t89emu.Device.Clint
use t89emu.State.RegisterFile
use t89emu.State.Csr
use t89emu.State.Csr.{Csr, get_mie, get_mpie, get_mpp, mstatus, mepc, mcause, mtvec}
use t89emu.State.NextPc.{ProgramCounter, target, calculate_next_pc}
use t89emu.State.Trap.{save_status, take_trap}
use t89emu.State.Trap.Laws.{take_trap_saves}
use t89emu.Mcu.{init, interrupt_phase, next_instruction}
use t89emu.Mcu.Decode.{decode}
use t89emu.Mcu.Execute.{Mcu, restore_status, dispatch, finish, execute_instruction}
use t89emu.Mcu.Execute.Precise.{execute_instruction_precise}
use t89emu.Mcu.Cycle.{next_instruction_lem}
use t89emu.Mcu.Invariant.{IsWellFormed}
use t89emu.Mcu.Status.{trap_return_restores}
use t89emu.Tests.Program.{machine, machine-IsWellFormed, is_some, get, some-get}

abbrev after : Mcu
after = get machine (next_instruction machine)

machine_runs : is_some (next_instruction machine) ≡ true
unfolding init next_instruction interrupt_phase execute_instruction dispatch finish decode
    get_immediate itype_immediate Bus.read Clint.check_interrupts get_mie Clint.next_cycle load_le
    store_le Csr.set_mtip Bus.read_device Rom.read Memory.peek get_alu_operation RegisterFile.read
    Alu.execute RegisterFile.write calculate_next_pc target
machine_runs = refl

next_instruction_lem_example :
    IsWellFormed after
    × (after.bus ≡ machine.bus)
    × (after.devices.rom_device ≡ machine.devices.rom_device)
    × KeepsDevices machine.devices after.devices
next_instruction_lem_example =
    next_instruction_lem machine after machine-IsWellFormed
      (some-get machine (next_instruction machine) machine_runs)

-- ADDI has written its register and gone on.
after_values : (after.rf.registers 1 ≡ 5) × (after.pc.pc ≡ 4)
unfolding init next_instruction interrupt_phase execute_instruction dispatch finish decode
    get_immediate itype_immediate Bus.read Clint.check_interrupts get_mie Clint.next_cycle load_le
    store_le Csr.set_mtip Bus.read_device Rom.read Memory.peek get_alu_operation RegisterFile.read
    Alu.execute RegisterFile.write calculate_next_pc target
after_values = (refl, refl)

-- At the zeros behind the program there is no instruction.
abbrev at_zeros : Mcu
at_zeros = record machine { pc = record { pc = 4 } }

at_zeros_throws : execute_instruction at_zeros ≡ some (at_zeros, Code.illegal_instruction)
unfolding init execute_instruction dispatch finish decode get_immediate Bus.read load_le
    Bus.read_device Rom.read Memory.peek
at_zeros_throws = refl

execute_instruction_precise_example : at_zeros ≡ at_zeros
execute_instruction_precise_example =
    execute_instruction_precise at_zeros at_zeros Code.illegal_instruction at_zeros_throws
      (λ e. omega arith) (λ e. omega arith)

-- Interrupts are on and the vector table is at 0x100.
abbrev armed : Csr
armed = record { registers = λ a. if a == mstatus then 8 else if a == mtvec then 0x100 else 0 }

abbrev at_forty : ProgramCounter
at_forty = record { pc = 0x40 }

take_trap_saves_example :
    let (csr', p', n') = take_trap armed at_forty Code.ecall_from_m_mode in
    (get_mie csr' ≡ 0)
    × (get_mpie csr' ≡ max (get_mie armed) (get_mpie armed))
    × (get_mpp csr' ≡ 3)
    × (csr'.registers mepc
        ≡ (if Code.ecall_from_m_mode == Code.ecall_from_m_mode then add32 0x40 4 else 0x40))
    × (csr'.registers mcause ≡ Code.ecall_from_m_mode)
    × ((a : ℕ) → (csr'.registers a ≡ armed.registers a) ⊎ (a ≡ mstatus) ⊎ (a ≡ mepc) ⊎ (a ≡ mcause))
    × (p'.pc
        ≡ add32 (armed.registers mtvec) (
            4
            * (if leb 0x80000000 Code.ecall_from_m_mode
                then Code.ecall_from_m_mode - 0x80000000
                else 16 + Code.ecall_from_m_mode)))
    × (n'.next_pc ≡ p'.pc)
take_trap_saves_example = take_trap_saves armed at_forty Code.ecall_from_m_mode (omega arith)

trap_return_restores_example :
    let csr' = restore_status (save_status armed 0x40 2) in
    (get_mie csr' ≡ max (get_mie armed) (get_mpie armed))
    × ((get_mie csr' ≡ get_mie armed) ↔ ((get_mie armed ≡ 1) ⊎ (get_mpie armed ≡ 0)))
trap_return_restores_example = trap_return_restores armed 0x40 2

-- A handler with interrupts off, MPIE set by an earlier MRET: after a nested trap they are on.
nested_trap :
    let inside : Csr = record { registers = λ a. if a == mstatus then 128 else 0 } in
    (get_mie inside ≡ 0) × (get_mie (restore_status (save_status inside 0x40 2)) ≡ 1)
nested_trap =
    let inside : Csr = record { registers = λ a. if a == mstatus then 128 else 0 } in
    unfold get_mie save_status restore_status Csr.set_mpp Csr.set_mpie get_mpie Csr.reset_mie
      Csr.set_mcause Csr.write_csr Csr.set_mepc Csr.set_mie in
    (refl, refl)
