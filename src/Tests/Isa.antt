-- ===== src/Tests/Isa.antt =====
-- The abstract machine beside the emulator, on a concrete program.
use t89emu.Common.{◌≡◌, refl, ap, arith, some, none}
use t89emu.Arch.{word}
use t89emu.Arch.Code
use t89emu.Bus
use t89emu.Device.Memory
use t89emu.Device.Memory.Bytes.{load_le}
use t89emu.Device.Rom
use t89emu.Mcu.{init}
use t89emu.Mcu.Execute.{execute_instruction}
use t89emu.Mcu.Isa.{add, sub, immediate, step}
use t89emu.Mcu.Isa.Compute.{variant}
use t89emu.Mcu.Isa.Refine.{view, with_state, encode, execute_instruction_refines}
use t89emu.Core.Immediate.RoundTrip.{encode_i}
use t89emu.Tests.Program.{machine, machine-IsWellFormed}

fetched :
    Bus.read machine.bus machine.devices machine.pc.pc word none
    ≡ some (Code.status_ok, some (encode (immediate add 1 0 5)))
unfolding init Bus.read load_le Bus.read_device Rom.read Memory.peek encode_i
fetched = refl

execute_instruction_refines_example :
    execute_instruction machine
    ≡ some (with_state machine (step (immediate add 1 0 5) (view machine)), Code.status_ok)
execute_instruction_refines_example =
    execute_instruction_refines machine (immediate add 1 0 5) machine-IsWellFormed
      (unfold init in refl)
      (λ (h : add ≡ sub). omega (arith, ap variant h), omega arith, omega arith, omega arith) tt
      fetched (unfold init in refl)
