-- ===== src/Mcu/Cycle.antt =====
-- The invariant over a whole cycle: the interruptor, a trap, and up to two instructions.
use t89emu.Common.{
  ℕ, ◌<◌, ◌^◌, ◌≡◌, refl, inl, inr, arith, some, Ensures, Ensures-if, Ensures-bind, Ensures-some,
  Bool-cases, true, ◌==◌, not, leb,
}
use t89emu.Arch.Code
use t89emu.Device.Memory.Access.{IsStatus, Keeps, Keeps-refl}
use t89emu.Device.Memory.Bytes.{store_le-IsBytes}
use t89emu.Device.Clint
use t89emu.Device.Clint.{ClintMemoryDevice}
use t89emu.Bus.Access.{KeepsDevices}
use t89emu.State.Csr
use t89emu.State.Csr.{Csr}
use t89emu.State.Words.{IsCsr, if-IsCsr, set_mtip-IsCsr, reset_mtip-IsCsr, set_msip-IsCsr}
use t89emu.Mcu.{trap, interrupt_phase, next_instruction}
use t89emu.Mcu.Execute.{Mcu, execute_instruction}
use t89emu.Mcu.Invariant.{IsWellFormed, Follows, Follows-trans, KeepsDevices-DevicesOk}
use t89emu.Mcu.Step.{StepOk, execute_instruction-StepOk, trap-IsWellFormed, trap-Follows}

next_cycle-Keeps :
    (d : ClintMemoryDevice) (csr : Csr) → Keeps d.device (Clint.next_cycle d csr).0.device
unfolding Clint.next_cycle Clint.tick
next_cycle-Keeps d csr = record {
  base = refl;
  size = refl;
  bytes = store_le-IsBytes 8 d.device.mem 0 _;
}

next_cycle-IsCsr :
    (d : ClintMemoryDevice) (csr : Csr) → IsCsr csr → IsCsr (Clint.next_cycle d csr).1
unfolding Clint.next_cycle
next_cycle-IsCsr d csr h =
    let inner =
      if-IsCsr (leb (Clint.mtimecmp (Clint.tick d)) (Clint.mcycle (Clint.tick d)))
        (Csr.set_mtip csr) (Csr.reset_mtip csr) (set_mtip-IsCsr csr h) (reset_mtip-IsCsr csr h) in
    if-IsCsr (Clint.msip (Clint.tick d) == 1) _ _ (set_msip-IsCsr _ inner) inner

-- Looking for interrupts changes nothing but the device's note of which one it found.
check_interrupts_keeps :
    (d : ClintMemoryDevice) (csr : Csr)
    → ((Clint.check_interrupts d csr).0.device ≡ d.device)
      × ((Clint.check_interrupts d csr).1 ≡ true
          → (Clint.check_interrupts d csr).0.interrupt_type < 2 ^ 32)
unfolding Clint.check_interrupts
check_interrupts_keeps d csr = (ground arith, ground arith)

-- The machine after the interruptor's turn, before a trap.
advanced : Mcu → Mcu
advanced c =
    let (clint, csr) = Clint.next_cycle c.devices.clint_device c.csr in
    record c {
      csr = csr;
      devices = record (c.devices) { clint_device = (Clint.check_interrupts clint csr).0 };
    }

advanced-Follows : (c : Mcu) → Follows c (advanced c)
unfolding advanced
advanced-Follows c =
    let (clint, csr) = Clint.next_cycle c.devices.clint_device c.csr in
    let k = next_cycle-Keeps c.devices.clint_device c.csr in
    let same = (check_interrupts_keeps clint csr).0 in
    record {
      bus_same = refl;
      devices_keep = record {
        rom_same = refl;
        ram_keeps = Keeps-refl c.devices.ram_device;
        video_keeps = Keeps-refl c.devices.video_device.device;
        clint_keeps = rw same k;
      };
    }

advanced-IsWellFormed : (c : Mcu) → IsWellFormed c → IsWellFormed (advanced c)
advanced-IsWellFormed c w = record {
  registers = unfold advanced in w.registers;
  csrs = unfold advanced in next_cycle-IsCsr c.devices.clint_device c.csr w.csrs;
  pc_word = unfold advanced in w.pc_word;
  next_word = unfold advanced in w.next_word;
  memory = KeepsDevices-DevicesOk (advanced-Follows c).devices_keep w.memory;
}

interrupt_phase-Ok :
    (c : Mcu) → IsWellFormed c → IsWellFormed (interrupt_phase c) × Follows c (interrupt_phase c)
unfolding interrupt_phase advanced
interrupt_phase-Ok c w =
    let (clint, csr) = Clint.next_cycle c.devices.clint_device c.csr in
    let found = Clint.check_interrupts clint csr in
    let w' = advanced-IsWellFormed c w in
    let f' = advanced-Follows c in
    elim (Bool-cases found.1) [
      | inl pending ↦ rw pending (
        trap-IsWellFormed (advanced c) found.0.interrupt_type w'
            ((check_interrupts_keeps clint csr).1 pending),
        Follows-trans f' (trap-Follows (advanced c) found.0.interrupt_type),
      )
      | inr quiet ↦ rw quiet (w', f')
    ]

abbrev CycleOk : Mcu → Mcu → Type 0
CycleOk c c' = IsWellFormed c' × Follows c c'

-- An exception has a code that fits a register.
code-lt : (s : ℕ) → IsStatus s → s < 2 ^ 32
code-lt s (inl e) = omega arith
code-lt s (inr l) = omega arith

cycle-CycleOk : (c : Mcu) → IsWellFormed c → Ensures (CycleOk c) (next_instruction c)
unfolding next_instruction
cycle-CycleOk c w =
    let (w1, f1) = interrupt_phase-Ok c w in
    Ensures-bind (StepOk (interrupt_phase c)) (CycleOk c) (execute_instruction (interrupt_phase c))
      _ (execute_instruction-StepOk (interrupt_phase c) w1)
      λ r hr.
        let f2 = Follows-trans f1 hr.1 in
        Ensures-if (CycleOk c) (not (r.1 == Code.status_ok)) _ _
          (λ _.
            let w2 = trap-IsWellFormed r.0 r.1 hr.0 (code-lt r.1 hr.2) in
            let f3 = Follows-trans f2 (trap-Follows r.0 r.1) in
            Ensures-bind (StepOk (trap r.0 r.1)) (CycleOk c) (execute_instruction (trap r.0 r.1)) _
              (execute_instruction-StepOk (trap r.0 r.1) w2)
              (λ q hq. (hq.0, Follows-trans f3 hq.1)))
          (λ _. (hr.0, f2))

-- A cycle of a well-formed machine that has a defined result leaves a well-formed machine, with the
-- same bus, the same ROM contents and every device where it was.
pub next_instruction_lem :
    (c c' : Mcu)
    → IsWellFormed c
    → next_instruction c ≡ some c'
    → IsWellFormed c'
      × (c'.bus ≡ c.bus)
      × (c'.devices.rom_device ≡ c.devices.rom_device)
      × KeepsDevices c.devices c'.devices
next_instruction_lem c c' w e =
    let (w', f) = Ensures-some (CycleOk c) (next_instruction c) (cycle-CycleOk c w) e in
    (w', f.bus_same, f.devices_keep.rom_same, f.devices_keep)
