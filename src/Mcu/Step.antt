-- ===== src/Mcu/Step.antt =====
-- The invariant over a whole instruction and a whole cycle.
use t89emu.Common.{
  ℕ, ◌<◌, ◌^◌, refl, inl, inr, arith, none, Ensures, Ensures-if, Ensures-bind, if_both, ◌==◌, not,
}
use t89emu.Arch.{word}
use t89emu.Arch.Code
use t89emu.Core.Immediate.Bounds.{get_immediate-lt}
use t89emu.Device.Memory.Access.{IsStatus, IsWord, IsAnswer}
use t89emu.Bus
use t89emu.Bus.Access.{read-IsAnswer}
use t89emu.State.Csr
use t89emu.State.Csr.{Csr}
use t89emu.State.NextPc.{ProgramCounter, NextPc, target, calculate_next_pc}
use t89emu.State.Words.{IsCsr, take_trap-IsCsr}
use t89emu.Mcu.{trap}
use t89emu.Mcu.Decode.{Decoded, decode}
use t89emu.Mcu.Execute.{Mcu, Flow, proceed, throw, dispatch, finish, execute_instruction}
use t89emu.Mcu.Execute.Safety.{dispatch-FlowOk}
use t89emu.Mcu.Invariant.{
  IsWellFormed, Follows, Follows-refl, Follows-trans, Follows-of_same, FlowOk,
}

abbrev pub StepOk : Mcu → Mcu × ℕ → Type 0
StepOk c (c', status) = IsWellFormed c' × Follows c c' × IsStatus status

get_mepc-lt : (csr : Csr) → IsCsr csr → Csr.get_mepc csr < 2 ^ 32
unfolding Csr.get_mepc
get_mepc-lt csr h = h Csr.mepc

decoded-lt : (i : ℕ) → i < 2 ^ 32 → (decode i).immediate < 2 ^ 32
unfolding decode
decoded-lt i h = get_immediate-lt i h

target-lt :
    (n : NextPc) (offset opcode funct3 a b mepc : ℕ)
    → mepc < 2 ^ 32
    → target n offset opcode funct3 a b mepc < 2 ^ 32
unfolding target
target-lt n offset opcode funct3 a b mepc h = ground arith

calculated :
    (n : NextPc) (offset opcode funct3 a b mepc : ℕ)
    → mepc < 2 ^ 32
    → ((calculate_next_pc n offset opcode funct3 a b mepc).0.next_pc < 2 ^ 32)
      × IsStatus (calculate_next_pc n offset opcode funct3 a b mepc).1
unfolding calculate_next_pc
calculated n offset opcode funct3 a b mepc h =
    (target-lt n offset opcode funct3 a b mepc h, ground arith)

-- A machine with other counters.
with_counters :
    {c : Mcu} {p : ProgramCounter} {n : NextPc}
    → IsWellFormed c
    → p.pc < 2 ^ 32
    → n.next_pc < 2 ^ 32
    → IsWellFormed (record c { pc = p; next_pc = n })
with_counters w hp hn = record {
  registers = w.registers;
  csrs = w.csrs;
  pc_word = hp;
  next_word = hn;
  memory = w.memory;
}

finish-StepOk : (c : Mcu) (d : Decoded) (f : Flow) → FlowOk c f → StepOk c (finish d f)
unfolding finish
finish-StepOk c d (throw c' code) (w, f, l) = (w, f, inr l)
finish-StepOk c d (proceed c' a b) (w, f, ha, hb, p, n) =
    let mepc = Csr.get_mepc c'.csr in
    let (hn, hs) =
      calculated c'.next_pc d.immediate d.opcode d.funct3 a b mepc (get_mepc-lt c'.csr w.csrs) in
    if_both (StepOk c) _ _ _
      (with_counters w w.pc_word hn, Follows-trans f (Follows-of_same c' _ refl refl), hs)
      (with_counters w hn hn, Follows-trans f (Follows-of_same c' _ refl refl), inl refl)

-- A well-formed machine stays well formed under one instruction, whatever word it fetches and however
-- the instruction ends; its bus, ROM and the place of its devices stay the same; and the status is
-- success or the code of an exception.
pub execute_instruction-StepOk :
    (c : Mcu) → IsWellFormed c → Ensures (StepOk c) (execute_instruction c)
unfolding execute_instruction
execute_instruction-StepOk c w =
    Ensures-bind IsAnswer (StepOk c) (Bus.read c.bus c.devices c.pc.pc word none) _
      (read-IsAnswer c.bus c.devices c.pc.pc word w.memory)
      λ r hr.
        Ensures-if (StepOk c) (not (r.0 == Code.status_ok)) _ _ (λ _. (w, Follows-refl c, hr.0))
          λ _. Ensures-bind IsWord (StepOk c) r.1 _ hr.1 λ i hi.
            Ensures-bind (FlowOk c) (StepOk c) (dispatch c c.pc.pc (decode i)) _
              (dispatch-FlowOk c w c.pc.pc (decode i) w.pc_word (decoded-lt i hi))
              (λ f hf. finish-StepOk c (decode i) f hf)

pub trap-IsWellFormed :
    (c : Mcu) (cause : ℕ) → IsWellFormed c → cause < 2 ^ 32 → IsWellFormed (trap c cause)
unfolding trap
trap-IsWellFormed c cause w hc =
    let (hs, hp, hn) = take_trap-IsCsr c.csr c.pc cause w.csrs w.pc_word hc in
    record { registers = w.registers; csrs = hs; pc_word = hp; next_word = hn; memory = w.memory }

pub trap-Follows : (c : Mcu) (cause : ℕ) → Follows c (trap c cause)
unfolding trap
trap-Follows c cause = Follows-of_same c _ refl refl
