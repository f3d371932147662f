-- ===== src/Debug/Stepping.antt =====
-- Running and stepping, against a plain iteration of the machine.
use t89emu.Common.{
  ℕ, zero, suc, ◌<◌, ◌≤◌, ◌≡◌, ◌⊎◌, inl, inr, refl, ap, arith, true, false, Option, none, some,
  ◌>>=◌, Bool-cases, ◌∙◌,
}
use mathlib.Core.Path.{subst}
use t89emu.Mcu.{next_instruction}
use t89emu.Mcu.Execute.{Mcu}
use t89emu.Mcu.Invariant.{IsWellFormed}
use t89emu.Mcu.Cycle.{next_instruction_lem}
use t89emu.Debug.{McuDebug, is_breakpoint, execute_instructions, keep_going}

-- `n` cycles.
unfoldable pub run : ℕ → Mcu → Option Mcu
run zero c = some c
run (suc n) c = next_instruction c >>= run n

Option-view {ℓ} : {A : Type ℓ} (o : Option A) → (o ≡ none) ⊎ ((a : A) × (o ≡ some a))
Option-view none = inl refl
Option-view (some a) = inr (a, refl)

-- What a run of `n` cycles that stopped has done.
pub record Stopped (cycles n : ℕ) (s s' : McuDebug) : Type 0 where
  pub within : n ≤ cycles
  pub reached : run n s.mcu ≡ some s'.mcu
  pub why : (n ≡ cycles) ⊎ (is_breakpoint s s'.mcu.pc.pc ≡ true)
  pub before : (k : ℕ) (c : Mcu) → k < n → run k s.mcu ≡ some c → is_breakpoint s c.pc.pc ≡ false
  pub breakpoints_same : s'.breakpoints ≡ s.breakpoints
  pub line_same : s'.latest_source_line ≡ s.latest_source_line

Stopped-here :
    (cycles : ℕ) (s s' : McuDebug)
    → ◌≡◌ {A = Option McuDebug} (some s) (some s')
    → (0 ≡ cycles) ⊎ (is_breakpoint s s.mcu.pc.pc ≡ true)
    → Stopped cycles 0 s s'
unfolding run
Stopped-here cycles s s' e why =
    let same : s ≡ s' = cc in
    subst (Stopped cycles 0 s) same (record {
      within = omega arith;
      reached = refl;
      why = why;
      before = λ k c h r. absurd (omega arith);
      breakpoints_same = refl;
      line_same = refl;
    })

-- No state before the end is at a breakpoint, the first one included.
earlier :
    (n : ℕ) (s : McuDebug) (c0 : Mcu)
    → next_instruction s.mcu ≡ some c0
    → is_breakpoint s s.mcu.pc.pc ≡ false
    → ((k : ℕ) (c : Mcu) → k < n → run k c0 ≡ some c → is_breakpoint s c.pc.pc ≡ false)
    → (k : ℕ) (c : Mcu) → k < suc n
    → run k s.mcu ≡ some c
    → is_breakpoint s c.pc.pc ≡ false
unfolding run
earlier n s c0 next go rest zero c h r =
    let same : s.mcu ≡ c = cc in subst (λ x. is_breakpoint s x.pc.pc ≡ false) same go
earlier n s c0 next go rest (suc k) c h r = rest k c (omega arith) (rw next at r)

Stopped-later :
    (cycles n : ℕ) (s s' : McuDebug) (c : Mcu)
    → next_instruction s.mcu ≡ some c
    → is_breakpoint s s.mcu.pc.pc ≡ false
    → Stopped cycles n (record s { mcu = c }) s'
    → Stopped (suc cycles) (suc n) s s'
Stopped-later cycles n s s' c next go h = record {
  within = omega arith;
  reached = unfold run in rw next h.reached;
  why = elim (h.why) [ inl e ↦ inl (ap suc e) | inr b ↦ inr (unfold is_breakpoint in b) ];
  before = earlier n s c next go (λ k c' l r. unfold is_breakpoint in h.before k c' l r);
  breakpoints_same = h.breakpoints_same;
  line_same = h.line_same;
}

execute_instructions-Stopped :
    (cycles : ℕ) (s s' : McuDebug)
    → execute_instructions cycles s ≡ some s'
    → (n : ℕ) × Stopped cycles n s s'
unfolding execute_instructions
execute_instructions-Stopped zero s s' e = (0, Stopped-here 0 s s' e (inl refl))
execute_instructions-Stopped (suc cycles) s s' e = elim (Bool-cases (is_breakpoint s s.mcu.pc.pc)) [
  | inl stop ↦ (0, Stopped-here (suc cycles) s s' (rw (stop, execute_instructions) at e) (inr stop))
  | inr go ↦ elim (Option-view (next_instruction s.mcu)) [
    | inl bad ↦ cc (let r = rw (go, bad, execute_instructions) at e in r)
    | inr (c, next) ↦
        let r : execute_instructions cycles (record s { mcu = c }) ≡ some s' =
          rw (go, next, execute_instructions) at e in
        let (n, h) = execute_instructions-Stopped cycles (record s { mcu = c }) s' r in
        (suc n, Stopped-later cycles n s s' c next go h)
  ]
]

execute_instructions_ends :
    (cycles : ℕ) (s : McuDebug) (c : Mcu)
    → run cycles s.mcu ≡ some c
    → (s' : McuDebug) × (execute_instructions cycles s ≡ some s')
unfolding execute_instructions run
execute_instructions_ends zero s c r = (s, refl)
execute_instructions_ends (suc cycles) s c r = elim (Bool-cases (is_breakpoint s s.mcu.pc.pc)) [
  | inl stop ↦ (s, rw (stop, execute_instructions) refl)
  | inr go ↦ elim (Option-view (next_instruction s.mcu)) [
    | inl bad ↦ cc (let q = rw bad at r in q)
    | inr (c1, next) ↦
        let (s', h) = execute_instructions_ends cycles (record s { mcu = c1 }) c (rw next at r) in
        (s', rw (go, next, execute_instructions) h)
  ]
]

-- If `cycles` cycles have a defined result, running them with breakpoints has one too: it stops after
-- the first number of cycles at which the program counter is at a breakpoint, 0 included, or after all
-- of them if there is none.
pub execute_instructions_lem :
    (cycles : ℕ) (s : McuDebug) (c : Mcu)
    → run cycles s.mcu ≡ some c
    → (s' : McuDebug) × (n : ℕ) × (execute_instructions cycles s ≡ some s') × Stopped cycles n s s'
execute_instructions_lem cycles s c r =
    let (s', e) = execute_instructions_ends cycles s c r in
    let (n, h) = execute_instructions-Stopped cycles s s' e in (s', n, e, h)

-- Any number of cycles of a well-formed machine, if they have a defined result, leave it well formed,
-- with the same contents in ROM.
run-IsWellFormed :
    (n : ℕ) (c c' : Mcu)
    → IsWellFormed c
    → run n c ≡ some c'
    → IsWellFormed c' × (c'.devices.rom_device ≡ c.devices.rom_device)
unfolding run
run-IsWellFormed zero c c' w e =
    let same : c ≡ c' = cc in
    subst (λ x. IsWellFormed x × (x.devices.rom_device ≡ c.devices.rom_device)) same (w, refl)
run-IsWellFormed (suc n) c c' w e = elim (Option-view (next_instruction c)) [
  | inl bad ↦ cc (let r = rw bad at e in r)
  | inr (c1, next) ↦
      let step = next_instruction_lem c c1 w next in
      let (w', same) = run-IsWellFormed n c1 c' step.0 (rw next at e) in (w', same ∙ step.2)
]

-- What stepping by lines that ended has done.
pub record SteppedLine (line_at : ℕ → ℕ) (start_pc fuel n : ℕ) (s s' : McuDebug) : Type 0 where
  pub within : n < fuel
  pub reached : run (suc n) s.mcu ≡ some s'.mcu
  pub stops : keep_going line_at s.latest_source_line start_pc s'.mcu.pc.pc ≡ false
  pub before :
      (k : ℕ) (c : Mcu)
      → k < n
      → run (suc k) s.mcu ≡ some c
      → keep_going line_at s.latest_source_line start_pc c.pc.pc ≡ true
  pub line_set : s'.latest_source_line ≡ line_at s'.mcu.pc.pc
  pub breakpoints_same : s'.breakpoints ≡ s.breakpoints
