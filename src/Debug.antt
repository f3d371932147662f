-- ===== src/Debug.antt =====
-- t89emu/src/McuDebug.cpp: breakpoints and stepping. The line table of the DWARF parser is a parameter:
-- `line_at pc` is `dwarfParser->getLineNumberAtPc(pc)`, 0 where no line starts.
pub mod Breakpoints
pub mod Stepping
pub mod Session
use t89emu.Common.{
  ℕ, zero, suc, ◌+◌, ◌==◌, not, ◌&&◌, ◌||◌, if◌then◌else◌, Bool, true, false, Option, none, some,
  ◌>>=◌, List, [], ◌∷◌, ◌++◌,
}
use t89emu.Mcu.{next_instruction}
use t89emu.Mcu.Execute.{Mcu}

pub record McuDebug : Type 0 where
  pub mcu : Mcu
  pub latest_source_line : ℕ
  pub breakpoints : List ℕ

-- `std::find` over the breakpoints.
unfoldable pub contains : List ℕ → ℕ → Bool
contains [] address = false
contains (b ∷ bs) address = b == address || contains bs address

unfoldable pub is_breakpoint : McuDebug → ℕ → Bool
unfolding contains
is_breakpoint s address = contains s.breakpoints address

unfoldable pub add_breakpoint : McuDebug → ℕ → McuDebug
unfolding contains
add_breakpoint s address =
    if not (contains s.breakpoints address)
    then record s { breakpoints = s.breakpoints ++ (address ∷ []) }
    else s

-- The loop stops at the first breakpoint that it erases.
unfoldable pub erase_first : List ℕ → ℕ → List ℕ
erase_first [] address = []
erase_first (b ∷ bs) address = if address == b then bs else b ∷ erase_first bs address

unfoldable pub remove_breakpoint : McuDebug → ℕ → McuDebug
unfolding erase_first
remove_breakpoint s address = record s { breakpoints = erase_first s.breakpoints address }

-- `none`: some instruction has no defined behaviour.
unfoldable pub execute_instructions : ℕ → McuDebug → Option McuDebug
execute_instructions zero s = some s
execute_instructions (suc cycles) s = elim (is_breakpoint s s.mcu.pc.pc) [
  | true ↦ some s
  | false ↦ next_instruction s.mcu >>= λ c. execute_instructions cycles (record s { mcu = c })
]

-- How a loop on fuel ends.
pub data Loop : Type 0 where
  done : McuDebug → Loop
  fault out_of_fuel : Loop

module _ (line_at : ℕ → ℕ) where
  pub step_instruction : McuDebug → Option McuDebug
  step_instruction s = do
    c ← next_instruction s.mcu
    let cur_line = line_at c.pc.pc
    some (record s {
      mcu = c;
      latest_source_line = if not (cur_line == 0) then cur_line else s.latest_source_line;
    })

  -- The condition of the do-while loop.
  unfoldable pub keep_going : ℕ → ℕ → ℕ → Bool
  keep_going latest start_pc cur_pc =
      (line_at cur_pc == 0 || line_at cur_pc == latest) && not (start_pc == cur_pc)

  pub step_line_loop : ℕ → ℕ → McuDebug → Loop
  unfolding keep_going
  step_line_loop zero start_pc s = out_of_fuel
  step_line_loop (suc fuel) start_pc s = elim (next_instruction s.mcu) [
    | none ↦ fault
    | some c ↦ elim (keep_going s.latest_source_line start_pc c.pc.pc) [
      | true ↦ step_line_loop fuel start_pc (record s { mcu = c })
      | false ↦ done (record s { mcu = c; latest_source_line = line_at c.pc.pc })
    ]
  ]

  pub step_line : ℕ → McuDebug → Loop
  unfolding step_line_loop
  step_line fuel s = step_line_loop fuel s.mcu.pc.pc s
