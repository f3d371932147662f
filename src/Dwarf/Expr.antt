-- ===== src/Dwarf/Expr.antt =====
-- t89emu/src/Dwarf/DwarfExpr.cpp: the stack machine of location expressions.
pub mod Laws
use t89emu.Common.{
  ℕ, zero, suc, ◌+◌, ◌-◌, ◌==◌, leb, ◌&&◌, Bool, true, false, if◌then◌else◌, Option, none, some,
  List, [], ◌∷◌, length, u32, add32,
}
use t89emu.State.RegisterFile.{RegisterFile}
use t89emu.Dwarf.DataStream.{DataStream, decode_uint8, decode_uint32, decode_leb128, is_streamable}
use t89emu.Dwarf.CallFrame.{CallFrameInfo}
use t89emu.Dwarf.CallFrame.Table.{Cfa, cfa, not_found, exits, undefined, get_cfa_at_location}
use t89emu.Dwarf.Encoding.Operation
use t89emu.Result.{Result, ok, exited, fault, out_of_fuel, ◌>>=◌, lift}
use t89emu.Dwarf.Info.{DebugData, empty_data, write, get_uint}
use t89emu.Dwarf.Info.Decode.{le_bytes}

-- What an expression is evaluated in: the call frames, the address and the registers.
pub record Frame : Type 0 where
  pub cfi : CallFrameInfo
  pub pc : ℕ
  pub regs : RegisterFile

-- A `StackMachine`: its stack, and the place of `exprStream`, which `setData` and `setLen` leave alone.
pub record Machine : Type 0 where
  pub stack : List ℕ
  pub index : ℕ

-- The constructor.
abbrev pub new_machine : Machine
new_machine = record { stack = []; index = 0 }

-- `DW_OP_call_frame_cfa`.
unfoldable pub push_cfa : Cfa → List ℕ → Result (List ℕ)
push_cfa not_found stack = exited
push_cfa exits stack = exited
push_cfa undefined stack = fault
push_cfa (cfa address) stack = ok (address ∷ stack)

-- One operation. `parent` evaluates the frame base of the variable's parent; it is `none` where there is no
-- variable. The stack has its top in front.
unfoldable pub operation :
    Frame → Option (Result ℕ) → List ℕ → DataStream → Result (List ℕ × DataStream)
unfolding push_cfa
operation f parent stack s0 = do
  (opcode, s) ← lift (decode_uint8 s0)
  if leb Operation.lit0 opcode && leb opcode Operation.lit31
      then ok ((opcode - Operation.lit0) ∷ stack, s)
      else if opcode == Operation.addr
      then (do (v, s') ← lift (decode_uint32 s); ok (v ∷ stack, s'))
      else if opcode == Operation.fbreg
      then elim parent [
        | none ↦ exited
        | some base ↦ do
          (offset, s') ← lift (decode_leb128 s)
          location ← base
          ok (add32 (u32 offset) location ∷ stack, s')
      ]
      else if opcode == Operation.call_frame_cfa
      then (do stack' ← push_cfa (get_cfa_at_location f.cfi f.pc f.regs) stack; ok (stack', s))
      else exited

unfoldable pub run :
    ℕ → Frame → Option (Result ℕ) → List ℕ → DataStream → Result (List ℕ × DataStream)
run zero f parent stack s = elim (is_streamable s) [ true ↦ out_of_fuel | false ↦ ok (stack, s) ]
run (suc fuel) f parent stack s = elim (is_streamable s) [
  | false ↦ ok (stack, s)
  | true ↦ do (stack', s') ← operation f parent stack s; run fuel f parent stack' s'
]

-- `stack.top()`, written out as four bytes.
unfoldable pub top : List ℕ → Result DebugData
unfolding le_bytes
top [] = fault
top (v ∷ stack) = ok (write empty_data (le_bytes 4 v))

-- `parseExpr`, and the machine as it leaves it: one round of the loop for each byte is enough. The stream goes
-- on where an earlier call has left it.
unfoldable pub evaluate :
    Frame → Option (Result ℕ) → Machine → DebugData → Result (DebugData × Machine)
unfolding run top
evaluate f parent m expr = do
  (stack', s) ←
      run (length expr.bytes) f parent m.stack
        (record { bytes = expr.bytes; index = m.index; stream_len = length expr.bytes })
  res ← top stack'
  ok (res, record { stack = stack'; index = s.index })

-- The value of a frame base: a machine of its own, and no variable.
unfoldable pub frame_base : Frame → Option DebugData → Result ℕ
unfolding evaluate
frame_base f none = fault
frame_base f (some fb_loc) = do
  (location, _) ← evaluate f none new_machine fb_loc
  get_uint location
