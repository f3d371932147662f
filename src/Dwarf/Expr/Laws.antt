-- ===== src/Dwarf/Expr/Laws.antt =====
-- Location expressions end, and the offset from a frame base.
use t89emu.Common.{
  ℕ, zero, suc, ◌+◌, ◌≤◌, ◌≡◌, refl, arith, ◌==◌, leb, ◌&&◌, Bool-cases, inl, inr, true, false,
  Option, none, some, List, [], ◌∷◌, length, u32, add32,
}
use t89emu.Dwarf.DataStream.{DataStream, decode_uint8, decode_uint32, decode_leb128, is_streamable}
use t89emu.Dwarf.DataStream.Within.{
  Within, Within-trans, decode_uint8-Within, decode_uint32-Within, decode_leb128-Within,
}
use t89emu.Dwarf.CallFrame.Table.{Cfa, cfa, not_found, exits, undefined, get_cfa_at_location}
use t89emu.Dwarf.Encoding.Operation
use t89emu.Result.{Result, ok, exited, ◌>>=◌, lift, Ends, Ends-bind, Ends-lift, Ends-mono, Ends-if}
use t89emu.Dwarf.Info.{DebugData}
use t89emu.Dwarf.Info.Value.{get_uint-Ends}
use t89emu.Dwarf.Expr.{
  Frame, Machine, new_machine, push_cfa, operation, run, top, evaluate, frame_base,
}

-- What a frame base may do, where there is one.
abbrev BaseEnds : Option (Result ℕ) → Type 0
BaseEnds none = Unit {0}
BaseEnds (some r) = Ends (λ _. Unit {0}) r

push_cfa-Ends : (c : Cfa) (stack : List ℕ) → Ends (λ _. Unit {0}) (push_cfa c stack)
unfolding push_cfa
push_cfa-Ends not_found stack = tt
push_cfa-Ends exits stack = tt
push_cfa-Ends undefined stack = tt
push_cfa-Ends (cfa v) stack = tt

operation-Ends :
    (f : Frame) (parent : Option (Result ℕ)) (stack : List ℕ) (s : DataStream)
    → BaseEnds parent
    → Ends (λ r. Within 1 s r.1) (operation f parent stack s)
unfolding operation
operation-Ends f parent stack s base =
    let P : List ℕ × DataStream → Type 0 = λ r. Within 1 s r.1 in
    Ends-bind (λ r. Within 1 s r.1) P (lift (decode_uint8 s)) _
      (Ends-lift _ (decode_uint8 s) (decode_uint8-Within s))
      λ r h.
        Ends-if P (leb Operation.lit0 r.0 && leb r.0 Operation.lit31) _ _ (λ _. h)
          λ _.
            Ends-if P (r.0 == Operation.addr) _ _
              (λ _.
                Ends-bind (λ q. Within 1 r.1 q.1) P (lift (decode_uint32 r.1)) _
                  (Ends-lift _ (decode_uint32 r.1) (decode_uint32-Within r.1))
                  (λ q k. Within-trans h k (omega arith)))
              λ _.
                Ends-if P (r.0 == Operation.fbreg) _ _ (λ _. based parent base r.1 h)
                  λ _.
                    Ends-if P (r.0 == Operation.call_frame_cfa) _ _
                      (λ _.
                        Ends-bind (λ _. Unit {0}) P
                          (push_cfa (get_cfa_at_location f.cfi f.pc f.regs) stack) _
                          (push_cfa-Ends (get_cfa_at_location f.cfi f.pc f.regs) stack) (λ _ _. h))
                      (λ _. tt)
  where
    based :
        (parent' : Option (Result ℕ))
        → BaseEnds parent'
        → (t : DataStream) → Within 1 s t
        → Ends {A = List ℕ × DataStream}
            (λ r. Within 1 s r.1)
            (elim parent' [
              | none ↦ exited
              | some b ↦ lift (decode_leb128 t) >>= λ (offset, s').
                  b >>= λ location. ok (add32 (u32 offset) location ∷ stack, s')
            ])
    based none e t h = tt
    based (some b) e t h =
        Ends-bind (λ q. Within 1 t q.1) (λ r. Within 1 s r.1) (lift (decode_leb128 t)) _
          (Ends-lift _ (decode_leb128 t) (decode_leb128-Within t))
          λ q k.
            Ends-bind (λ _. Unit {0}) (λ r. Within 1 s r.1) b _ e
              (λ _ _. Within-trans h k (omega arith))

run-Ends :
    (fuel : ℕ) (f : Frame) (parent : Option (Result ℕ)) (stack : List ℕ) (s : DataStream)
    → BaseEnds parent
    → s.stream_len ≤ s.index + fuel
    → Ends (λ r. s.stream_len ≤ r.1.index) (run fuel f parent stack s)
unfolding run
run-Ends zero f parent stack s base enough =
    let at_end : is_streamable s ≡ false = unfold is_streamable in ground arith in
    rw (at_end, run) (omega arith)
run-Ends (suc fuel) f parent stack s base enough = elim (Bool-cases (is_streamable s)) [
  | inr at_end ↦
      let behind : s.stream_len ≤ s.index = unfold is_streamable in ground arith in
      rw (at_end, run) behind
  | inl more ↦
      rw (more, run)
        (Ends-bind (λ r. Within 1 s r.1) (λ r. s.stream_len ≤ r.1.index)
          (operation f parent stack s) _ (operation-Ends f parent stack s base)
          λ r h.
            Ends-mono (λ q. r.1.stream_len ≤ q.1.index) (λ q. s.stream_len ≤ q.1.index)
              (run fuel f parent r.0 r.1) (λ q k. omega (arith, k, h.len_same))
              (run-Ends fuel f parent r.0 r.1 base (omega (arith, h.moved, h.len_same))))
]

top-Ends : (stack : List ℕ) → Ends (λ res. top stack ≡ ok res) (top stack)
unfolding top
top-Ends [] = tt
top-Ends (v ∷ stack) = refl

-- The expression has been read, and the answer is the top of the stack.
pub record Finished (expr : DebugData) (r : DebugData × Machine) : Type 0 where
  pub behind : length expr.bytes ≤ r.1.index
  pub answer : top r.1.stack ≡ ok r.0

pub evaluate-Ends :
    (f : Frame) (parent : Option (Result ℕ)) (m : Machine) (expr : DebugData)
    → BaseEnds parent
    → Ends (Finished expr) (evaluate f parent m expr)
unfolding evaluate
evaluate-Ends f parent m expr base =
    Ends-bind (λ r. length expr.bytes ≤ r.1.index) (Finished expr)
      (run (length expr.bytes) f parent m.stack _) _
      (run-Ends (length expr.bytes) f parent m.stack _ base (omega arith))
      λ r behind.
        Ends-bind (λ res. top r.0 ≡ ok res) (Finished expr) (top r.0) _ (top-Ends r.0)
          (λ res answer. record { behind = behind; answer = answer })

pub frame_base-Ends :
    (f : Frame) (fb_loc : Option DebugData) → Ends (λ _. Unit {0}) (frame_base f fb_loc)
unfolding frame_base
frame_base-Ends f none = tt
frame_base-Ends f (some fb_loc) =
    Ends-bind (Finished fb_loc) (λ _. Unit {0}) (evaluate f none new_machine fb_loc) _
      (evaluate-Ends f none new_machine fb_loc tt) (λ r _. get_uint-Ends r.0)

-- The loop behind its end, and one round of it.
pub run-done :
    (fuel : ℕ) (f : Frame) (parent : Option (Result ℕ)) (stack : List ℕ) (s : DataStream)
    → is_streamable s ≡ false
    → run fuel f parent stack s ≡ ok (stack, s)
unfolding run
run-done zero f parent stack s e = rw (e, run) refl
run-done (suc fuel) f parent stack s e = rw (e, run) refl

pub run-more :
    (fuel : ℕ) (f : Frame) (parent : Option (Result ℕ)) (stack stack' : List ℕ) (s s' : DataStream)
    → is_streamable s ≡ true
    → operation f parent stack s ≡ ok (stack', s')
    → run (suc fuel) f parent stack s ≡ run fuel f parent stack' s'
unfolding run
run-more fuel f parent stack stack' s s' e o = rw (e, run) (rw o refl)

-- A machine that has read an expression answers the same again, whatever the frame is.
pub evaluate-again :
    (f : Frame) (parent : Option (Result ℕ)) (m : Machine) (expr res : DebugData)
    → Finished expr (res, m)
    → evaluate f parent m expr ≡ ok (res, m)
unfolding evaluate
evaluate-again f parent m expr res done =
    let s : DataStream = record {
      bytes = expr.bytes;
      index = m.index;
      stream_len = length expr.bytes;
    } in
    let at_end : is_streamable s ≡ false = unfold is_streamable in ground (arith, done.behind) in
    rw (run-done (length expr.bytes) f parent m.stack s at_end, done.answer) refl
