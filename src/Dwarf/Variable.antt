-- ===== src/Dwarf/Variable.antt =====
-- t89emu/src/Dwarf/Variable.cpp.
pub mod Laws
use t89emu.Common.{
  ℕ, ◌==◌, not, Bool, true, false, if◌then◌else◌, Option, none, some, List, [], ◌∷◌,
}
use t89emu.Dwarf.Encoding.Attribute
use t89emu.Dwarf.Encoding.Form
use t89emu.Result.{Result, ok, exited, ◌>>=◌}
use t89emu.Dwarf.Info.{DebugData, get_uint, get_string}
use t89emu.Dwarf.Info.Tree.{Entry}
use t89emu.Dwarf.Expr.{Frame, Machine, new_machine, evaluate, frame_base}

-- A field that the constructor leaves without a value is `none`.
pub record VarInfo : Type 0 where
  pub is_valid : Option Bool
  pub name : List ℕ
  pub location : Option ℕ
  pub value : List ℕ

pub record Variable : Type 0 where
  pub loc_expr : Option DebugData
  pub machine : Machine
  pub debug_entry : Entry
  pub parent_entry : Entry
  pub var_info : VarInfo

-- "???"
abbrev pub unknown : List ℕ
unknown = 63 ∷ 63 ∷ 63 ∷ []

unfoldable pub bytes_or : List ℕ → Option DebugData → List ℕ
unfolding get_string
bytes_or text none = text
bytes_or text (some d) = get_string d

-- A location that is no expression is refused.
unfoldable pub is_expression : Option DebugData → Bool
is_expression none = true
is_expression (some d) = d.form == Form.exprloc

unfoldable pub new_variable : Entry → Entry → Result Variable
unfolding bytes_or is_expression
new_variable debug_entry parent_entry =
    let loc_expr = debug_entry.attributes Attribute.location in
    if not (is_expression loc_expr)
    then exited
    else ok (record {
      loc_expr = loc_expr;
      machine = new_machine;
      debug_entry = debug_entry;
      parent_entry = parent_entry;
      var_info = record {
        is_valid = none;
        name = bytes_or unknown (debug_entry.attributes Attribute.name);
        location = none;
        value = [];
      };
    })

unfoldable pub update_location : Frame → Variable → Result (Bool × Variable)
update_location f v = elim v.loc_expr [
  | none ↦ ok (false, v)
  | some expr ↦ do
    (location, machine) ←
        evaluate f (some (frame_base f (v.parent_entry.attributes Attribute.frame_base))) v.machine
          expr
    address ← get_uint location
    ok (
      true,
      record v { machine = machine; var_info = record (v.var_info) { location = some address } },
    )
]

unfoldable pub update_value : Variable → Bool × Variable
update_value v = (true, record v { var_info = record (v.var_info) { value = unknown } })

unfoldable pub invalidate : Variable → Variable
invalidate v = record v { var_info = record (v.var_info) { is_valid = some false } }

-- The information, and the variable as it is afterwards.
unfoldable pub get_var_info : Bool → Frame → Variable → Result (VarInfo × Variable)
unfolding update_location update_value invalidate
get_var_info do_update f v = if not do_update then ok (v.var_info, v) else (do
  (located, v') ← update_location f v
  let (valued, v'') = if located then update_value v' else (false, v')
  let w = if not valued then invalidate v'' else v''
  ok (w.var_info, w))
