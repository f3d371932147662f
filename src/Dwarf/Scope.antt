-- ===== src/Dwarf/Scope.antt =====
-- t89emu/src/Dwarf/Scope.cpp, and `generateScopes` of t89emu/src/Dwarf/CompileUnit.cpp.
pub mod Laws
pub mod Generate
use t89emu.Common.{
  ℕ, ◌+◌, ltb, leb, ◌&&◌, Bool, true, false, if◌then◌else◌, none, some, List, [], ◌∷◌, ◌++◌, u32,
}
use t89emu.Dwarf.Encoding.Attribute
use t89emu.Dwarf.Encoding.Tag
use t89emu.Result.{Result, ok, ◌>>=◌}
use t89emu.Dwarf.Info.{get_uint, contains}
use t89emu.Dwarf.Info.Tree.{Entry, DebugInfoEntry, die, Children, no_children, child}
use t89emu.Dwarf.Variable.{Variable, new_variable, bytes_or}

-- A scope without the scopes in it.
pub record Block : Type 0 where
  pub name : List ℕ
  pub variables : List Variable
  pub low_pc : ℕ
  pub high_pc : ℕ

mutual
  pub data Scope : Type 0 where
    scope : Block → Scopes → Scope

  pub data Scopes : Type 0 where
    no_scopes : Scopes
    add_scope : Scope → Scopes → Scopes

unfoldable pub is_scope : Entry → Bool
unfolding contains
is_scope e =
    contains (Tag.subprogram ∷ Tag.inlined_subroutine ∷ Tag.entry_point ∷ []) e.abbrev_entry.die_tag

unfoldable pub is_variable : Entry → Bool
unfolding contains
is_variable e = contains (Tag.variable ∷ Tag.formal_parameter ∷ []) e.abbrev_entry.die_tag

-- "null"
abbrev null_name : List ℕ
null_name = 110 ∷ 117 ∷ 108 ∷ 108 ∷ []

-- The constructor.
unfoldable pub new_block : Entry → Result Block
unfolding bytes_or
new_block e = do
  low ← elim (e.attributes Attribute.low_pc) [ none ↦ ok 0 | some d ↦ get_uint d ]
  let low_pc = u32 low
  high_pc ← elim (e.attributes Attribute.high_pc) [
    | none ↦ ok 0
    | some d ↦ do high ← get_uint d; ok (u32 (low_pc + high))
  ]
  ok (record {
    name = bytes_or null_name (e.attributes Attribute.name);
    variables = [];
    low_pc = low_pc;
    high_pc = high_pc;
  })

unfoldable mutual
  unfolding new_block is_scope is_variable

  pub generate_scopes : DebugInfoEntry → Result Scope
  generate_scopes (die e children) = do
    block ← new_block e
    (variables, within) ← generate_members e children
    ok (scope (record block { variables = variables }) within)

  -- The variables and the scopes among the children.
  pub generate_members : Entry → Children → Result (List Variable × Scopes)
  generate_members e no_children = ok ([], no_scopes)
  generate_members e (child (die c children) rest) = elim (is_variable c) [
    | true ↦ do
      variable ← new_variable c e
      (variables, within) ← generate_members e rest
      ok (variable ∷ variables, within)
    | false ↦ elim (is_scope c) [
      | true ↦ do
        inner ← generate_scopes (die c children)
        (variables, within) ← generate_members e rest
        ok (variables, add_scope inner within)
      | false ↦ generate_members e rest
    ]
  ]

unfoldable pub is_pc_in_range : Scope → ℕ → Bool
is_pc_in_range (scope b within) pc = leb b.low_pc pc && ltb pc b.high_pc

unfoldable pub is_local_scope : Scopes → ℕ → Bool
is_local_scope no_scopes pc = true
is_local_scope (add_scope s within) pc =
    let rest = is_local_scope within pc in if is_pc_in_range s pc then false else rest

-- The variables declared in a line up to `line`, in order.
unfoldable pub get_variables_above_line : List Variable → ℕ → Result (List Variable)
get_variables_above_line [] line = ok []
get_variables_above_line (v ∷ vs) line = elim (v.debug_entry.attributes Attribute.decl_line) [
  | none ↦ get_variables_above_line vs line
  | some d ↦ do
    decl_line ← get_uint d
    rest ← get_variables_above_line vs line
    ok (if leb decl_line line then v ∷ rest else rest)
]

unfoldable mutual
  pub get_local_variables : Scope → ℕ → ℕ → Result (List Variable)
  get_local_variables (scope b within) pc line =
      get_local_in within pc line (get_variables_above_line b.variables line)

  -- The first scope that holds the address, or what comes behind the loop.
  pub get_local_in : Scopes → ℕ → ℕ → Result (List Variable) → Result (List Variable)
  get_local_in no_scopes pc line own = own
  get_local_in (add_scope s within) pc line own =
      let inner = get_local_variables s pc line in
      let rest = get_local_in within pc line own in if is_pc_in_range s pc then inner else rest

unfoldable mutual
  pub get_global_variables : Scope → ℕ → ℕ → Result (List Variable)
  get_global_variables (scope b within) pc line =
      let inner = get_global_in within pc line in
      if is_local_scope within pc
      then ok []
      else (do own ← get_variables_above_line b.variables line; rest ← inner; ok (own ++ rest))

  pub get_global_in : Scopes → ℕ → ℕ → Result (List Variable)
  get_global_in no_scopes pc line = ok []
  get_global_in (add_scope s within) pc line =
      let inner = get_global_variables s pc line in
      let rest = get_global_in within pc line in if is_pc_in_range s pc then inner else rest
