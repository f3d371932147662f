-- ===== src/Dwarf/Scope/Generate.antt =====
-- The scopes of a tree are made, or the program exits.
use t89emu.Common.{not}
use t89emu.Dwarf.Encoding.Attribute
use t89emu.Result.{Ends, Ends-bind, Ends-if, Ends-option, Ends-bool}
use t89emu.Dwarf.Info.{get_uint}
use t89emu.Dwarf.Info.Value.{get_uint-Ends}
use t89emu.Dwarf.Info.Tree.{Entry, DebugInfoEntry, die, Children, no_children, child}
use t89emu.Dwarf.Variable.{new_variable, is_expression}
use t89emu.Dwarf.Scope.{new_block, is_variable, is_scope, generate_scopes, generate_members}

abbrev Any {ℓ} : {A : Type ℓ} → A → Type 0
Any _ = Unit {0}

new_variable-Ends : (e parent : Entry) → Ends Any (new_variable e parent)
unfolding new_variable
new_variable-Ends e parent =
    Ends-if Any (not (is_expression (e.attributes Attribute.location))) _ _ (λ _. tt) (λ _. tt)

new_block-Ends : (e : Entry) → Ends Any (new_block e)
unfolding new_block
new_block-Ends e =
    Ends-bind Any Any _ _ (Ends-option Any (e.attributes Attribute.low_pc) _ _ tt get_uint-Ends)
      λ low _.
        Ends-bind Any Any _ _
          (Ends-option Any (e.attributes Attribute.high_pc) _ _ tt
            (λ d. Ends-bind Any Any (get_uint d) _ (get_uint-Ends d) (λ _ _. tt)))
          (λ _ _. tt)

mutual
  unfolding generate_scopes

  pub generate_scopes-Ends : (d : DebugInfoEntry) → Ends Any (generate_scopes d)
  generate_scopes-Ends (die e children) =
      Ends-bind Any Any (new_block e) _ (new_block-Ends e) λ block _.
        Ends-bind Any Any (generate_members e children) _ (generate_members-Ends e children)
          (λ _ _. tt)

  generate_members-Ends : (e : Entry) (children : Children) → Ends Any (generate_members e children)
  generate_members-Ends e no_children = tt
  generate_members-Ends e (child (die c children) rest) =
      Ends-bool Any (is_variable c) _ _
        (Ends-bind Any Any (new_variable c e) _ (new_variable-Ends c e) λ _ _.
          Ends-bind Any Any (generate_members e rest) _ (generate_members-Ends e rest) (λ _ _. tt))
        (Ends-bool Any (is_scope c) _ _
          (Ends-bind Any Any (generate_scopes (die c children)) _
            (generate_scopes-Ends (die c children))
            λ _ _.
              Ends-bind Any Any (generate_members e rest) _ (generate_members-Ends e rest)
                (λ _ _. tt))
          (generate_members-Ends e rest))
