-- ===== src/Dwarf/Scope/Laws.antt =====
-- Which scopes the variables come from.
use t89emu.Common.{
  ℕ, ◌≡◌, ◌∙◌, ◌⊎◌, refl, sym, ap, arith, leb, ltb, not, ◌&&◌, Bool, Option, none, some, true,
  false, Bool-cases, if◌then◌else◌, inl, inr, List, [], ◌∷◌, ◌++◌,
}
use t89emu.Dwarf.Encoding.Attribute
use t89emu.Result.{Result, ok, exited, fault, out_of_fuel, ◌>>=◌}
use t89emu.Dwarf.Info.{DebugData, get_uint}
use t89emu.Dwarf.Variable.{Variable}
use t89emu.Dwarf.Scope.{
  Block, scope, Scopes, no_scopes, add_scope, is_pc_in_range, is_local_scope,
  get_variables_above_line, get_local_variables, get_local_in, get_global_variables, get_global_in,
}

-- An address of a scope is at least the low one, and below the high one.
unfoldable pub covers : Block → ℕ → Bool
covers b pc = not (ltb pc b.low_pc) && ltb pc b.high_pc

is_pc_in_range-covers :
    (b : Block) (within : Scopes) (pc : ℕ) → is_pc_in_range (scope b within) pc ≡ covers b pc
unfolding is_pc_in_range covers
is_pc_in_range-covers b within pc = ground arith

-- The scopes below a scope that hold an address, outermost first: at each level the first one.
unfoldable pub inward : Scopes → ℕ → List Block
inward no_scopes pc = []
inward (add_scope (scope b inner) within) pc =
    let here = inward inner pc in
    let rest = inward within pc in if covers b pc then b ∷ here else rest

-- The last scope of such a list, and those in front of it.
abbrev pub innermost : Block → List Block → Block
innermost b [] = b
innermost b (c ∷ cs) = innermost c cs

abbrev pub outer : List Block → List Block
outer [] = []
outer (b ∷ []) = []
outer (b ∷ (c ∷ cs)) = b ∷ outer (c ∷ cs)

-- The line that a variable is declared in.
unfoldable pub decl_line : Variable → Result (Option ℕ)
decl_line v = elim (v.debug_entry.attributes Attribute.decl_line) [
  | none ↦ ok none
  | some d ↦ do line ← get_uint d; ok (some line)
]

unfoldable pub with_lines : List Variable → Result (List (Variable × Option ℕ))
unfolding decl_line
with_lines [] = ok []
with_lines (v ∷ vs) = do line ← decl_line v; rest ← with_lines vs; ok ((v, line) ∷ rest)

-- Those that have a line, and not one behind the given line, in order.
abbrev pub up_to : ℕ → List (Variable × Option ℕ) → List Variable
up_to line [] = []
up_to line ((v, none) ∷ vs) = up_to line vs
up_to line ((v, some l) ∷ vs) = if leb l line then v ∷ up_to line vs else up_to line vs

abbrev pub declared_up_to : ℕ → List Variable → Result (List Variable)
declared_up_to line vs = with_lines vs >>= λ lines. ok (up_to line lines)

abbrev pub variables_of : List Block → List Variable
variables_of [] = []
variables_of (b ∷ bs) = b.variables ++ variables_of bs

lined :
    (line : ℕ) (v : Variable) (found : Result ℕ) (rest : Result (List (Variable × Option ℕ)))
    → (found >>= λ l.
        (rest >>= λ ls. ok (up_to line ls)) >>= λ vs. ok (if leb l line then v ∷ vs else vs))
      ≡ ((found >>= λ l. ok (some l)) >>= λ l. rest >>= λ ls. ok ((v, l) ∷ ls)) >>= λ ls.
          ok (up_to line ls)
lined line v (ok l) (ok ls) = refl
lined line v (ok l) exited = refl
lined line v (ok l) fault = refl
lined line v (ok l) out_of_fuel = refl
lined line v exited rest = refl
lined line v fault rest = refl
lined line v out_of_fuel rest = refl

unlined :
    (line : ℕ) (v : Variable) (rest : Result (List (Variable × Option ℕ)))
    → (rest >>= λ ls. ok (up_to line ls))
      ≡ (rest >>= λ ls. ok ((v, none) ∷ ls)) >>= λ ls. ok (up_to line ls)
unlined line v (ok ls) = refl
unlined line v exited = refl
unlined line v fault = refl
unlined line v out_of_fuel = refl

get_variables_above_line_lem :
    (vs : List Variable) (line : ℕ) → get_variables_above_line vs line ≡ declared_up_to line vs
unfolding get_variables_above_line with_lines
get_variables_above_line_lem [] line = refl
get_variables_above_line_lem (v ∷ vs) line =
    by_attribute (v.debug_entry.attributes Attribute.decl_line) (get_variables_above_line vs line)
      (get_variables_above_line_lem vs line)
  where
    by_attribute :
        (o : Option DebugData) (above : Result (List Variable))
        → above ≡ declared_up_to line vs
        → elim o [
          | none ↦ above
          | some d ↦
              get_uint d >>= λ l. above >>= λ rest. ok (if leb l line then v ∷ rest else rest)
        ]
          ≡ (elim o [ none ↦ ok none | some d ↦ get_uint d >>= λ l. ok (some l) ] >>= λ l.
              with_lines vs >>= λ ls. ok ((v, l) ∷ ls))
            >>= λ ls. ok (up_to line ls)
    by_attribute none above e = e ∙ unlined line v (with_lines vs)
    by_attribute (some d) above e =
        ap (λ m. get_uint d >>= λ l. m >>= λ rest. ok (if leb l line then v ∷ rest else rest)) e
        ∙ lined line v (get_uint d) (with_lines vs)

append-up_to :
    (line : ℕ) (xs : List (Variable × Option ℕ)) (ys : List (Variable × Option ℕ))
    → up_to line (xs ++ ys) ≡ up_to line xs ++ up_to line ys
append-up_to line [] ys = refl
append-up_to line ((v, none) ∷ xs) ys = append-up_to line xs ys
append-up_to line ((v, some l) ∷ xs) ys = elim (Bool-cases (leb l line)) [
  | inl below ↦ rw below (ap (λ t. v ∷ t) (append-up_to line xs ys))
  | inr above ↦ rw above (append-up_to line xs ys)
]

push :
    (x : Variable × Option ℕ) (xs ys : Result (List (Variable × Option ℕ)))
    → ((xs >>= λ a. ys >>= λ b. ok (a ++ b)) >>= λ ls. ok (x ∷ ls))
      ≡ ((xs >>= λ ls. ok (x ∷ ls)) >>= λ a. ys >>= λ b. ok (a ++ b))
push x (ok a) (ok b) = refl
push x (ok a) exited = refl
push x (ok a) fault = refl
push x (ok a) out_of_fuel = refl
push x exited ys = refl
push x fault ys = refl
push x out_of_fuel ys = refl

append-with_lines :
    (xs ys : List Variable)
    → with_lines (xs ++ ys) ≡ (with_lines xs >>= λ a. with_lines ys >>= λ b. ok (a ++ b))
unfolding with_lines
append-with_lines [] ys = right (with_lines ys)
  where
    right : (m : Result (List (Variable × Option ℕ))) → m ≡ (m >>= λ b. ok b)
    right (ok b) = refl
    right exited = refl
    right fault = refl
    right out_of_fuel = refl
append-with_lines (v ∷ xs) ys = rw (append-with_lines xs ys) (first (decl_line v))
  where
    first :
        (m : Result (Option ℕ))
        → (m >>= λ l.
            (with_lines xs >>= λ a. with_lines ys >>= λ b. ok (a ++ b)) >>= λ ls. ok ((v, l) ∷ ls))
          ≡ ((m >>= λ l. with_lines xs >>= λ ls. ok ((v, l) ∷ ls)) >>= λ a.
              with_lines ys >>= λ b. ok (a ++ b))
    first (ok l) = push (v, l) (with_lines xs) (with_lines ys)
    first exited = refl
    first fault = refl
    first out_of_fuel = refl

-- The variables of two lists together are those of the one and then those of the other.
append-declared :
    (line : ℕ) (xs ys : List Variable)
    → declared_up_to line (xs ++ ys)
      ≡ (declared_up_to line xs >>= λ own. declared_up_to line ys >>= λ rest. ok (own ++ rest))
append-declared line xs ys =
    ap (λ m. m >>= λ lines. ok (up_to line lines)) (append-with_lines xs ys)
    ∙ both (with_lines xs) (with_lines ys)
  where
    both :
        (a b : Result (List (Variable × Option ℕ)))
        → ((a >>= λ x. b >>= λ y. ok (x ++ y)) >>= λ lines. ok (up_to line lines)) ≡ (
            (a >>= λ x. ok (up_to line x)) >>= λ own.
            (b >>= λ y. ok (up_to line y)) >>= λ rest. ok (own ++ rest))
    both (ok x) (ok y) = ap ok (append-up_to line x y)
    both (ok x) exited = refl
    both (ok x) fault = refl
    both (ok x) out_of_fuel = refl
    both exited b = refl
    both fault b = refl
    both out_of_fuel b = refl

get_local_in_lem :
    (within : Scopes) (b : Block) (pc line : ℕ)
    → get_local_in within pc line (get_variables_above_line b.variables line)
      ≡ declared_up_to line (innermost b (inward within pc)).variables
unfolding get_local_variables inward
get_local_in_lem no_scopes b pc line = get_variables_above_line_lem b.variables line
get_local_in_lem (add_scope (scope c inner) within) b pc line = elim (Bool-cases (covers c pc)) [
  | inl here ↦
      rw (is_pc_in_range-covers c inner pc, here, get_local_in, inward)
        (get_local_in_lem inner c pc line)
  | inr not_here ↦
      rw (is_pc_in_range-covers c inner pc, not_here, get_local_in, inward)
        (get_local_in_lem within b pc line)
]

is_local_scope_lem :
    (within : Scopes) (pc : ℕ)
    → ((is_local_scope within pc ≡ true) × (inward within pc ≡ []))
      ⊎ ((is_local_scope within pc ≡ false)
          × ((c : Block) × (cs : List Block) × (inward within pc ≡ c ∷ cs)))
unfolding is_local_scope inward
is_local_scope_lem no_scopes pc = inl (refl, refl)
is_local_scope_lem (add_scope (scope c inner) within) pc = elim (Bool-cases (covers c pc)) [
  | inl here ↦ inr (
    rw (is_pc_in_range-covers c inner pc, here, is_local_scope) refl,
    (c, inward inner pc, rw (here, inward) refl),
  )
  | inr not_here ↦
      rw (is_pc_in_range-covers c inner pc, not_here, is_local_scope, inward)
        (is_local_scope_lem within pc)
]

get_global_variables-outer :
    (b : Block) (within : Scopes) (pc line : ℕ)
    → get_global_in within pc line ≡ declared_up_to line (variables_of (outer (inward within pc)))
    → get_global_variables (scope b within) pc line
      ≡ declared_up_to line (variables_of (outer (b ∷ inward within pc)))
unfolding get_global_variables with_lines
get_global_variables-outer b within pc line same = elim (is_local_scope_lem within pc) [
  | inl (is_local, e) ↦ rw (is_local, e) refl
  | inr (not_local, (c, cs, e)) ↦
      rw (not_local, get_variables_above_line_lem b.variables line, same, e)
        (sym (append-declared line b.variables (variables_of (outer (c ∷ cs)))))
]

get_global_in-outer :
    (within : Scopes) (pc line : ℕ)
    → get_global_in within pc line ≡ declared_up_to line (variables_of (outer (inward within pc)))
unfolding get_global_variables inward with_lines
get_global_in-outer no_scopes pc line = refl
get_global_in-outer (add_scope (scope c inner) within) pc line = elim (Bool-cases (covers c pc)) [
  | inl here ↦
      rw (is_pc_in_range-covers c inner pc, here, get_global_in, inward)
        (get_global_variables-outer c inner pc line (get_global_in-outer inner pc line))
  | inr not_here ↦
      rw (is_pc_in_range-covers c inner pc, not_here, get_global_in, inward)
        (get_global_in-outer within pc line)
]

-- The local variables are those of the innermost scope that holds the address, and the global variables those of
-- all the scopes around it, outermost first; of each scope only the variables that have a line of declaration
-- and not one behind the given line, in order. They exit or stop where the line of one of these variables cannot
-- be read.
pub get_variables_lem :
    (b : Block) (within : Scopes) (pc line : ℕ)
    → (get_local_variables (scope b within) pc line
        ≡ declared_up_to line (innermost b (inward within pc)).variables)
      × (get_global_variables (scope b within) pc line
          ≡ declared_up_to line (variables_of (outer (b ∷ inward within pc))))
unfolding get_local_variables
get_variables_lem b within pc line = (
  get_local_in_lem within b pc line,
  get_global_variables-outer b within pc line (get_global_in-outer within pc line),
)
