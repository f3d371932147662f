-- ===== src/Dwarf/Info/Tree/RoundTrip.antt =====
-- The tree of entries as it is written in .debug_info, and read back.
use mathlib.Core.List.{append_assoc}
use mathlib.Core.Path.{subst}
use t89emu.Dwarf.Info.Tree.Format.{
  ahead, skip, skip-skip, skip-one, byte-ahead, append-ahead, uleb-byte,
}
use t89emu.Dwarf.Info.Tree.EntryFormat.{EntryBytes, decode_entry-EntryBytes}
use t89emu.Common.{
  length, length-append, drop, ◌<◌, ◌++◌, ℕ, zero, suc, ◌+◌, ◌*◌, ◌≤◌, ◌≡◌, refl, sym, ap, ◌∙◌,
  arith, true, false, Bool-cases, inl, inr, if◌then◌else◌, Option, none, some, List, [], ◌∷◌,
}
use t89emu.Dwarf.DataStream.{DataStream, is_streamable}
use t89emu.Result.{ok}
use t89emu.Dwarf.Info.Tree.{
  Entry, DebugInfoEntry, die, Children, no_children, child, UnitContext, decode_entry, node,
  generate_debug_info, generate_children,
}

-- A tree in writing: an entry, then, if its declaration says that it has children, these and a code 0.
unfoldable mutual
  pub tokens : DebugInfoEntry → List (Option Entry) → List (Option Entry)
  tokens (die e children) rest =
      let inner = tokens_in children (none ∷ rest) in
      some e ∷ (if e.abbrev_entry.has_child then inner else rest)

  pub tokens_in : Children → List (Option Entry) → List (Option Entry)
  tokens_in no_children rest = rest
  tokens_in (child c children) rest = tokens c (tokens_in children rest)

-- Only entries whose declarations say so have children.
unfoldable mutual
  pub IsDeclared : DebugInfoEntry → Type 0
  IsDeclared (die e children) =
      (e.abbrev_entry.has_child ≡ false → children ≡ no_children) × AreDeclared children

  pub AreDeclared : Children → Type 0
  AreDeclared no_children = Unit {0}
  AreDeclared (child c children) = IsDeclared c × AreDeclared children

unfoldable mutual
  pub entry_count : DebugInfoEntry → ℕ
  entry_count (die e children) = 1 + entry_count_in children

  pub entry_count_in : Children → ℕ
  entry_count_in no_children = 0
  entry_count_in (child c children) = entry_count c + entry_count_in children

-- Behind an entry the unit goes on.
abbrev GoesOn : Option Entry → DataStream → Type 0
GoesOn none s = Unit {0}
GoesOn (some e) s = is_streamable s ≡ true

-- The entries and codes 0 stand in the stream one behind the other, from `s` to `s'`.
unfoldable Spells : UnitContext → DataStream → List (Option Entry) → DataStream → Type 0
Spells u s [] s' = s ≡ s'
Spells u s (t ∷ ts) s' =
    (s1 : DataStream) × (decode_entry u s ≡ ok (t, s1)) × GoesOn t s1 × Spells u s1 ts s'

with_children :
    (fuel : ℕ) (u : UnitContext) (s s1 s2 : DataStream) (e : Entry) (inner : Children)
    → decode_entry u s ≡ ok (some e, s1)
    → is_streamable s1 ≡ true
    → e.abbrev_entry.has_child ≡ true
    → generate_children fuel u s1 ≡ ok (inner, s2)
    → generate_debug_info (suc fuel) u s ≡ ok (node (die e inner), s2)
unfolding generate_debug_info
with_children fuel u s s1 s2 e inner dec more has f = cc

without_children :
    (fuel : ℕ) (u : UnitContext) (s s1 : DataStream) (e : Entry)
    → decode_entry u s ≡ ok (some e, s1)
    → is_streamable s1 ≡ true
    → e.abbrev_entry.has_child ≡ false
    → generate_debug_info (suc fuel) u s ≡ ok (node (die e no_children), s1)
unfolding generate_debug_info
without_children fuel u s s1 e dec more leaf = cc

one_more :
    (fuel : ℕ) (u : UnitContext) (s s1 s2 : DataStream) (c : DebugInfoEntry) (siblings : Children)
    → generate_debug_info fuel u s ≡ ok (node c, s1)
    → generate_children fuel u s1 ≡ ok (siblings, s2)
    → generate_children (suc fuel) u s ≡ ok (child c siblings, s2)
unfolding generate_debug_info
one_more fuel u s s1 s2 c siblings f g = rw (f, g) refl

mutual
  unfolding generate_debug_info tokens IsDeclared entry_count Spells

  generate_debug_info-tokens :
      (fuel : ℕ) (u : UnitContext) (s s' : DataStream) (d : DebugInfoEntry)
      (rest : List (Option Entry))
      → IsDeclared d
      → 2 * entry_count d + 1 ≤ fuel
      → Spells u s (tokens d rest) s'
      → (s1 : DataStream) × (generate_debug_info fuel u s ≡ ok (node d, s1)) × Spells u s1 rest s'
  generate_debug_info-tokens zero u s s' d rest shape big r = absurd (omega arith)
  generate_debug_info-tokens (suc fuel) u s s' (die e children) rest shape big (s1, dec, more, r) =
      elim (Bool-cases (e.abbrev_entry.has_child)) [
        | inr leaf ↦ (
          s1,
          without_children fuel u s s1 e dec more leaf
              ∙ ap (λ c. ok (node (die e c), s1)) (sym (shape.0 leaf)),
          rw leaf at r,
        )
        | inl inner ↦
            let (s2, f, k) =
              generate_children-tokens fuel u s1 s' children rest shape.1 (omega arith)
                (rw inner at r) in
            (s2, with_children fuel u s s1 s2 e children dec more inner f, k)
      ]

  generate_children-tokens :
      (fuel : ℕ) (u : UnitContext) (s s' : DataStream) (children : Children)
      (rest : List (Option Entry))
      → AreDeclared children
      → 2 * entry_count_in children + 2 ≤ fuel
      → Spells u s (tokens_in children (none ∷ rest)) s'
      → (s1 : DataStream) × (generate_children fuel u s ≡ ok (children, s1)) × Spells u s1 rest s'
  generate_children-tokens zero u s s' siblings rest shape big r = absurd (omega arith)
  generate_children-tokens (suc zero) u s s' siblings rest shape big r = absurd (omega arith)
  generate_children-tokens (suc (suc fuel)) u s s' no_children rest shape big (s1, dec, more, r) =
      (s1, rw dec refl, r)
  generate_children-tokens (suc (suc fuel)) u s s' (child (die e inner) siblings) rest shape big r =
      let (s1, f, k) =
        generate_debug_info-tokens (suc fuel) u s s' (die e inner)
          (tokens_in siblings (none ∷ rest)) shape.0 (omega arith) r in
      let (s2, g, l) =
        generate_children-tokens (suc fuel) u s1 s' siblings rest shape.1 (omega arith) k in
      (s2, one_more (suc fuel) u s s1 s2 (die e inner) siblings f g, l)

-- How entries and codes 0 stand in .debug_info, `place` bytes behind the start of the unit's stream: entries as
-- `EntryBytes` says, with more of the unit behind them, and codes as a byte 0.
unfoldable pub TokenBytes : UnitContext → ℕ → ℕ → List (Option Entry) → List ℕ → Type 0
TokenBytes u unit_end place [] written = written ≡ []
TokenBytes u unit_end place (none ∷ ts) written =
    (others : List ℕ) × (written ≡ 0 ∷ others) × TokenBytes u unit_end (place + 1) ts others
TokenBytes u unit_end place (some e ∷ ts) written =
    (first : List ℕ) × (others : List ℕ) × (written ≡ first ++ others)
    × EntryBytes u place e first
    × (place + length first < unit_end)
    × TokenBytes u unit_end (place + length first) ts others

decode_entry-zero :
    (u : UnitContext) (s : DataStream) (rest : List ℕ)
    → ahead s ≡ 0 ∷ rest
    → decode_entry u s ≡ ok (none, skip s 1)
unfolding decode_entry
decode_entry-zero u s rest e = rw (uleb-byte s 0 rest (omega arith) e) refl

TokenBytes-Spells :
    (u : UnitContext) (s : DataStream) (ts : List (Option Entry)) (written rest : List ℕ)
    → TokenBytes u s.stream_len s.index ts written
    → ahead s ≡ written ++ rest
    → Spells u s ts (skip s (length written))
unfolding TokenBytes Spells
TokenBytes-Spells u s [] written rest w e =
    let same : s.index ≡ s.index + length written = omega (arith, ap length w) in
    ap (λ i. record s { index = i }) same
TokenBytes-Spells u s (none ∷ ts) written rest (others, w, t) e =
    let here : ahead s ≡ 0 ∷ (others ++ rest) = e ∙ ap (λ bs. bs ++ rest) w in
    let end : skip (skip s 1) (length others) ≡ skip s (length written) =
      skip-one s (length others) ∙ ap (skip s) (sym (ap length w)) in
    (
      skip s 1,
      decode_entry-zero u s (others ++ rest) here,
      tt,
      subst (λ s'. Spells u (skip s 1) ts s') end
          (TokenBytes-Spells u (skip s 1) ts others rest t
            (byte-ahead s 0 (others ++ rest) here).1),
    )
TokenBytes-Spells u s (some e ∷ ts) written rest (first, others, w, entry, more, t) h =
    let here : ahead s ≡ first ++ (others ++ rest) =
      h ∙ ap (λ bs. bs ++ rest) w ∙ append_assoc first others rest in
    let s1 = skip s (length first) in
    let end : skip s1 (length others) ≡ skip s (length written) =
      skip-skip s (length first) (length others)
      ∙ ap (skip s) (sym (ap length w ∙ length-append first others)) in
    (
      s1,
      decode_entry-EntryBytes u s e first (others ++ rest) entry here,
      unfold is_streamable in ground (arith, more),
      subst (λ s'. Spells u s1 ts s') end
          (TokenBytes-Spells u s1 ts others rest t (append-ahead first s (others ++ rest) here)),
    )

-- A tree whose entries have children only where their declarations say so, written to .debug_info entry by entry
-- (a code of one byte, then the values of the declared attributes: bytes of the size of the form, a string with a
-- 0 behind it, or an expression behind its length), with a code 0 behind the children of each entry that is
-- declared to have some, is read back as it is and to its last byte, where the unit goes on behind each entry,
-- with two units of fuel for each entry and one more.
pub generate_debug_info_lem :
    (fuel : ℕ) (u : UnitContext) (s : DataStream) (d : DebugInfoEntry) (written rest : List ℕ)
    → IsDeclared d
    → 2 * entry_count d + 1 ≤ fuel
    → TokenBytes u s.stream_len s.index (tokens d []) written
    → drop s.index s.bytes ≡ written ++ rest
    → generate_debug_info fuel u s ≡ ok (node d, record s { index = s.index + length written })
unfolding Spells
generate_debug_info_lem fuel u s d written rest shape big w e =
    let (s1, f, same) =
      generate_debug_info-tokens fuel u s (skip s (length written)) d [] shape big
        (TokenBytes-Spells u s (tokens d []) written rest w e) in
    rw (f, same) refl
