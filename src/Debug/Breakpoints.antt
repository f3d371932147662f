-- ===== src/Debug/Breakpoints.antt =====
-- The list of breakpoints as a set of addresses.
use t89emu.Common.{
  ℕ, ◌≡◌, refl, arith, false, ◌==◌, not, ◌&&◌, ◌||◌, List, [], ◌∷◌, ◌++◌, Bool-cases, inl, inr,
}
use t89emu.Debug.{McuDebug, contains, erase_first, is_breakpoint, add_breakpoint, remove_breakpoint}

-- No address stands twice.
abbrev pub IsDistinct : List ℕ → Type 0
IsDistinct [] = Unit {0}
IsDistinct (b ∷ bs) = (contains bs b ≡ false) × IsDistinct bs

contains-append : (bs : List ℕ) (a b : ℕ) → contains (bs ++ (a ∷ [])) b ≡ (contains bs b || a == b)
unfolding contains
contains-append [] a b = ground arith
contains-append (x ∷ bs) a b = ground (arith, contains-append bs a b)

append-IsDistinct :
    (bs : List ℕ) (a : ℕ) → contains bs a ≡ false → IsDistinct bs → IsDistinct (bs ++ (a ∷ []))
unfolding contains
append-IsDistinct [] a new d = (refl, tt)
append-IsDistinct (x ∷ bs) a new d =
    (ground (arith, contains-append bs a x), append-IsDistinct bs a (ground arith) d.1)

contains-erase_first :
    (bs : List ℕ) (a b : ℕ)
    → IsDistinct bs
    → contains (erase_first bs a) b ≡ (not (a == b) && contains bs b)
unfolding contains erase_first
contains-erase_first [] a b d = ground arith
contains-erase_first (x ∷ bs) a b d = ground (arith, contains-erase_first bs a b d.1)

erase_first-IsDistinct : (bs : List ℕ) (a : ℕ) → IsDistinct bs → IsDistinct (erase_first bs a)
unfolding contains erase_first
erase_first-IsDistinct [] a d = tt
erase_first-IsDistinct (x ∷ bs) a d =
    ground (arith, contains-erase_first bs a x d.1, erase_first-IsDistinct bs a d.1)

-- Adding a breakpoint adds that address to the set and no other, and keeps the list free of
-- repetitions.
pub add_breakpoint_lem :
    (s : McuDebug) (a : ℕ)
    → IsDistinct s.breakpoints
    → ((b : ℕ) → is_breakpoint (add_breakpoint s a) b ≡ (is_breakpoint s b || a == b))
      × IsDistinct (add_breakpoint s a).breakpoints
unfolding add_breakpoint is_breakpoint
add_breakpoint_lem s a d = elim (Bool-cases (contains s.breakpoints a)) [
  | inl old ↦ rw old ((λ b. ground (arith, old)), d)
  | inr new ↦
      rw new ((λ b. contains-append s.breakpoints a b), append-IsDistinct s.breakpoints a new d)
]

-- Removing one takes that address out of the set and no other, if the list is free of repetitions,
-- and keeps it so.
remove_breakpoint_lem :
    (s : McuDebug) (a : ℕ)
    → IsDistinct s.breakpoints
    → ((b : ℕ) → is_breakpoint (remove_breakpoint s a) b ≡ (not (a == b) && is_breakpoint s b))
      × IsDistinct (remove_breakpoint s a).breakpoints
unfolding remove_breakpoint is_breakpoint
remove_breakpoint_lem s a d =
    ((λ b. contains-erase_first s.breakpoints a b d), erase_first-IsDistinct s.breakpoints a d)
