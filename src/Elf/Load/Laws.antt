-- ===== src/Elf/Load/Laws.antt =====
-- Which segments are chosen.
use t89emu.Common.{
  ℕ, zero, suc, ◌+◌, ◌≤◌, ◌≡◌, refl, sym, ap, ap₂, ◌∙◌, arith, ◌==◌, not, ◌&&◌, Bool, true, false,
  if◌then◌else◌, Bool-cases, inl, inr, Option, none, some, List, [], ◌∷◌, to_int,
}
use t89emu.Result.{Result, ok, exited}
use t89emu.Elf.{ElfHeader, ElfProgramHeader, get_program_header}
use t89emu.Elf.Load.{Segments, pt_load, pf_x, pf_w, pf_r, has, select, select_loop}

-- A loadable segment that can be read and written, and one that can be read and executed but not written.
pub is_ram : ElfProgramHeader → Bool
is_ram p = (p.p_type == pt_load) && (has p.flags pf_r && has p.flags pf_w)

pub is_rom : ElfProgramHeader → Bool
is_rom p = (p.p_type == pt_load) && not (has p.flags pf_w) && has p.flags pf_r && has p.flags pf_x

pub find : (ElfProgramHeader → Bool) → List ElfProgramHeader → Option ElfProgramHeader
find f [] = none
find f (p ∷ ps) = let rest = find f ps in if f p then some p else rest

pub count : (ElfProgramHeader → Bool) → List ElfProgramHeader → ℕ
count f [] = 0
count f (p ∷ ps) = to_int (f p) + count f ps

-- The headers `i` to `i + n - 1` of the file.
unfoldable pub Reads : ℕ → ℕ → List ℕ → ElfHeader → List ElfProgramHeader → Type 0
Reads zero i file h [] = Unit {0}
Reads zero i file h (p ∷ ps) = ⊥
Reads (suc n) i file h [] = ⊥
Reads (suc n) i file h (p ∷ ps) = (get_program_header file h i ≡ some p) × Reads n (i + 1) file h ps

or_else : Option ElfProgramHeader → Option ElfProgramHeader → Option ElfProgramHeader
or_else none o = o
or_else (some p) o = some p

present : Option ElfProgramHeader → ℕ
present none = 0
present (some p) = 1

-- The tests of one round, put together.
regroup {ℓ} :
    {A : Type ℓ} (t r w x : Bool) (a b c : A)
    → (if not t then a else if r && w then b else if r && x then c else a)
      ≡ (if t && (r && w) then b else if t && not w && r && x then c else a)
regroup false r w x a b c = refl
regroup true false false x a b c = refl
regroup true false true x a b c = refl
regroup true true true x a b c = refl
regroup true true false x a b c = refl

segments : Option ElfProgramHeader → Option ElfProgramHeader → Segments
segments a b = record { ram_header = a; rom_header = b }

ram_not_rom : (p : ElfProgramHeader) → is_ram p ≡ true → is_rom p ≡ false
unfolding is_ram is_rom
ram_not_rom p = go (p.p_type == pt_load) (has p.flags pf_r) (has p.flags pf_w) (has p.flags pf_x)
  where
    go : (t r w x : Bool) → t && (r && w) ≡ true → t && not w && r && x ≡ false
    go false r w x e = refl
    go true r true x e = refl
    go true true false x e = cc
    go true false false x e = cc

take_ram : Option ElfProgramHeader → Option ElfProgramHeader → ElfProgramHeader → Result Segments
take_ram none b p = ok (segments (some p) b)
take_ram (some q) b p = exited

select_lem :
    (p : ElfProgramHeader) (a b : Option ElfProgramHeader)
    → select p (segments a b) ≡ (
        if is_ram p
        then take_ram a b p
        else if is_rom p
        then ok (segments a (or_else b (some p)))
        else ok (segments a b))
unfolding select segments is_ram is_rom take_ram or_else
select_lem p none none =
    regroup (p.p_type == pt_load) (has p.flags pf_r) (has p.flags pf_w) (has p.flags pf_x) _ _ _
select_lem p none (some r) =
    regroup (p.p_type == pt_load) (has p.flags pf_r) (has p.flags pf_w) (has p.flags pf_x) _ _ _
select_lem p (some q) none =
    regroup (p.p_type == pt_load) (has p.flags pf_r) (has p.flags pf_w) (has p.flags pf_x) _ _ _
select_lem p (some q) (some r) =
    regroup (p.p_type == pt_load) (has p.flags pf_r) (has p.flags pf_w) (has p.flags pf_x) _ _ _

-- What the loop makes of a list of headers.
Selects : ℕ → ℕ → List ℕ → ElfHeader → List ElfProgramHeader → Type 0
Selects n i file h ps =
    (a b : Option ElfProgramHeader)
    → (present a + count is_ram ps ≤ 1
        → select_loop n i file h (segments a b)
          ≡ ok (segments (or_else a (find is_ram ps)) (or_else b (find is_rom ps))))
      × (2 ≤ present a + count is_ram ps → select_loop n i file h (segments a b) ≡ exited)

or_else-none : (o : Option ElfProgramHeader) → or_else o none ≡ o
unfolding or_else
or_else-none none = refl
or_else-none (some p) = refl

or_else-some :
    (o : Option ElfProgramHeader) (p : ElfProgramHeader) (r : Option ElfProgramHeader)
    → or_else (or_else o (some p)) r ≡ or_else o (some p)
unfolding or_else
or_else-some none p r = refl
or_else-some (some q) p r = refl

present-bound : (o : Option ElfProgramHeader) → present o ≤ 1
unfolding present
present-bound none = omega arith
present-bound (some p) = omega arith

module _ (n i : ℕ) (file : List ℕ) (h : ElfHeader) (p : ElfProgramHeader)
    (here : get_program_header file h i ≡ some p) where
  round_ok :
      (s s' : Segments)
      → select p s ≡ ok s'
      → select_loop (suc n) i file h s ≡ select_loop n (i + 1) file h s'
  unfolding select_loop
  round_ok s s' e = rw (here, e) refl

  round_exited : (s : Segments) → select p s ≡ exited → select_loop (suc n) i file h s ≡ exited
  unfolding select_loop
  round_exited s e = rw (here, e) refl

  ram_round :
      (ps : List ElfProgramHeader) (a b : Option ElfProgramHeader)
      → is_ram p ≡ true
      → Selects n (i + 1) file h ps
      → (present a + count is_ram (p ∷ ps) ≤ 1
          → select_loop (suc n) i file h (segments a b)
            ≡ ok (segments (or_else a (find is_ram (p ∷ ps))) (or_else b (find is_rom (p ∷ ps)))))
        × (2 ≤ present a + count is_ram (p ∷ ps)
            → select_loop (suc n) i file h (segments a b) ≡ exited)
  unfolding Selects count find present or_else take_ram
  ram_round ps none b e rest =
      let s : select p (segments none b) ≡ ok (segments (some p) b) =
        select_lem p none b ∙ rw e refl in
      let no_rom : is_rom p ≡ false = ram_not_rom p e in
      rw (e, no_rom)
        (
          (λ few.
              round_ok (segments none b) (segments (some p) b) s
              ∙ (rest (some p) b).0 (omega (arith, few))),
          (λ many.
              round_ok (segments none b) (segments (some p) b) s
              ∙ (rest (some p) b).1 (omega (arith, many))),
        )
  ram_round ps (some q) b e rest =
      let s : select p (segments (some q) b) ≡ exited = select_lem p (some q) b ∙ rw e refl in
      rw e ((λ few. absurd (omega arith)), (λ many. round_exited (segments (some q) b) s))

  other_round :
      (ps : List ElfProgramHeader) (a b : Option ElfProgramHeader)
      → is_ram p ≡ false
      → Selects n (i + 1) file h ps
      → (present a + count is_ram (p ∷ ps) ≤ 1
          → select_loop (suc n) i file h (segments a b)
            ≡ ok (segments (or_else a (find is_ram (p ∷ ps))) (or_else b (find is_rom (p ∷ ps)))))
        × (2 ≤ present a + count is_ram (p ∷ ps)
            → select_loop (suc n) i file h (segments a b) ≡ exited)
  unfolding Selects count find
  other_round ps a b e rest = elim (Bool-cases (is_rom p)) [
    | inl rom ↦
        let b' = or_else b (some p) in
        let s : select p (segments a b) ≡ ok (segments a b') =
          select_lem p a b ∙ rw (e, rom) refl in
        let go = round_ok (segments a b) (segments a b') s in
        rw (e, rom)
          (
            (λ few.
                go
                ∙ (rest a b').0 (omega (arith, few))
                ∙ ap (λ o. ok (segments (or_else a (find is_ram ps)) o))
                    (or_else-some b p (find is_rom ps))),
            (λ many. go ∙ (rest a b').1 (omega (arith, many))),
          )
    | inr no_rom ↦
        let s : select p (segments a b) ≡ ok (segments a b) =
          select_lem p a b ∙ rw (e, no_rom) refl in
        let go = round_ok (segments a b) (segments a b) s in
        rw (e, no_rom)
          (
            (λ few. go ∙ (rest a b).0 (omega (arith, few))),
            (λ many. go ∙ (rest a b).1 (omega (arith, many))),
          )
  ]

select_loop-Selects :
    (n i : ℕ) (file : List ℕ) (h : ElfHeader) (ps : List ElfProgramHeader)
    → Reads n i file h ps
    → Selects n i file h ps
unfolding Reads Selects
select_loop-Selects zero i file h [] r a b = (
  (λ _.
      unfold select_loop find in
      ap₂ (λ x y. ok (segments x y)) (sym (or_else-none a)) (sym (or_else-none b))),
  (λ bad. absurd (unfold count in omega (arith, bad, present-bound a))),
)
select_loop-Selects zero i file h (p ∷ ps) r a b = absurd r
select_loop-Selects (suc n) i file h [] r a b = absurd r
select_loop-Selects (suc n) i file h (p ∷ ps) r a b =
    let rest = select_loop-Selects n (i + 1) file h ps r.1 in
    elim (Bool-cases (is_ram p)) [
      | inl yes_ram ↦ ram_round n i file h p r.0 ps a b yes_ram rest
      | inr no_ram ↦ other_round n i file h p r.0 ps a b no_ram rest
    ]

-- Where all program headers can be read: with at most one loadable segment that can be read and written, that
-- one is the RAM segment, and the first that can be read and executed but not written is the ROM segment; with
-- two or more of the former the program exits.
pub select_loop_lem :
    (file : List ℕ) (h : ElfHeader) (ps : List ElfProgramHeader)
    → Reads h.phnum 0 file h ps
    → (count is_ram ps ≤ 1
        → select_loop h.phnum 0 file h (record { ram_header = none; rom_header = none })
          ≡ ok (record { ram_header = find is_ram ps; rom_header = find is_rom ps }))
      × (2 ≤ count is_ram ps
          → select_loop h.phnum 0 file h (record { ram_header = none; rom_header = none }) ≡ exited)
unfolding Selects segments present or_else
select_loop_lem file h ps r =
    let both = select_loop-Selects h.phnum 0 file h ps r none none in
    ((λ few. both.0 (omega (arith, few))), (λ many. both.1 (omega (arith, many))))
