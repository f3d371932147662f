-- ===== src/Elf/Load/Flash.antt =====
-- What ROM holds after the program has been written to it.
use t89emu.Common.{
  ℕ, zero, suc, ◌+◌, ◌≤◌, ◌<◌, ◌≡◌, ◌⊎◌, ◌≢◌, inl, inr, refl, sym, ap, ◌∙◌, arith, ltb, true,
  lt→ltb, some, List, [], ◌∷◌, length, get_elem?, update,
}
use t89emu.Device.Memory.{MemoryDevice}
use t89emu.Result.{ok}
use t89emu.Elf.{ElfProgramHeader, section_size}
use t89emu.Elf.Load.{ElfParser, flash_section, flash_rom}

-- `n` bytes of the file from `src` on stand in the buffer from `dst` on, and the rest is as it was.
pub record Written (n src dst : ℕ) (file : List ℕ) (d d' : MemoryDevice) : Type 0 where
  pub copied : (i : ℕ) → i < n → get_elem? file (src + i) ≡ some (d'.mem (dst + i))
  pub kept : (j : ℕ) → (j < dst) ⊎ (dst + n ≤ j) → d'.mem j ≡ d.mem j
  pub base_same : d'.base_address ≡ d.base_address
  pub size_same : d'.device_size ≡ d.device_size

update-other : (f : ℕ → ℕ) (p v j : ℕ) → j ≢ p → update f p v j ≡ f j
update-other f p v j h = ground arith

update-here : (f : ℕ → ℕ) (p v : ℕ) → update f p v p ≡ v
update-here f p v = ground arith

-- One byte, and what follows it.
Written-first :
    (n src dst : ℕ) (file : List ℕ) (d d' : MemoryDevice) (b : ℕ)
    → get_elem? file src ≡ some b
    → Written n (src + 1) (dst + 1) file (record d { mem = update d.mem dst b }) d'
    → Written (suc n) src dst file d d'
Written-first n src dst file d d' b e w = record {
  copied = copied_to;
  kept = λ j h.
      w.kept j (elim h [ inl x ↦ inl (omega arith) | inr x ↦ inr (omega arith) ])
      ∙ update-other d.mem dst b j (elim h [ inl x ↦ λ q. omega arith | inr x ↦ λ q. omega arith ]);
  base_same = w.base_same;
  size_same = w.size_same;
}
  where
    copied_to : (i : ℕ) → i < suc n → get_elem? file (src + i) ≡ some (d'.mem (dst + i))
    copied_to zero h =
        let at : src + 0 ≡ src = omega arith in
        let to : dst + 0 ≡ dst = omega arith in
        rw (at, to) (e ∙ ap some (sym (w.kept dst (inl (omega arith)) ∙ update-here d.mem dst b)))
    copied_to (suc i) h =
        let at : src + suc i ≡ src + 1 + i = omega arith in
        let to : dst + suc i ≡ dst + 1 + i = omega arith in rw (at, to) (w.copied i (omega arith))

get_elem?-some {ℓ} :
    {A : Type ℓ} (xs : List A) (i : ℕ) → i < length xs → (a : A) × (get_elem? xs i ≡ some a)
get_elem?-some [] i h = absurd (omega arith)
get_elem?-some (x ∷ xs) zero h = (x, refl)
get_elem?-some (x ∷ xs) (suc i) h = get_elem?-some xs i (omega arith)

flash_section_lem :
    (n src dst : ℕ) (file : List ℕ) (d : MemoryDevice)
    → src + n ≤ length file
    → dst + n ≤ d.device_size
    → (d' : MemoryDevice) × (flash_section n src dst file d ≡ ok d') × Written n src dst file d d'
unfolding flash_section
flash_section_lem zero src dst file d hs hd = (
  d,
  refl,
  record {
    copied = λ i h. absurd (omega arith);
    kept = λ j h. refl;
    base_same = refl;
    size_same = refl;
  },
)
flash_section_lem (suc n) src dst file d hs hd =
    let (b, e) = get_elem?-some file src (omega arith) in
    let d1 : MemoryDevice = record d { mem = update d.mem dst b } in
    let room : ltb dst d.device_size ≡ true = lt→ltb dst d.device_size (omega arith) in
    let (d', f, w) = flash_section_lem n (src + 1) (dst + 1) file d1 (omega arith) (omega arith) in
    (d', rw (e, room) f, Written-first n src dst file d d' b e w)

-- With room for both segments in the buffer, and all of their bytes in the file, the program is written: the
-- bytes of the ROM segment from the start of the buffer on, those of the RAM segment right behind them, and
-- nothing else changes.
pub flash_rom_lem :
    (e : ElfParser) (rom ram : ElfProgramHeader) (d : MemoryDevice)
    → e.segments.rom_header ≡ some rom
    → e.segments.ram_header ≡ some ram
    → rom.offset + section_size rom ≤ length e.file
    → ram.offset + section_size ram ≤ length e.file
    → section_size rom + section_size ram ≤ d.device_size
    → (d' : MemoryDevice) × (flash_rom e d ≡ ok d')
      × ((i : ℕ) → i < section_size rom → get_elem? e.file (rom.offset + i) ≡ some (d'.mem i))
      × ((i : ℕ)
          → i < section_size ram
          → get_elem? e.file (ram.offset + i) ≡ some (d'.mem (section_size rom + i)))
      × ((j : ℕ) → section_size rom + section_size ram ≤ j → d'.mem j ≡ d.mem j)
      × (d'.base_address ≡ d.base_address)
      × (d'.device_size ≡ d.device_size)
unfolding flash_rom
flash_rom_lem e rom ram d er ea hr ha room =
    let n = section_size rom in
    let m = section_size ram in
    let (d1, f1, w1) = flash_section_lem n rom.offset 0 e.file d hr (omega arith) in
    let (d2, f2, w2) =
      flash_section_lem m ram.offset n e.file d1 ha (omega (arith, w1.size_same)) in
    (
      d2,
      rw (er, f1, ea) f2,
      λ i h. w1.copied i h ∙ ap some (ap d1.mem (omega arith) ∙ sym (w2.kept i (inl h))),
      w2.copied,
      λ j h. w2.kept j (inr h) ∙ w1.kept j (inr (omega arith)),
      w2.base_same ∙ w1.base_same,
      w2.size_same ∙ w1.size_same,
    )
