-- ===== src/Device/Memory/Access.antt =====
-- What an access keeps and what it yields, for the devices' reads and writes.
use t89emu.Common.{
  ℕ, ◌+◌, ◌^◌, ◌<◌, ◌≤◌, ◌≡◌, refl, ◌⊎◌, inl, inr, arith, Option, none, some, Ensures, Ensures-if,
  Ensures-bind, Ensures_trivial, ◌>>=◌, ◌>>◌, leb, ◌==◌, Bool-cases,
}
use t89emu.Arch.{byte, halfword, word}
use t89emu.Arch.Code
use t89emu.Device.Memory.{
  MemoryDevice, Answer, get_address, peek, poke, peek_fall_through, peek_sized, poke_sized,
}
use t89emu.Device.Memory.Bytes.{IsBytes, load_le-lt, store_le-IsBytes}
use native.Mathlib.Nat.{pow-le-pow_right}

-- A status is success or the code of an exception.
abbrev pub IsStatus : ℕ → Type 0
IsStatus s = (s ≡ Code.status_ok) ⊎ (s < 16)

abbrev pub IsWord : ℕ → Type 0
IsWord v = v < 2 ^ 32

abbrev pub IsAnswer : Answer → Type 0
IsAnswer (status, value) = IsStatus status × Ensures IsWord value

-- The new device has the old one's place in memory, and bytes in its cells.
pub record Keeps (d d' : MemoryDevice) : Type 0 where
  pub base : d'.base_address ≡ d.base_address
  pub size : d'.device_size ≡ d.device_size
  pub bytes : IsBytes d.mem → IsBytes d'.mem

pub Keeps-refl : (d : MemoryDevice) → Keeps d d
Keeps-refl d = record { base = refl; size = refl; bytes = λ h. h }

peek-IsWord :
    (d : MemoryDevice) (count addr : ℕ)
    → IsBytes d.mem
    → count ≤ 4
    → Ensures IsWord (peek d count addr)
unfolding peek
peek-IsWord d count addr h small = ground (
  arith,
  load_le-lt count d.mem (get_address d addr) h,
  pow-le-pow_right {n = 256} (omega arith) {i = count} {j = 4} small,
)

poke-Keeps : (d : MemoryDevice) (count addr value : ℕ) → Ensures (Keeps d) (poke d count addr value)
unfolding poke
poke-Keeps d count addr value = elim (Bool-cases (leb (get_address d addr + count) d.device_size)) [
  | inl fits ↦ rw fits (record {
    base = refl;
    size = refl;
    bytes = store_le-IsBytes count d.mem (get_address d addr) value;
  })
  | inr out ↦ rw out tt
]

pub poke_sized-Keeps :
    (d : MemoryDevice) (size addr value : ℕ) → Ensures (Keeps d) (poke_sized d size addr value)
unfolding poke_sized
poke_sized-Keeps d size addr value =
    Ensures-if (Keeps d) (size == byte) _ _ (λ _. poke-Keeps d byte addr value)
      λ _.
        Ensures-if (Keeps d) (size == halfword) _ _ (λ _. poke-Keeps d halfword addr value)
          λ _.
            Ensures-if (Keeps d) (size == word) _ _ (λ _. poke-Keeps d word addr value)
              λ _. Keeps-refl d

-- A word read into the caller's variable.
written-IsWord :
    (d : MemoryDevice) (count addr : ℕ)
    → IsBytes d.mem
    → count ≤ 4
    → Ensures (Ensures IsWord) (peek d count addr >>= λ v. some (some v))
written-IsWord d count addr h small =
    Ensures-bind IsWord (Ensures IsWord) (peek d count addr) _ (peek-IsWord d count addr h small)
      (λ v hv. hv)

pub peek_sized-IsWord :
    (d : MemoryDevice) (size addr : ℕ)
    → IsBytes d.mem
    → Ensures (Ensures IsWord) (peek_sized d size addr none)
unfolding peek_sized
peek_sized-IsWord d size addr h =
    Ensures-if (Ensures IsWord) (size == byte) _ _ (λ _. written-IsWord d byte addr h (omega arith))
      λ _.
        Ensures-if (Ensures IsWord) (size == halfword) _ _
          (λ _. written-IsWord d halfword addr h (omega arith))
          λ _.
            Ensures-if (Ensures IsWord) (size == word) _ _
              (λ _. written-IsWord d word addr h (omega arith)) λ _. tt

skip :
    (d : MemoryDevice) (count addr : ℕ) (m : Option (Option ℕ))
    → Ensures (Ensures IsWord) m
    → Ensures (Ensures IsWord) (peek d count addr >> m)
skip d count addr m e =
    Ensures-bind (λ _. Unit {0}) (Ensures IsWord) (peek d count addr) _
      (Ensures_trivial (peek d count addr)) (λ _ _. e)

pub peek_fall_through-IsWord :
    (d : MemoryDevice) (size addr : ℕ)
    → IsBytes d.mem
    → Ensures (Ensures IsWord) (peek_fall_through d size addr none)
unfolding peek_fall_through
peek_fall_through-IsWord d size addr h =
    let last = written-IsWord d word addr h (omega arith) in
    let middle = skip d halfword addr (peek d word addr >>= λ v. some (some v)) last in
    Ensures-if (Ensures IsWord) (size == byte) _ _
      (λ _.
        skip d byte addr (peek d halfword addr >> (peek d word addr >>= λ v. some (some v))) middle)
      λ _.
        Ensures-if (Ensures IsWord) (size == halfword) _ _ (λ _. middle)
          λ _. Ensures-if (Ensures IsWord) (size == word) _ _ (λ _. last) λ _. tt
