-- ===== src/Device/Memory/Bytes.antt =====
-- Little-endian numbers in a buffer of bytes.
use t89emu.Common.{
  ℕ, zero, suc, ◌+◌, ◌*◌, ◌/◌, ◌%◌, ◌^◌, ◌≤◌, ◌<◌, update, ◌≡◌, refl, sym, ap, ◌⊎◌, inl, arith,
}
use native.Mathlib.Nat.{pow-suc, mul_comm, mod-add-div, div-div-eq-div-mul}

-- `count` bytes from `offset` on, lowest first.
unfoldable pub load_le : ℕ → (ℕ → ℕ) → ℕ → ℕ
load_le zero mem offset = 0
load_le (suc count) mem offset = mem offset + 256 * load_le count mem (offset + 1)

unfoldable pub store_le : ℕ → (ℕ → ℕ) → ℕ → ℕ → ℕ → ℕ
store_le zero mem offset value = mem
store_le (suc count) mem offset value =
    store_le count (update mem offset (value % 256)) (offset + 1) (value / 256)

-- Every cell holds a byte.
abbrev pub IsBytes : (ℕ → ℕ) → Type 0
IsBytes mem = (i : ℕ) → mem i < 256

pub load_le-lt :
    (count : ℕ) (mem : ℕ → ℕ) (offset : ℕ) → IsBytes mem → load_le count mem offset < 256 ^ count
unfolding load_le
load_le-lt zero mem offset h = omega arith
load_le-lt (suc count) mem offset h =
    omega (arith, h offset, pow-suc 256 count, load_le-lt count mem (offset + 1) h)

-- A store changes no byte outside its range.
pub store_le_frame :
    (count : ℕ) (mem : ℕ → ℕ) (offset value i : ℕ)
    → (i < offset) ⊎ (offset + count ≤ i)
    → store_le count mem offset value i ≡ mem i
unfolding store_le
store_le_frame zero mem offset value i h = refl
store_le_frame (suc count) mem offset value i h =
    ground
      (arith, store_le_frame count (update mem offset (value % 256)) (offset + 1) (value / 256) i)

pub store_le-IsBytes :
    (count : ℕ) (mem : ℕ → ℕ) (offset value : ℕ)
    → IsBytes mem
    → IsBytes (store_le count mem offset value)
unfolding store_le
store_le-IsBytes zero mem offset value h = h
store_le-IsBytes (suc count) mem offset value h =
    store_le-IsBytes count _ (offset + 1) (value / 256) (λ i. ground (arith, h i))

-- Two buffers that agree from `offset` on give the same number.
pub load_le_ext :
    (count : ℕ) (f g : ℕ → ℕ) (offset : ℕ)
    → ((i : ℕ) → offset ≤ i → i < offset + count → f i ≡ g i)
    → load_le count f offset ≡ load_le count g offset
unfolding load_le
load_le_ext zero f g offset h = refl
load_le_ext (suc count) f g offset h = omega (
  arith,
  h offset (omega arith) (omega arith),
  load_le_ext count f g (offset + 1) (λ i p q. h i (omega arith) (omega arith)),
)

mod_split : (v m : ℕ) → v % (m * 256) ≡ v % 256 + 256 * (v / 256 % m)
mod_split v m =
    let e : v / (m * 256) ≡ v / 256 / m = rw mul_comm (sym (div-div-eq-div-mul v 256 m)) in
    omega (arith, mod-add-div v (m * 256), mod-add-div (v / 256) m, ap (λ (t : ℕ). m * t) e)

-- What is read back where it was written is the value, cut to the width.
pub load_le-store_le :
    (count : ℕ) (mem : ℕ → ℕ) (offset value : ℕ)
    → load_le count (store_le count mem offset value) offset ≡ value % 256 ^ count
unfolding load_le store_le
load_le-store_le zero mem offset value = omega arith
load_le-store_le (suc count) mem offset value =
    let mem' = update mem offset (value % 256) in
    ground (
      arith,
      store_le_frame count mem' (offset + 1) (value / 256) offset (inl (omega arith)),
      load_le-store_le count mem' (offset + 1) (value / 256),
      mod_split value (256 ^ count),
      pow-suc 256 count,
    )
