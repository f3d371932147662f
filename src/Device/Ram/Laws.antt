-- ===== src/Device/Ram/Laws.antt =====
-- RAM as memory.
use t89emu.Common.{
  ℕ, ◌+◌, ◌-◌, ◌%◌, ◌^◌, ◌<◌, ◌≤◌, ◌≡◌, ◌≢◌, ◌⊎◌, inl, inr, ◌↔◌, refl, sym, ap, ◌∙◌, arith, Option,
  none, some, if◌then◌else◌, leb,
}
use t89emu.Arch.{byte, halfword, word}
use t89emu.Arch.Code
use t89emu.Device.Memory.{MemoryDevice, get_address, peek, poke}
use t89emu.Device.Memory.Bytes.{load_le, store_le, load_le-store_le, load_le_ext, store_le_frame}
use t89emu.Device.Ram.{read, write}

-- `size` bytes from `addr` on lie in the device, which does not wrap around the address space.
pub record Holds (d : MemoryDevice) (addr size : ℕ) : Type 0 where
  pub fits : d.base_address + d.device_size ≤ 2 ^ 32
  pub above : d.base_address ≤ addr
  pub below : addr + size ≤ d.base_address + d.device_size

get_address-eq-sub :
    (d : MemoryDevice) (addr size : ℕ)
    → 0 < size
    → Holds d addr size
    → get_address d addr ≡ addr - d.base_address
unfolding get_address
get_address-eq-sub d addr size p h = omega arith

-- A store, with each of the three sizes, at an aligned address inside.
write_inside :
    (d : MemoryDevice) (addr value size : ℕ)
    → (size ≡ byte) ⊎ (size ≡ halfword) ⊎ (size ≡ word)
    → addr % size ≡ 0
    → Holds d addr size
    → write d addr value size
      ≡ some (Code.status_ok, record d { mem = store_le size d.mem (addr - d.base_address) value })
unfolding write poke
write_inside d addr value size which aligned h =
    ground (arith, get_address-eq-sub d addr size (ground arith) h)

-- An aligned load of any of the three sizes takes four bytes from the address on: the cases of the
-- switch run on into the last one. It has no behaviour when those four leave the buffer, although the
-- bytes that were asked for lie inside.
pub read_inside :
    (d : MemoryDevice) (addr size : ℕ) (old : Option ℕ)
    → (size ≡ byte) ⊎ (size ≡ halfword) ⊎ (size ≡ word)
    → addr % size ≡ 0
    → Holds d addr size
    → read d addr size old ≡ (
        if leb (addr + 4) (d.base_address + d.device_size)
        then some (Code.status_ok, some (load_le 4 d.mem (addr - d.base_address)))
        else none)
unfolding read peek
read_inside d addr size old which aligned h =
    ground (arith, get_address-eq-sub d addr size (ground arith) h)

read_room :
    (d : MemoryDevice) (addr size : ℕ) (old : Option ℕ)
    → (size ≡ byte) ⊎ (size ≡ halfword) ⊎ (size ≡ word)
    → addr % size ≡ 0
    → Holds d addr size
    → addr + 4 ≤ d.base_address + d.device_size
    → read d addr size old ≡ some (Code.status_ok, some (load_le 4 d.mem (addr - d.base_address)))
read_room d addr size old which aligned h room =
    ground (arith, read_inside d addr size old which aligned h)

-- A byte load with three more bytes behind it answers the byte exactly when those three are 0.
pub read-byte_iff :
    (d : MemoryDevice) (addr : ℕ) (old : Option ℕ)
    → Holds d addr 4
    → (read d addr byte old ≡ some (Code.status_ok, some (d.mem (addr - d.base_address))))
      ↔ (load_le 3 d.mem (addr - d.base_address + 1) ≡ 0)
read-byte_iff d addr old h =
    let narrow : Holds d addr byte = record {
      fits = h.fits;
      above = h.above;
      below = omega arith;
    } in
    let value = read_room d addr byte old (inl refl) (omega arith) narrow h.below in
    unfold load_le in ground (arith, value)

-- A word stored at an aligned address inside is read back, cut to 32 digits; a word at another
-- aligned address inside reads as before.
pub read-write :
    (d : MemoryDevice) (addr other value : ℕ) (old : Option ℕ)
    → addr % word ≡ 0
    → Holds d addr word
    → other % word ≡ 0
    → other ≢ addr
    → Holds d other word
    → (d' : MemoryDevice) × (write d addr value word ≡ some (Code.status_ok, d'))
      × (read d' addr word old ≡ some (Code.status_ok, some (value % 2 ^ 32)))
      × (read d' other word old ≡ read d other word old)
read-write d addr other value old aligned h aligned' apart h' =
    let offset = addr - d.base_address in
    let d' : MemoryDevice = record d { mem = store_le word d.mem offset value } in
    let is_word = inr (inr refl) in
    (
      d',
      write_inside d addr value word is_word aligned h,
      read_room d' addr word old is_word aligned
            (record { fits = h.fits; above = h.above; below = h.below }) h.below
          ∙ ap (λ v. some (Code.status_ok, some v)) (load_le-store_le word d.mem offset value),
      read_room d' other word old is_word aligned'
            (record { fits = h'.fits; above = h'.above; below = h'.below }) h'.below
          ∙ ap (λ v. some (Code.status_ok, some v))
              (load_le_ext 4 _ d.mem (other - d.base_address)
                (λ i p q. store_le_frame word d.mem offset value i (ground arith)))
          ∙ sym (read_room d other word old is_word aligned' h' h'.below),
    )
