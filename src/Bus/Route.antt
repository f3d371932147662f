-- ===== src/Bus/Route.antt =====
-- Which device an access reaches, and what it finds there.
use t89emu.Common.{
  ℕ, ◌+◌, ◌%◌, ◌^◌, ◌≤◌, ◌≡◌, ◌∙◌, ◌⊎◌, inl, inr, refl, ap, arith, Bool-cases, Option, some, true,
  false, List, [], ◌∷◌, ◌++◌, All,
}
use t89emu.Arch.Code
use t89emu.Device.Memory.{get_end_address}
use t89emu.Bus.{
  Bus, Devices, DeviceRef, read_device, write_device, base_part, in_range, read_loop, write_loop,
  read, write,
}

-- An access is passed to the first device, in the order of `add_device`, whose range holds the
-- address; a device behind it is never asked.
pub first_match :
    (ds : Devices) (front back : List DeviceRef) (r : DeviceRef) (addr value size : ℕ)
    (old : Option ℕ)
    → All (λ q. in_range (base_part ds q) addr ≡ false) front
    → in_range (base_part ds r) addr ≡ true
    → let bus : Bus = record { devices = front ++ (r ∷ back) } in
      (read bus ds addr size old ≡ read_device ds r addr size old)
      × (write bus ds addr value size ≡ write_device ds r addr value size)
unfolding read write read_loop write_loop
first_match ds [] back r addr value size old h e = (rw e, rw e)
first_match ds (q ∷ front) back r addr value size old h e =
    let rest = first_match ds front back r addr value size old h.1 e in
    (rw h.0 rest.0, rw h.0 rest.1)

-- An address that no device holds is an access fault, and a write to it changes nothing.
no_match :
    (ds : Devices) (l : List DeviceRef) (addr value size : ℕ) (old : Option ℕ)
    → All (λ q. in_range (base_part ds q) addr ≡ false) l
    → let bus : Bus = record { devices = l } in
      (read bus ds addr size old ≡ some (Code.load_access_fault, old))
      × (write bus ds addr value size ≡ some (Code.store_access_fault, ds))
unfolding read write read_loop write_loop
no_match ds [] addr value size old h = (refl, refl)
no_match ds (q ∷ l) addr value size old h =
    let rest = no_match ds l addr value size old h.1 in (rw h.0 rest.0, rw h.0 rest.1)

-- A device holds the addresses from its base to its base plus its size, both included, the sum with wrap-around.
abbrev pub HoldsAddress : Devices → ℕ → DeviceRef → Type 0
HoldsAddress ds addr r =
    let d = base_part ds r in
    (d.base_address ≤ addr) × (addr ≤ (d.base_address + d.device_size) % 2 ^ 32)

in_range-HoldsAddress :
    (ds : Devices) (addr : ℕ) (r : DeviceRef)
    → in_range (base_part ds r) addr ≡ true
    → HoldsAddress ds addr r
unfolding in_range get_end_address
in_range-HoldsAddress ds addr r e = (ground arith, ground arith)

in_range-not_HoldsAddress :
    (ds : Devices) (addr : ℕ) (r : DeviceRef)
    → in_range (base_part ds r) addr ≡ false
    → ¬ HoldsAddress ds addr r
unfolding in_range get_end_address
in_range-not_HoldsAddress ds addr r e h = let (low, high) = h in ground arith

first_holder :
    (ds : Devices) (addr : ℕ) (l : List DeviceRef)
    → All (λ q. in_range (base_part ds q) addr ≡ false) l
      ⊎ ((front : List DeviceRef) × (r : DeviceRef) × (back : List DeviceRef) × (l
            ≡ front ++ (r ∷ back))
          × All (λ q. in_range (base_part ds q) addr ≡ false) front
          × (in_range (base_part ds r) addr ≡ true))
first_holder ds addr [] = inl tt
first_holder ds addr (q ∷ l) = elim (Bool-cases (in_range (base_part ds q) addr)) [
  | inl here ↦ inr ([], q, l, refl, tt, here)
  | inr other ↦ elim (first_holder ds addr l) [
    | inl nowhere ↦ inl (other, nowhere)
    | inr (front, r, back, e, before, here) ↦
        inr (q ∷ front, r, back, ap (λ t. q ∷ t) e, (other, before), here)
  ]
]

All-not_HoldsAddress :
    (ds : Devices) (addr : ℕ) (l : List DeviceRef)
    → All (λ q. in_range (base_part ds q) addr ≡ false) l
    → All (λ q. ¬ HoldsAddress ds addr q) l
All-not_HoldsAddress ds addr [] h = tt
All-not_HoldsAddress ds addr (q ∷ l) h =
    (in_range-not_HoldsAddress ds addr q h.0, All-not_HoldsAddress ds addr l h.1)

-- An access that no device of the bus holds is an access fault, and a write changes nothing then. Any other is
-- passed to the first device, in the order of the bus, that holds the address; a device holds the addresses from
-- its base to its base plus its size, both included.
pub accesses_routed :
    (bus : Bus) (ds : Devices) (addr value size : ℕ) (old : Option ℕ)
    → (All (λ q. ¬ HoldsAddress ds addr q) bus.devices
        × (read bus ds addr size old ≡ some (Code.load_access_fault, old))
        × (write bus ds addr value size ≡ some (Code.store_access_fault, ds)))
      ⊎ ((front : List DeviceRef) × (r : DeviceRef) × (back : List DeviceRef) × (bus.devices
            ≡ front ++ (r ∷ back))
          × All (λ q. ¬ HoldsAddress ds addr q) front
          × HoldsAddress ds addr r
          × (read bus ds addr size old ≡ read_device ds r addr size old)
          × (write bus ds addr value size ≡ write_device ds r addr value size))
accesses_routed bus ds addr value size old = elim (first_holder ds addr bus.devices) [
  | inl nowhere ↦
      let (r, w) = no_match ds bus.devices addr value size old nowhere in
      inl (All-not_HoldsAddress ds addr bus.devices nowhere, r, w)
  | inr (front, r, back, e, before, here) ↦
      let (rd, wr) = first_match ds front back r addr value size old before here in
      let same : bus ≡ record { devices = front ++ (r ∷ back) } =
        ap (λ l. record { devices = l }) e in
      inr (
        front,
        r,
        back,
        e,
        All-not_HoldsAddress ds addr front before,
        in_range-HoldsAddress ds addr r here,
        ap (λ b. read b ds addr size old) same ∙ rd,
        ap (λ b. write b ds addr value size) same ∙ wr,
      )
]
