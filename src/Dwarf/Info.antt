-- ===== src/Dwarf/Info.antt =====
-- t89emu/src/Dwarf/DebugInfoEntry.cpp: the data of an attribute, the abbreviation table, and the tree of
-- debugging information entries.
pub mod Abbrev
pub mod Value
pub mod Decode
pub mod Tree
use t89emu.Common.{
  ℕ, ◌+◌, ◌*◌, ◌==◌, ltb, ◌||◌, Bool, true, false, if◌then◌else◌, Option, none, some, List, [], ◌∷◌,
  ◌++◌, bit_or, u64, ◌<<<◌,
}
use t89emu.Dwarf.Encoding.Form
use t89emu.Result.{Result, ok, exited, fault}

pub record DebugData : Type 0 where
  pub bytes : List ℕ
  pub form : ℕ

-- `DebugData(void)`.
abbrev pub empty_data : DebugData
empty_data = record { bytes = []; form = Form.data8 }

unfoldable pub write : DebugData → List ℕ → DebugData
write data' buff = record data' { bytes = data'.bytes ++ buff }

unfoldable is_string : DebugData → Bool
is_string d = d.form == Form.string || d.form == Form.strp || d.form == Form.line_strp

-- `getString`, as it is copied into a string: up to the first 0.
unfoldable until_zero : List ℕ → List ℕ
until_zero [] = []
until_zero (c ∷ cs) = let rest = until_zero cs in if c == 0 then [] else c ∷ rest

unfoldable pub get_string : DebugData → List ℕ
unfolding until_zero
get_string d = until_zero d.bytes

unfoldable pub contains : List ℕ → ℕ → Bool
contains [] n = false
contains (m ∷ ms) n = if m == n then true else contains ms n

-- The cases of the `switch` in `getUInt`.
abbrev pub integer_forms : List ℕ
integer_forms =
    Form.addr ∷ Form.block ∷ Form.exprloc ∷ Form.data1 ∷ Form.flag ∷ Form.flag_present ∷ Form.ref1
    ∷ Form.strx1 ∷ Form.addrx1 ∷ Form.data2 ∷ Form.ref2 ∷ Form.strx2 ∷ Form.addrx2 ∷ Form.strx3
    ∷ Form.addrx3 ∷ Form.data4 ∷ Form.ref_addr ∷ Form.ref4 ∷ Form.sec_offset ∷ Form.line_strp
    ∷ Form.strx4 ∷ Form.addrx4 ∷ Form.data8 ∷ Form.ref8 ∷ Form.ref_sig8 ∷ Form.sdata ∷ Form.udata
    ∷ Form.ref_udata ∷ Form.strx ∷ Form.addrx ∷ Form.loclistx ∷ Form.rnglistx ∷ Form.implicit_const
    ∷ []

-- `res |= (uint64_t)data[i] << (8*i)`; a shift by 64 or more has no behaviour.
unfoldable pub get_uint_loop : List ℕ → ℕ → ℕ → Result ℕ
get_uint_loop [] i res = ok res
get_uint_loop (b ∷ bs) i res = elim (ltb (8 * i) 64) [
  | true ↦ get_uint_loop bs (i + 1) (bit_or res (u64 (b <<< (8 * i))))
  | false ↦ fault
]

unfoldable pub get_uint : DebugData → Result ℕ
unfolding contains
get_uint d = if contains integer_forms d.form then get_uint_loop d.bytes 0 0 else exited

-- `std::map::insert`: an entry that is there stays.
unfoldable pub insert_new {ℓ} : {A : Type ℓ} → (ℕ → Option A) → ℕ → A → ℕ → Option A
insert_new f k v i = if i == k then some (elim (f k) [ none ↦ v | some w ↦ w ]) else f i
