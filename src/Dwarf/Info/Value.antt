-- ===== src/Dwarf/Info/Value.antt =====
-- The number that the bytes of an attribute stand for.
use t89emu.Common.{
  ℕ, ◌+◌, ◌*◌, ◌^◌, ◌≤◌, ◌<◌, ◌≡◌, ◌∙◌, ap, arith, ltb, true, List, [], ◌∷◌, length, All, bit_or,
  u64, if◌then◌else◌,
}
use native.Mathlib.Nat.{
  pow-le-pow_right, mul-add, mul_comm, mul_assoc, mul-le-mul_right, mod-eq_of_lt,
}
use t89emu.Common.Bits.{bit_or_fields_swap}
use t89emu.Dwarf.DataStream.Leb.{pow-seven, pow-next}
use t89emu.Result.{ok, exited, Ends, Ends-if, Ends-bool}
use t89emu.Dwarf.Info.{DebugData, get_uint, get_uint_loop, contains, integer_forms}

get_uint_loop-Ends : (bs : List ℕ) (i res : ℕ) → Ends (λ _. Unit {0}) (get_uint_loop bs i res)
unfolding get_uint_loop
get_uint_loop-Ends [] i res = tt
get_uint_loop-Ends (b ∷ bs) i res =
    Ends-bool (λ _. Unit {0}) (ltb (8 * i) 64) _ _ (get_uint_loop-Ends bs (i + 1) _) tt

pub get_uint-Ends : (d : DebugData) → Ends (λ _. Unit {0}) (get_uint d)
unfolding get_uint
get_uint-Ends d =
    Ends-if (λ _. Unit {0}) (contains integer_forms d.form) _ _
      (λ _. get_uint_loop-Ends d.bytes 0 0) (λ _. tt)

-- Bytes, the lowest first.
unfoldable pub le_value : List ℕ → ℕ
le_value [] = 0
le_value (b ∷ bs) = b + 256 * le_value bs

pow-byte : (i : ℕ) → 2 ^ (8 * (i + 1)) ≡ 2 ^ (8 * i) * 256
pow-byte i = omega (arith, pow-seven (8 * i), pow-next (8 * i + 7) (8 * (i + 1)) (omega arith))

spread : (p b res l : ℕ) → res + b * p + p * 256 * l ≡ res + p * (b + 256 * l)
spread p b res l = omega (arith, mul-add p b (256 * l), mul_comm p b, mul_assoc p 256 l)

get_uint_loop_lem :
    (bs : List ℕ) (i res : ℕ)
    → i + length bs ≤ 8
    → res < 2 ^ (8 * i)
    → All (λ b. b < 256) bs
    → get_uint_loop bs i res ≡ ok (res + 2 ^ (8 * i) * le_value bs)
unfolding get_uint_loop le_value
get_uint_loop_lem [] i res short small bytes = ap ok (omega arith)
get_uint_loop_lem (b ∷ bs) i res short small (hb, hbs) =
    let p = 2 ^ (8 * i) in
    let high : p ≤ 2 ^ 56 =
      pow-le-pow_right {n = 2} (omega arith) {i = 8 * i} {j = 56} (omega arith) in
    let next : 2 ^ (8 * (i + 1)) ≡ p * 256 = pow-byte i in
    let part : b * p ≤ 255 * p = mul-le-mul_right {m = b} {n = 255} p (omega arith) in
    let whole : u64 (b * p) ≡ b * p = mod-eq_of_lt (omega arith) in
    let room : ltb (8 * i) 64 ≡ true = ground arith in
    let here : bit_or res (b * p) ≡ res + b * p = bit_or_fields_swap (8 * i) b res small in
    rw (room, get_uint_loop, whole, here)
      (get_uint_loop_lem bs (i + 1) (res + b * p) (omega arith) (omega arith) hbs
        ∙ ap ok (rw next (spread p b res (le_value bs))))

-- A form that is read as a number gives the value of its bytes, the lowest first, for up to eight bytes; any
-- other form exits.
pub get_uint_lem :
    (d : DebugData)
    → length d.bytes ≤ 8
    → All (λ b. b < 256) d.bytes
    → get_uint d ≡ (if contains integer_forms d.form then ok (le_value d.bytes) else exited)
unfolding get_uint
get_uint_lem d short bytes =
    rw (get_uint_loop_lem d.bytes 0 0 (omega arith) (omega arith) bytes)
      (ap (λ v. if contains integer_forms d.form then ok v else exited) (omega arith))
