-- ===== src/Base/Doubles.antt =====
-- Python's floats, as far as seconds are computed with: a double that is not negative, counted in
-- units of 2 ^ -80. A microsecond is more than 2 ^ -20, so every double from there on, and every sum,
-- difference and product of the models, is a whole number of these units.
use Prim.Native.Nat.{ℕ, zero, suc, ◌+◌, ◌-◌, ◌*◌, ◌/◌, ◌%◌, ◌^◌}
use egyptian_arabic_annotati.Base.Tests.{ltb, ◌==◌, if◌then◌else◌}

-- The whole number nearest to a quotient, a half going to the even side.
unfoldable pub half_even : (a b : ℕ) → ℕ
half_even a b =
    let q = a / b in
    let r = a % b in
    if ltb (2 * r) b then q else if ltb b (2 * r) then q + 1 else if q % 2 == 0 then q else q + 1

-- How many of the bits of a quotient do not fit in the 53 of a double, up to the fuel.
unfoldable pub spare_bits : (fuel a b : ℕ) → ℕ
spare_bits zero a b = 0
spare_bits (suc fuel) a b =
    let more = spare_bits fuel a (2 * b) in if ltb a (b * 2 ^ 53) then 0 else suc more

-- The double nearest to `a / b` units. 256 bits reach far beyond any time.
unfoldable pub nearest : (a b : ℕ) → ℕ
unfolding half_even spare_bits
nearest a b = let scale = 2 ^ spare_bits 256 a b in half_even a (b * scale) * scale

-- The float of a decimal text with six places, `us` millionths.
unfoldable pub double : (us : ℕ) → ℕ
unfolding nearest
double us = nearest (us * 2 ^ 80) 1000000

-- The float operations round the exact result; a difference below 0 is 0 here.
unfoldable pub double_add : (x y : ℕ) → ℕ
unfolding nearest
double_add x y = nearest (x + y) 1

unfoldable pub double_sub : (x y : ℕ) → ℕ
unfolding nearest
double_sub x y = nearest (x - y) 1

unfoldable pub double_scale : (x k : ℕ) → ℕ
unfolding nearest
double_scale x k = nearest (x * k) 1
