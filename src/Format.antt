-- ===== src/Format.antt =====
-- `f64` as its 64 bits, with the tests that src/storage/integrity.rs makes of one, and the
-- standard library's printing of floats and of quoted texts, which stays a parameter.
use libviprs_bench.Json.{Number, unsigned, negative, float}
use libviprs_bench.Base.{
  ℕ, ◌-◌, ◌*◌, ◌/◌, ◌%◌, ◌^◌, ◌+◌, Bool, true, false, not, ◌&&◌, String, leb, ltb, ◌||◌, ◌==◌,
  if◌then◌else◌, show, ◌&◌, ◌≡◌, refl,
}

pub record Fmt : Type 0 where
  -- `{v}` and `{v:e}` of an `f64`, `{s:?}` of a text
  pub display : ℕ → String
  pub lower_exp : ℕ → String
  pub debug : String → String
  -- `{}` of the `as_f64` of a number
  pub display_number : Number → String

-- The bits of `v.abs()`; the order of these bits is the order of the magnitudes.
abbrev pub abs : ℕ → ℕ
abs v = v % 2 ^ 63

abbrev exponent : ℕ → ℕ
exponent v = abs v / 2 ^ 52

abbrev significand : ℕ → ℕ
significand v = 2 ^ 52 + abs v % 2 ^ 52

-- `f64::is_finite`
unfoldable pub is_finite : ℕ → Bool
is_finite v = not (exponent v == 2047)

-- `v == 0.0`, which both zeros satisfy
unfoldable pub is_zero : ℕ → Bool
is_zero v = abs v == 0

-- `v.fract() == 0.0` for a finite `v` that is no zero: the significand counts units of
-- 2 ^ (exponent - 1075).
unfoldable pub is_whole : ℕ → Bool
is_whole v =
    if leb 1075 (exponent v)
    then true
    else leb 1023 (exponent v) && significand v % 2 ^ (1075 - exponent v) == 0

-- `v as i64` of a finite `v` that fits, as its magnitude
unfoldable pub truncate : ℕ → ℕ
truncate v =
    if leb 1075 (exponent v)
    then significand v * 2 ^ (exponent v - 1075)
    else if leb 1023 (exponent v)
    then significand v / 2 ^ (1075 - exponent v)
    else 0

-- `format!("{}", v as i64)`
unfoldable pub show_i64 : ℕ → String
unfolding truncate show
show_i64 v = if leb (2 ^ 63) v then "-" & show (truncate v) else show (truncate v)

-- A float's magnitude in units of 2 ^ -1074, of which every float is a whole number.
units : ℕ → ℕ
units v = if exponent v == 0 then abs v % 2 ^ 52 else significand v * 2 ^ (exponent v - 1)

-- `(found - expected).abs() > f64::EPSILON` for a finite `found` and a whole number `expected` from 1
-- to 2 ^ 53. The subtraction is exact where the two are near, and EPSILON is 2 ^ -52.
unfoldable pub is_far : Number → ℕ → Bool
unfolding units
is_far (unsigned u) expected = not (u == expected)
is_far (negative n) expected = true
is_far (float v) expected =
    leb (2 ^ 63) v
    || ltb (2 ^ 1022) (units v - expected * 2 ^ 1074)
    || ltb (2 ^ 1022) (expected * 2 ^ 1074 - units v)

is_far_test :
    (is_far (float 0x4057800000000000) 94 ≡ false)
    × (is_far (float 0x4057800000000001) 94 ≡ true)
    × (is_far (float 0x3ff0000000000000) 1 ≡ false)
    × (is_far (float 0x3feffffffffffffe) 1 ≡ false)
    × (is_far (float 0x3feffffffffffffd) 1 ≡ true)
unfolding is_far
is_far_test = (refl, refl, refl, refl, refl)

floats_test :
    (show_i64 0x3ff0000000000000 ≡ "1")
    × (show_i64 0xc008000000000000 ≡ "-3")
    × (is_whole 0x4029000000000000 ≡ false)
unfolding show_i64 is_whole
floats_test = (refl, refl, refl)
