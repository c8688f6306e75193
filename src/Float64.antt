-- ===== src/Float64.antt =====
-- `f64` by its 64 bits, with the comparisons of IEEE 754: a NaN is below, above and equal to
-- nothing, and the two zeros are equal. The arithmetic on `f64` is a parameter.
pub mod Laws
use luck_editor.Prelude.{
  ℕ, ◌*◌, ◌^◌, ◌%◌, Bool, true, false, not, ◌&&◌, ◌||◌, ◌==◌, leb, ltb, if◌then◌else◌,
}

-- The sign bit, and the other 63 bits.
abbrev pub is_negative : ℕ → Bool
is_negative x = leb 0x8000_0000_0000_0000 x

abbrev pub magnitude : ℕ → ℕ
magnitude x = x % 0x8000_0000_0000_0000

unfoldable pub is_nan : ℕ → Bool
is_nan x = ltb 0x7ff0_0000_0000_0000 (magnitude x)

-- `is_finite`
unfoldable pub is_finite : ℕ → Bool
is_finite x = ltb (magnitude x) 0x7ff0_0000_0000_0000

abbrev pub is_zero : ℕ → Bool
is_zero x = magnitude x == 0

-- The order of the numbers, NaN aside.
unfoldable pub number_le : ℕ → ℕ → Bool
number_le x y =
    if is_negative x
    then (if is_negative y then leb (magnitude y) (magnitude x) else true)
    else if is_negative y
    then is_zero x && is_zero y
    else leb (magnitude x) (magnitude y)

-- `x <= y`, `x == y`, `x < y` on `f64`
unfoldable pub f64_le : ℕ → ℕ → Bool
unfolding is_nan number_le
f64_le x y = not (is_nan x) && not (is_nan y) && number_le x y

unfoldable pub f64_eq : ℕ → ℕ → Bool
unfolding is_nan
f64_eq x y = not (is_nan x) && not (is_nan y) && (x == y || (is_zero x && is_zero y))

unfoldable pub f64_lt : ℕ → ℕ → Bool
unfolding f64_le f64_eq
f64_lt x y = f64_le x y && not (f64_eq x y)
