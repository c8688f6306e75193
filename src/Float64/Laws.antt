-- ===== src/Float64/Laws.antt =====
-- The comparisons of `f64` as relations.
use luck_editor.Prelude.{ℕ, true, false, ◌≡◌, arith}
use luck_editor.Float64.{is_nan, f64_eq}

pub f64_eq_refl : (x : ℕ) → is_nan x ≡ false → f64_eq x x ≡ true
unfolding f64_eq is_nan
f64_eq_refl x h = ground arith

pub f64_eq_comm : (x y : ℕ) → f64_eq x y ≡ f64_eq y x
unfolding f64_eq is_nan
f64_eq_comm x y = ground arith

pub f64_eq_trans : (x y z : ℕ) → f64_eq x y ≡ true → f64_eq y z ≡ true → f64_eq x z ≡ true
unfolding f64_eq is_nan
f64_eq_trans x y z h k = ground arith

pub f64_eq_nan : (x y : ℕ) → is_nan x ≡ true → f64_eq x y ≡ false
unfolding f64_eq
f64_eq_nan x y h = ground arith
