-- ===== src/Statistics/Arithmetic.antt =====
-- The arithmetic on `f64` that the statistics use, as a parameter. A number stands for its 64 bits.
use luck_editor.Prelude.{ℕ, ◌+◌, ◌-◌, List, Ordering, if◌then◌else◌, ordering, nat_ord}
use luck_editor.Float64.{is_negative}

pub record Floats : Type 0 where
  -- `a as f64`, `a as f64 / b as f64`, `a as f64 / 2.0`
  pub of_usize : ℕ → ℕ
  pub quotient : ℕ → ℕ → ℕ
  pub half : ℕ → ℕ
  -- `(expiry - now).max(0.0)`, `value / 86_400.0`, `(a + b) / 2.0`
  pub seconds_left : ℕ → ℕ → ℕ
  pub to_days : ℕ → ℕ
  pub middle_of : ℕ → ℕ → ℕ
  -- `days.iter().sum::<f64>() / days.len() as f64`
  pub mean : List ℕ → ℕ

-- `total_cmp`: a negative number is before a positive one, and the greater its magnitude the earlier.
abbrev pub total_key : ℕ → ℕ
total_key x = if is_negative x then 0xffff_ffff_ffff_ffff - x else x + 0x8000_0000_0000_0000

abbrev pub total_cmp : ℕ → ℕ → Ordering
total_cmp x y = ordering (total_key x) (total_key y)
