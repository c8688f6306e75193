-- ===== src/Platform.antt =====
-- The functions of the standard library on addresses, and on the numbers that the program computes
-- with as `f64` and `i64`, as parameters: a `Platform` holds one of each. A number of either type
-- stands for its 64 bits.
use luck_editor.Prelude.{ℕ, Bool, Option}
use luck_editor.Text.{Text}
use luck_editor.Statistics.{Floats}

pub record Platform : Type 0 where
  -- `parse::<Ipv4Addr>().is_ok()` and `parse::<Ipv6Addr>().is_ok()`
  pub is_ipv4 : Text → Bool
  pub is_ipv6 : Text → Bool
  -- `now + days as f64 * 86_400.0`
  pub add_days : ℕ → ℕ → ℕ
  -- `parse::<f64>().ok()` and `parse::<i64>().ok()`
  pub parse_f64 : Text → Option ℕ
  pub parse_i64 : Text → Option ℕ
  -- `now + seconds as f64`
  pub add_seconds : ℕ → ℕ → ℕ
  -- `floor() as i64`, and `(expiration - now).max(0.0).floor() as i64`, as they are printed
  pub print_floor : ℕ → Text
  pub print_lifetime : ℕ → ℕ → Text
  -- The arithmetic of the statistics
  pub floats : Floats
