-- ===== src/Redact.antt =====
-- rust/crates/luck-core/src/redact.rs: `Redactor`, which hides the values of cookies.
pub mod Hiding
use luck_editor.Prelude.{
  ℕ, zero, suc, ◌+◌, ◌-◌, ◌*◌, ◌/◌, ◌%◌, ◌^◌, List, [], ◌∷◌, ◌++◌, Bool, true, false, if◌then◌else◌,
  is_empty, leb, ltb, length, take, drop, replicate, min, max, map, foldl, bit_xor,
}
use luck_editor.Text.{Text, txt}
use luck_editor.Text.Utf8.{as_bytes}
use luck_editor.Model.{Cookie, CookieCollection}

pub data RedactionMode : Type 0 where
  full keep_edges hash_like empty : RedactionMode

pub record Redactor : Type 0 where
  pub mode : RedactionMode
  pub visible_edge_characters : ℕ
  pub replacement : ℕ

-- The replacement is a bullet.
abbrev pub default_redactor : Redactor
default_redactor = record {
  mode = RedactionMode.keep_edges;
  visible_edge_characters = 3;
  replacement = 0x2022;
}

abbrev pub usize_max : ℕ
usize_max = 0xffff_ffff_ffff_ffff

-- The function `keep_edges`; where the product saturates no text is longer.
unfoldable pub edges : Text → ℕ → ℕ → Text
edges value visible replacement =
    if is_empty value
    then txt "(empty)"
    else if leb (length value) (min (visible * 2) usize_max)
    then replicate (max (length value) 4) replacement
    else take visible value
      ++ (replicate (min (length value - visible * 2) 64) replacement
          ++ drop (length value - visible) value)

-- A digit of `{:x}`.
abbrev pub hex_digit : ℕ → ℕ
hex_digit n = if ltb n 10 then b'0' + n else b'a' + (n - 10)

-- `{:016x}`, for so many digits, the first one first.
unfoldable pub hex : ℕ → ℕ → Text
hex zero n = []
hex (suc w) n = hex w (n / 16) ++ (hex_digit (n % 16) ∷ [])

-- A round of the loop, with `wrapping_mul`.
abbrev pub hash_step : ℕ → ℕ → ℕ
hash_step hash byte = bit_xor hash byte * 0x100_0000_01b3 % 2 ^ 64

-- The function `hash_like`.
unfoldable pub hashed : Text → Text
unfolding hex
hashed value = txt "redacted-" ++ hex 16 (foldl hash_step 0xcbf2_9ce4_8422_2325 (as_bytes value))

unfoldable pub redact_value : Redactor → Text → Text
unfolding edges hashed
redact_value r value = elim (r.mode) [
  | full ↦ replicate (min (max (length value) 4) 64) r.replacement
  | empty ↦ []
  | keep_edges ↦ edges value r.visible_edge_characters r.replacement
  | hash_like ↦ hashed value
]

unfoldable pub redact_cookie : Redactor → Cookie → Cookie
unfolding redact_value
redact_cookie r c = record c { value = redact_value r c.value }

unfoldable pub redact_collection : Redactor → CookieCollection → CookieCollection
unfolding redact_cookie
redact_collection r = map (redact_cookie r)
