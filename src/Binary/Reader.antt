-- ===== src/Binary/Reader.antt =====
-- `Reader`: an input and a position in it. `usize` has 64 bits.
use luck_editor.Prelude.{
  ℕ, ◌+◌, ◌-◌, ◌*◌, List, [], ◌∷◌, Bool, true, false, if◌then◌else◌, Option, none, some, ltb,
  length, take, drop,
}
use luck_editor.Text.{Text}
use luck_editor.Text.Utf8.{from_utf8}
use luck_editor.Errors.{Result, ok, err, LuckError, lit, num, msg}

pub record Reader : Type 0 where
  pub input : List ℕ
  pub position : ℕ

abbrev pub usize_max : ℕ
usize_max = 0xffff_ffff_ffff_ffff

-- A method that reads: the value and the reader behind it, or an error.
abbrev pub M : Type 0 → Type 0
M A = Reader → Result (A × Reader)

abbrev pub pure : {A : Type 0} → A → M A
pure a r = ok (a, r)

abbrev pub fail : {A : Type 0} → LuckError → M A
fail e r = err e

abbrev pub continue : {A B : Type 0} → Result (A × Reader) → (A → M B) → Result (B × Reader)
continue (ok (a, r)) f = f a r
continue (err e) f = err e

-- `?` on what `p` returns
infixl 5 ◌>>=◌
abbrev pub ◌>>=◌ : {A B : Type 0} → M A → (A → M B) → M B
(p >>= next) r = continue (p r) next

infixl 5 ◌>>◌
abbrev pub ◌>>◌ : {B : Type 0} → M (Unit {0}) → M B → M B
m >> k = m >>= λ _. k

-- `if test { return Err(error) }`
abbrev pub fail_if : Bool → LuckError → M (Unit {0})
fail_if true e = fail e
fail_if false e = pure tt

unfoldable pub remaining : Reader → ℕ
remaining r = length r.input - r.position

-- `Reader::take`
unfoldable pub take_bytes : ℕ → M (List ℕ)
take_bytes n r =
    if ltb usize_max (r.position + n)
    then err (LuckError.invalid_argument (msg "binary position overflow"))
    else if ltb (length r.input) (r.position + n)
    then err (
        LuckError.invalid_argument
          (lit "unexpected end of binary input at byte " ∷ num r.position ∷ []))
    else ok (take n (drop r.position r.input), record r { position = r.position + n })

-- `from_le_bytes`
unfoldable pub from_le_bytes : List ℕ → ℕ
from_le_bytes [] = 0
from_le_bytes (b ∷ bs) = b + 256 * from_le_bytes bs

-- `u8`, `u16`, `u32`, `u64` and `f64` (by its bits) at 1, 2, 4, 8 and 8 bytes.
unfoldable pub read_int : ℕ → M ℕ
unfolding take_bytes from_le_bytes
read_int width = do bytes ← take_bytes width; pure (from_le_bytes bytes)

abbrev pub or_invalid : Option Text → M Text
or_invalid (some t) = pure t
or_invalid none = fail (LuckError.invalid_argument (msg "binary string is not valid UTF-8"))

unfoldable pub read_string : ℕ → M Text
unfolding read_int take_bytes
read_string maximum = do
  length ← read_int 4
  fail_if (ltb maximum length) (
      LuckError.invalid_argument
        (lit "binary string length " ∷ num length ∷ lit " exceeds limit " ∷ num maximum ∷ []))
  bytes ← take_bytes length
  or_invalid (from_utf8 bytes)
