-- ===== src/Text/Utf8.antt =====
-- `str::as_bytes` and `String::from_utf8`: the UTF-8 form of a text.
pub mod RoundTrip
use luck_editor.Prelude.{
  ℕ, ◌+◌, ◌-◌, ◌*◌, ◌/◌, ◌%◌, ◌<◌, ◌≤◌, List, [], ◌∷◌, ◌++◌, Bool, true, false, ◌&&◌, ◌||◌, ◌==◌,
  leb, ltb, if◌then◌else◌, Option, none, some, ◌≡◌, refl, arith, All, length, ◌⊎◌, ap, inl, inr,
  Bool-cases,
}
use luck_editor.Text.Defs.{Text, len, len_utf8}

unfoldable pub encode_char : ℕ → List ℕ
encode_char c =
    if ltb c 0x80
    then c ∷ []
    else if ltb c 0x800
    then (192 + c / 64) ∷ (128 + c % 64) ∷ []
    else if ltb c 0x10000
    then (224 + c / 4096) ∷ (128 + c / 64 % 64) ∷ (128 + c % 64) ∷ []
    else (240 + c / 262144) ∷ (128 + c / 4096 % 64) ∷ (128 + c / 64 % 64) ∷ (128 + c % 64) ∷ []

unfoldable pub as_bytes : Text → List ℕ
unfolding encode_char
as_bytes [] = []
as_bytes (c ∷ t) = encode_char c ++ as_bytes t

-- A Unicode scalar value: no surrogate, and below 0x110000.
unfoldable pub is_scalar : ℕ → Bool
is_scalar c = ltb c 0xd800 || (leb 0xe000 c && ltb c 0x110000)

unfoldable pub is_continuation : ℕ → Bool
is_continuation b = leb 128 b && ltb b 192

abbrev pub push : ℕ → Option Text → Option Text
push c none = none
push c (some t) = some (c ∷ t)

-- The value of two, three and four bytes; `none` where they are no shortest form of a scalar value.
unfoldable pub decode_two : ℕ → ℕ → Option ℕ
unfolding is_continuation
decode_two a b = if leb 194 a && is_continuation b then some ((a - 192) * 64 + (b - 128)) else none

unfoldable pub decode_three : ℕ → ℕ → ℕ → Option ℕ
unfolding is_continuation is_scalar
decode_three a b c =
    let v = (a - 224) * 4096 + (b - 128) * 64 + (c - 128) in
    if is_continuation b && is_continuation c && leb 0x800 v && is_scalar v then some v else none

unfoldable pub decode_four : ℕ → ℕ → ℕ → ℕ → Option ℕ
unfolding is_continuation is_scalar
decode_four a b c d =
    let v = (a - 240) * 262144 + (b - 128) * 4096 + (c - 128) * 64 + (d - 128) in
    if ltb a 248
      && is_continuation b
      && is_continuation c
      && is_continuation d
      && leb 0x10000 v
      && is_scalar v
    then some v
    else none

abbrev pub push? : Option ℕ → Option Text → Option Text
push? none t = none
push? (some c) t = push c t

unfoldable pub from_utf8 : List ℕ → Option Text
unfolding decode_two decode_three decode_four
from_utf8 [] = some []
from_utf8 (a ∷ []) = if ltb a 0x80 then some (a ∷ []) else none
from_utf8 (a ∷ b ∷ []) =
    let one = push a (from_utf8 (b ∷ [])) in
    if ltb a 0x80 then one else if ltb a 224 then push? (decode_two a b) (some []) else none
from_utf8 (a ∷ b ∷ c ∷ []) =
    let one = push a (from_utf8 (b ∷ c ∷ [])) in
    let two = push? (decode_two a b) (from_utf8 (c ∷ [])) in
    if ltb a 0x80
    then one
    else if ltb a 224
    then two
    else if ltb a 240
    then push? (decode_three a b c) (some [])
    else none
from_utf8 (a ∷ b ∷ c ∷ d ∷ r) =
    let one = push a (from_utf8 (b ∷ c ∷ d ∷ r)) in
    let two = push? (decode_two a b) (from_utf8 (c ∷ d ∷ r)) in
    let three = push? (decode_three a b c) (from_utf8 (d ∷ r)) in
    let four = push? (decode_four a b c d) (from_utf8 r) in
    if ltb a 0x80 then one else if ltb a 224 then two else if ltb a 240 then three else four
