-- ===== src/Text/Utf8/RoundTrip.antt =====
-- The UTF-8 form of a text reads back as the text, and is as long as `len` says.
use luck_editor.Prelude.{
  ℕ, ◌+◌, ◌/◌, ◌%◌, ◌<◌, ◌≤◌, List, [], ◌∷◌, ◌++◌, true, false, ltb, some, ◌≡◌, refl, arith, All,
  length, length-append, append_assoc,
}
use luck_editor.Text.Defs.{Text, len, len_utf8}
use luck_editor.Text.Utf8.{
  encode_char, as_bytes, is_scalar, push, push?, decode_two, decode_three, decode_four, from_utf8,
}

-- Every character of the text is a scalar value.
abbrev pub IsText : Text → Type 0
IsText = All (λ c. is_scalar c ≡ true)

pub length-encode_char : (c : ℕ) → length (encode_char c) ≡ len_utf8 c
unfolding encode_char len_utf8
length-encode_char c = ground arith

pub length-as_bytes : (t : Text) → length (as_bytes t) ≡ len t
unfolding as_bytes len
length-as_bytes [] = refl
length-as_bytes (c ∷ t) =
    omega
      (arith, length-append (encode_char c) (as_bytes t), length-encode_char c, length-as_bytes t)

pub as_bytes-append : (s t : Text) → as_bytes (s ++ t) ≡ as_bytes s ++ as_bytes t
unfolding as_bytes
as_bytes-append [] t = refl
as_bytes-append (c ∷ s) t = simp (as_bytes-append s t, append_assoc)

one_byte : (a : ℕ) (r : List ℕ) → ltb a 0x80 ≡ true → from_utf8 (a ∷ r) ≡ push a (from_utf8 r)
unfolding from_utf8
one_byte a [] h = ground arith
one_byte a (b ∷ []) h = ground arith
one_byte a (b ∷ c ∷ []) h = ground arith
one_byte a (b ∷ c ∷ d ∷ r) h = ground arith

two_bytes :
    (a b : ℕ) (r : List ℕ)
    → ltb a 0x80 ≡ false
    → ltb a 224 ≡ true
    → from_utf8 (a ∷ b ∷ r) ≡ push? (decode_two a b) (from_utf8 r)
unfolding from_utf8
two_bytes a b [] h k = ground arith
two_bytes a b (c ∷ []) h k = ground arith
two_bytes a b (c ∷ d ∷ r) h k = ground arith

three_bytes :
    (a b c : ℕ) (r : List ℕ)
    → ltb a 224 ≡ false
    → ltb a 240 ≡ true
    → from_utf8 (a ∷ b ∷ c ∷ r) ≡ push? (decode_three a b c) (from_utf8 r)
unfolding from_utf8
three_bytes a b c [] h k = ground arith
three_bytes a b c (d ∷ r) h k = ground arith

four_bytes :
    (a b c d : ℕ) (r : List ℕ)
    → ltb a 240 ≡ false
    → from_utf8 (a ∷ b ∷ c ∷ d ∷ r) ≡ push? (decode_four a b c d) (from_utf8 r)
unfolding from_utf8
four_bytes a b c d r h = ground arith

decode_two_lem : (c : ℕ) → 0x80 ≤ c → c < 0x800 → decode_two (192 + c / 64) (128 + c % 64) ≡ some c
unfolding decode_two
decode_two_lem c h k = ground arith

decode_three_lem :
    (c : ℕ)
    → 0x800 ≤ c
    → c < 0x10000
    → is_scalar c ≡ true
    → decode_three (224 + c / 4096) (128 + c / 64 % 64) (128 + c % 64) ≡ some c
unfolding decode_three
decode_three_lem c h k s = ground arith

decode_four_lem :
    (c : ℕ)
    → 0x10000 ≤ c
    → is_scalar c ≡ true
    → decode_four (240 + c / 262144) (128 + c / 4096 % 64) (128 + c / 64 % 64) (128 + c % 64)
      ≡ some c
unfolding decode_four
decode_four_lem c h s = ground arith

pub from_utf8-encode_char :
    (c : ℕ) (r : List ℕ)
    → is_scalar c ≡ true
    → from_utf8 (encode_char c ++ r) ≡ push c (from_utf8 r)
unfolding encode_char
from_utf8-encode_char c r s = ground (
  arith,
  one_byte c r,
  two_bytes (192 + c / 64) (128 + c % 64) r,
  three_bytes (224 + c / 4096) (128 + c / 64 % 64) (128 + c % 64) r,
  four_bytes (240 + c / 262144) (128 + c / 4096 % 64) (128 + c / 64 % 64) (128 + c % 64) r,
  decode_two_lem c,
  decode_three_lem c,
  decode_four_lem c,
)

-- Decoding the UTF-8 bytes of a text of scalar values returns the text.
pub from_utf8-as_bytes : (t : Text) → IsText t → from_utf8 (as_bytes t) ≡ some t
unfolding as_bytes
from_utf8-as_bytes [] h = unfold from_utf8 in refl
from_utf8-as_bytes (c ∷ t) (h, hs) =
    rw (from_utf8-encode_char c (as_bytes t) h, from_utf8-as_bytes t hs)
