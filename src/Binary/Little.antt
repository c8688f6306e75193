-- ===== src/Binary/Little.antt =====
-- Little-endian integers.
use luck_editor.Prelude.{ℕ, zero, suc, ◌/◌, ◌^◌, ◌<◌, List, [], ◌∷◌, ◌≡◌, refl, arith, length, ap}
use native.Mathlib.Nat.{pow-suc}
use luck_editor.Binary.Writer.{to_le_bytes, checksum64, checksum_from, checksum_step}
use luck_editor.Binary.Reader.{from_le_bytes}

pub length-to_le_bytes : (w n : ℕ) → length (to_le_bytes w n) ≡ w
unfolding to_le_bytes
length-to_le_bytes zero n = refl
length-to_le_bytes (suc w) n = ap suc (length-to_le_bytes w (n / 256))

quotient-lt : (w n : ℕ) → n < 256 ^ suc w → n / 256 < 256 ^ w
quotient-lt w n h = omega (arith, pow-suc 256 w)

-- An integer that fits its width reads back as itself.
pub from_le_bytes-to_le_bytes : (w n : ℕ) → n < 256 ^ w → from_le_bytes (to_le_bytes w n) ≡ n
unfolding to_le_bytes from_le_bytes
from_le_bytes-to_le_bytes zero n h = omega arith
from_le_bytes-to_le_bytes (suc w) n h =
    omega (arith, from_le_bytes-to_le_bytes w (n / 256) (quotient-lt w n h))

checksum_from-lt : (hash : ℕ) (bs : List ℕ) → hash < 2 ^ 64 → checksum_from hash bs < 2 ^ 64
unfolding checksum_from
checksum_from-lt hash [] h = h
checksum_from-lt hash (b ∷ bs) h = checksum_from-lt (checksum_step hash b) bs (omega arith)

-- The checksum is a 64-bit integer.
pub checksum64-lt : (bs : List ℕ) → checksum64 bs < 2 ^ 64
unfolding checksum64
checksum64-lt bs = checksum_from-lt 0xcbf2_9ce4_8422_2325 bs (omega arith)
