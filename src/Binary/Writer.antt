-- ===== src/Binary/Writer.antt =====
-- `Writer`, `checksum64` and the encoder. The writer is the list of the bytes written so far.
use luck_editor.Prelude.{
  ℕ, zero, suc, ◌*◌, ◌%◌, ◌/◌, ◌^◌, List, [], ◌∷◌, ◌++◌, Bool, if◌then◌else◌, Option, none, some,
  ltb, length, bit_or, bit_xor, unwrap_or,
}
use luck_editor.OrdMap.{OrdMap}
use luck_editor.Text.{Text, len}
use luck_editor.Text.Utf8.{as_bytes}
use luck_editor.Errors.{Result, ok, err, ◌>>=◌, LuckError, msg}
use luck_editor.Model.{Cookie, SameSite, CookieCollection}

-- "LUCKCK01"
abbrev pub magic : List ℕ
magic = b'L' ∷ b'U' ∷ b'C' ∷ b'K' ∷ b'C' ∷ b'K' ∷ b'0' ∷ b'1' ∷ []

abbrev pub version : ℕ
version = 1

abbrev pub flag_secure : ℕ
flag_secure = 1

abbrev pub flag_http_only : ℕ
flag_http_only = 2

abbrev pub flag_session : ℕ
flag_session = 4

abbrev pub flag_host_only : ℕ
flag_host_only = 8

abbrev pub u32_max : ℕ
u32_max = 0xffff_ffff

-- `to_le_bytes` of an integer of so many bytes
unfoldable pub to_le_bytes : ℕ → ℕ → List ℕ
to_le_bytes zero n = []
to_le_bytes (suc w) n = n % 256 ∷ to_le_bytes w (n / 256)

-- One round of the FNV-1a hash, with `wrapping_mul`.
abbrev pub checksum_step : ℕ → ℕ → ℕ
checksum_step hash byte = bit_xor hash byte * 0x100_0000_01b3 % 2 ^ 64

unfoldable pub checksum_from : ℕ → List ℕ → ℕ
checksum_from hash [] = hash
checksum_from hash (b ∷ bs) = checksum_from (checksum_step hash b) bs

unfoldable pub checksum64 : List ℕ → ℕ
unfolding checksum_from
checksum64 = checksum_from 0xcbf2_9ce4_8422_2325

-- `Writer::string`
unfoldable pub put_string : List ℕ → Text → Result (List ℕ)
unfolding to_le_bytes
put_string w t =
    if ltb u32_max (len t)
    then err (LuckError.serialization (msg "string is too large for binary format"))
    else ok (w ++ (to_le_bytes 4 (len t % 2 ^ 32) ++ as_bytes t))

abbrev pub flag_if : Bool → ℕ → ℕ
flag_if b f = if b then f else 0

unfoldable pub flags_of : Bool → Bool → Bool → Bool → ℕ
flags_of secure http_only session host_only =
    bit_or
      (bit_or (bit_or (bit_or 0 (flag_if secure flag_secure)) (flag_if http_only flag_http_only))
        (flag_if session flag_session))
      (flag_if host_only flag_host_only)

abbrev pub same_site_tag : SameSite → ℕ
same_site_tag SameSite.unspecified = 0
same_site_tag SameSite.none_site = 1
same_site_tag SameSite.lax = 2
same_site_tag SameSite.strict = 3

-- An `f64` is written by its bits.
abbrev pub expiration_bytes : Option ℕ → List ℕ
expiration_bytes none = 0 ∷ []
expiration_bytes (some x) = 1 ∷ to_le_bytes 8 x

unfoldable pub put_metadata : List ℕ → OrdMap Text Text → Result (List ℕ)
unfolding put_string
put_metadata w [] = ok w
put_metadata w ((k, v) ∷ m) = do w1 ← put_string w k; w2 ← put_string w1 v; put_metadata w2 m

unfoldable pub encode_cookie : List ℕ → Cookie → Result (List ℕ)
unfolding put_string put_metadata flags_of
encode_cookie w c = do
  w1 ← put_string w c.name
  w2 ← put_string w1 c.value
  w3 ← put_string w2 c.domain
  w4 ← put_string w3 c.path
  w5 ← put_string w4 (unwrap_or c.store_id [])
  w6 ← put_string w5 (unwrap_or c.partition_site [])
  let w7 = w6 ++ to_le_bytes 2 (flags_of c.secure c.http_only c.session c.host_only)
  let w8 = w7 ++ (same_site_tag c.same_site ∷ [])
  let w9 = w8 ++ expiration_bytes c.expiration_date
  if ltb u32_max (length c.metadata)
      then err (LuckError.serialization (msg "too many metadata entries"))
      else put_metadata (w9 ++ to_le_bytes 4 (length c.metadata % 2 ^ 32)) c.metadata

unfoldable pub encode_cookies : List ℕ → CookieCollection → Result (List ℕ)
unfolding encode_cookie
encode_cookies w [] = ok w
encode_cookies w (c ∷ cs) = do w' ← encode_cookie w c; encode_cookies w' cs

-- The header, and the payload behind it.
unfoldable pub frame : ℕ → List ℕ → List ℕ
unfolding checksum64
frame count payload =
    magic
    ++ (to_le_bytes 2 version
        ++ (to_le_bytes 2 0
            ++ (to_le_bytes 4 (count % 2 ^ 32)
                ++ (to_le_bytes 8 (length payload % 2 ^ 64)
                    ++ (to_le_bytes 8 (checksum64 payload) ++ payload)))))

unfoldable pub encode_binary : CookieCollection → Result (List ℕ)
unfolding encode_cookies frame
encode_binary cs =
    if ltb u32_max (length cs)
    then err (LuckError.too_many_cookies (length cs) u32_max)
    else (do payload ← encode_cookies [] cs; ok (frame (length cs) payload))
