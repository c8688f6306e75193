-- ===== src/Binary/Codec.antt =====
-- The decoder.
use luck_editor.Prelude.{
  ℕ, zero, suc, ◌*◌, List, [], ◌∷◌, Bool, not, if◌then◌else◌, Option, none, some, ltb, ◌==◌, length,
  bit_and, is_empty, ◌=?◌, list_ord, nat_ord,
}
use luck_editor.OrdMap.{OrdMap, insert, contains_key}
use luck_editor.Text.{Text}
use luck_editor.Errors.{Result, ok, err, LuckError, lit, num, debug, msg}
use luck_editor.Model.{Cookie, SameSite, CookieCollection}
use luck_editor.Binary.Writer.{
  magic, version, checksum64, flag_secure, flag_http_only, flag_session, flag_host_only,
}
use luck_editor.Binary.Reader.{
  Reader, M, pure, fail, ◌>>=◌, ◌>>◌, fail_if, remaining, take_bytes, read_int, read_string,
  usize_max,
}

pub record BinaryLimits : Type 0 where
  pub maximum_bytes : ℕ
  pub maximum_cookies : ℕ
  pub maximum_string_bytes : ℕ
  pub maximum_metadata_entries : ℕ

abbrev pub default_limits : BinaryLimits
default_limits = record {
  maximum_bytes = 16 * 1024 * 1024;
  maximum_cookies = 100_000;
  maximum_string_bytes = 2 * 1024 * 1024;
  maximum_metadata_entries = 1_024;
}

pub record BinaryHeader : Type 0 where
  pub version : ℕ
  pub cookie_count : ℕ
  pub payload_bytes : ℕ
  pub checksum : ℕ

pub record BinaryDecodeReport : Type 0 where
  pub header : BinaryHeader
  pub collection : CookieCollection
  pub trailing_bytes : ℕ

unfoldable pub optional_string : Text → Option Text
optional_string t = if is_empty t then none else some t

unfoldable pub same_site_of : ℕ → M SameSite
same_site_of tag =
    if tag == 0
    then pure SameSite.unspecified
    else if tag == 1
    then pure SameSite.none_site
    else if tag == 2
    then pure SameSite.lax
    else if tag == 3
    then pure SameSite.strict
    else fail (LuckError.invalid_argument (lit "invalid SameSite tag " ∷ num tag ∷ []))

unfoldable pub read_expiration : ℕ → M (Option ℕ)
unfolding read_int
read_expiration tag =
    if tag == 0
    then pure none
    else if tag == 1
    then (do bits ← read_int 8; pure (some bits))
    else fail (LuckError.invalid_argument (lit "invalid expiration tag " ∷ num tag ∷ []))

-- The loop over the entries: a key that is there already is an error.
unfoldable pub read_metadata : BinaryLimits → ℕ → OrdMap Text Text → M (OrdMap Text Text)
unfolding read_string
read_metadata limits zero m = pure m
read_metadata limits (suc n) m = do
  k ← read_string limits.maximum_string_bytes
  v ← read_string limits.maximum_string_bytes
  fail_if (contains_key k m)
      (LuckError.invalid_argument (lit "duplicate metadata key " ∷ debug k ∷ []))
  read_metadata limits n (insert k v m)

abbrev pub has_flag : ℕ → ℕ → Bool
has_flag flags flag = not (bit_and flags flag == 0)

unfoldable pub decode_cookie : BinaryLimits → M Cookie
unfolding read_string read_int same_site_of read_expiration read_metadata optional_string
decode_cookie limits = do
  name ← read_string limits.maximum_string_bytes
  value ← read_string limits.maximum_string_bytes
  domain ← read_string limits.maximum_string_bytes
  path ← read_string limits.maximum_string_bytes
  store_id ← read_string limits.maximum_string_bytes
  partition_site ← read_string limits.maximum_string_bytes
  flags ← read_int 2
  tag ← read_int 1
  same_site ← same_site_of tag
  expiration_tag ← read_int 1
  expiration_date ← read_expiration expiration_tag
  count ← read_int 4
  fail_if (ltb limits.maximum_metadata_entries count) (
      LuckError.invalid_argument (
        lit "metadata entry count "
        ∷ num count
        ∷ lit " exceeds limit "
        ∷ num limits.maximum_metadata_entries
        ∷ []))
  metadata ← read_metadata limits count []
  pure (record {
    name = name;
    value = value;
    domain = domain;
    path = path;
    secure = has_flag flags flag_secure;
    http_only = has_flag flags flag_http_only;
    same_site = same_site;
    expiration_date = expiration_date;
    session = has_flag flags flag_session;
    host_only = has_flag flags flag_host_only;
    store_id = optional_string store_id;
    partition_site = optional_string partition_site;
    metadata = metadata;
  })

unfoldable pub decode_cookies : BinaryLimits → ℕ → M CookieCollection
unfolding decode_cookie
decode_cookies limits zero = pure []
decode_cookies limits (suc n) = do
  c ← decode_cookie limits
  cs ← decode_cookies limits n
  pure (c ∷ cs)

abbrev pub reader : List ℕ → Reader
reader input = record { input = input; position = 0 }

-- The cookies of a payload; bytes left over are an error.
unfoldable pub decode_payload : BinaryLimits → ℕ → List ℕ → Result CookieCollection
unfolding decode_cookies remaining
decode_payload limits count payload = elim (decode_cookies limits count (reader payload)) [
  | err e ↦ err e
  | ok (cs, r) ↦
      if not (remaining r == 0)
      then err (
          LuckError.invalid_argument
            (lit "binary payload contains " ∷ num (remaining r) ∷ lit " unconsumed bytes" ∷ []))
      else ok cs
]

-- The header with its checks, and the payload that it frames. The casts of the counts back to
-- the widths that they were read at change nothing.
unfoldable pub read_frame : BinaryLimits → M (BinaryHeader × List ℕ)
unfolding take_bytes read_int remaining checksum64
read_frame limits = do
  found ← take_bytes 8
  fail_if (not (found =? magic))
      (LuckError.invalid_argument (msg "binary cookie file has invalid magic"))
  v ← read_int 2
  fail_if (not (v == version))
      (LuckError.invalid_argument (lit "unsupported binary cookie version " ∷ num v ∷ []))
  reserved ← read_int 2
  fail_if (not (reserved == 0))
      (LuckError.invalid_argument (msg "binary cookie header reserved bits are non-zero"))
  count ← read_int 4
  fail_if (ltb limits.maximum_cookies count)
      (LuckError.too_many_cookies count limits.maximum_cookies)
  payload_bytes ← read_int 8
  fail_if (ltb usize_max payload_bytes)
      (LuckError.invalid_argument (msg "payload length does not fit this platform"))
  checksum ← read_int 8
  left ← λ r. ok (remaining r, r)
  fail_if (ltb left payload_bytes)
      (LuckError.invalid_argument (msg "binary payload length exceeds input"))
  payload ← take_bytes payload_bytes
  fail_if (not (checksum64 payload == checksum))
      (LuckError.validation (msg "binary payload checksum mismatch"))
  pure (
    record {
      version = v;
      cookie_count = count;
      payload_bytes = payload_bytes;
      checksum = checksum;
    },
    payload,
  )

unfoldable pub decode_binary : List ℕ → BinaryLimits → Result BinaryDecodeReport
unfolding read_frame decode_payload
decode_binary input limits =
    if ltb limits.maximum_bytes (length input)
    then err (LuckError.input_too_large (length input) limits.maximum_bytes)
    else elim (read_frame limits (reader input)) [
      | err e ↦ err e
      | ok ((header, payload), r) ↦ elim (decode_payload limits header.cookie_count payload) [
        | err e ↦ err e
        | ok cs ↦ ok (record { header = header; collection = cs; trailing_bytes = remaining r })
      ]
    ]
