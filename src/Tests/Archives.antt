-- ===== src/Tests/Archives.antt =====
-- The binary archive at a concrete collection.
use luck_editor.Prelude.{ℕ, List, [], ◌∷◌, ◌≡◌, refl, arith, length, map}
use luck_editor.Text.{len, len_utf8}
use luck_editor.Text.Utf8.{as_bytes, encode_char, is_scalar}
use luck_editor.Errors.{ok, err, LuckError, lit, num}
use luck_editor.Model.{CookieCollection}
use luck_editor.Binary.{
  BinaryDecodeReport, default_limits, encode_binary, decode_binary, frame, to_le_bytes,
}
use luck_editor.Binary.Strings.{string_bytes}
use luck_editor.Binary.Metadata.{metadata_bytes}
use luck_editor.Binary.Entries.{Encodable, normalized, cookie_bytes}
use luck_editor.Binary.Encode.{cookies_bytes, encode_binary-ok}
use luck_editor.Binary.RoundTrip.{decode_binary-encode_binary}
use luck_editor.Tests.Data.{sid}

abbrev archived : CookieCollection
archived = sid ∷ []

abbrev bytes : List ℕ
bytes = frame 1 (cookies_bytes archived)

encodable : Encodable default_limits sid
unfolding len len_utf8 is_scalar
encodable = record {
  name = ((refl, (refl, (refl, tt))), omega arith, omega arith);
  value = ((refl, tt), omega arith, omega arith);
  domain = (
    (
      refl,
      (refl, (refl, (refl, (refl, (refl, (refl, (refl, (refl, (refl, (refl, (refl, tt))))))))))),
    ),
    omega arith,
    omega arith,
  );
  path = ((refl, (refl, tt)), omega arith, omega arith);
  store_id = (tt, omega arith, omega arith);
  partition_site = ((refl, tt), omega arith, omega arith);
  expiration = omega arith;
  entries = ((((refl, tt), omega arith, omega arith), ((refl, tt), omega arith, omega arith)), tt);
  ordered = (tt, tt);
  counted = omega arith;
  countable = omega arith;
}

written : encode_binary archived ≡ ok bytes
written = encode_binary-ok default_limits archived (omega arith) (encodable, tt)

size : length bytes ≡ 93
unfolding frame cookies_bytes cookie_bytes string_bytes metadata_bytes to_le_bytes as_bytes
    encode_char
size = refl

decode_binary-encode_binary_example :
    (report : BinaryDecodeReport) × (decode_binary bytes default_limits ≡ ok report)
    × (report.collection ≡ map normalized archived)
    × (report.header.cookie_count ≡ length archived)
    × (report.trailing_bytes ≡ 0)
decode_binary-encode_binary_example =
    decode_binary-encode_binary default_limits archived bytes (omega arith) (omega arith)
      (encodable, tt) written (omega (arith, size)) (omega (arith, size))

-- No header is read from nothing.
short :
    decode_binary [] default_limits
    ≡ err (LuckError.invalid_argument (lit "unexpected end of binary input at byte " ∷ num 0 ∷ []))
unfolding decode_binary
short = refl
