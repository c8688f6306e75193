-- ===== src/Binary/RoundTrip.antt =====
-- Decoding what the encoder wrote.
use luck_editor.Prelude.{
  ℕ, ◌^◌, ◌%◌, ◌≤◌, List, [], ◌∷◌, ◌++◌, not, ◌≡◌, refl, arith, length, ltb, ◌==◌, le→ltb_false, ap,
  append-nil, All, sym, map, length-append, subst, ==_refl, ◌=?◌, =?_refl, list_ord, nat_ord,
}
use luck_editor.Errors.{ok, LuckError, msg, lit, num}
use luck_editor.Model.{CookieCollection}
use luck_editor.Binary.Writer.{
  to_le_bytes, u32_max, magic, version, checksum64, frame, encode_binary,
}
use luck_editor.Binary.Reader.{
  Reader, M, pure, ◌>>=◌, ◌>>◌, fail_if, remaining, take_bytes, read_int, usize_max,
}
use luck_editor.Binary.Codec.{
  BinaryLimits, BinaryHeader, BinaryDecodeReport, decode_cookie, decode_cookies, decode_payload,
  read_frame, decode_binary, reader,
}
use luck_editor.Binary.Little.{checksum64-lt}
use luck_editor.Binary.Strings.{
  IsAt, Reads, Reads-pure, Reads-bind, Reads-last, Reads-fail_if, Reads-take_bytes, Reads-read_int,
}
use luck_editor.Binary.Entries.{Encodable, normalized, cookie_bytes, Reads-decode_cookie}
use luck_editor.Binary.Encode.{cookies_bytes, encode_binary-ok}

Reads-decode_cookies :
    (limits : BinaryLimits) (cs : CookieCollection)
    → All (Encodable limits) cs
    → Reads (decode_cookies limits (length cs)) (cookies_bytes cs) (map normalized cs)
unfolding decode_cookies cookies_bytes
Reads-decode_cookies limits [] h = Reads-pure []
Reads-decode_cookies limits (c ∷ cs) (h, hs) =
    Reads-bind (decode_cookie limits) _ (cookie_bytes c) (cookies_bytes cs) (normalized c) _
      (Reads-decode_cookie limits c h)
      (Reads-last (decode_cookies limits (length cs)) (λ x. normalized c ∷ x) (cookies_bytes cs)
        (map normalized cs) _ (Reads-decode_cookies limits cs hs) refl)

IsAt-start : (bs : List ℕ) → length bs ≤ usize_max → IsAt (reader bs) (bs ++ [])
IsAt-start bs h = record {
  front = sym (append-nil bs);
  reach = omega (arith, ap length (append-nil bs));
  fits = h;
}

remaining-zero : (r : Reader) → IsAt r [] → remaining r ≡ 0
unfolding remaining
remaining-zero r a = omega (arith, a.reach)

pub decode_payload-ok :
    (limits : BinaryLimits) (cs : CookieCollection)
    → All (Encodable limits) cs
    → length (cookies_bytes cs) ≤ usize_max
    → decode_payload limits (length cs) (cookies_bytes cs) ≡ ok (map normalized cs)
unfolding decode_payload
decode_payload-ok limits cs h fits =
    let bs = cookies_bytes cs in
    let (r, e, at_) = (Reads-decode_cookies limits cs h).run (reader bs) [] (IsAt-start bs fits) in
    rw (e, decode_payload, remaining-zero r at_)

-- The bytes left are at least those that stand in front.
Reads-remaining :
    {B : Type 0} (f : ℕ → M B) (bs : List ℕ) (b : B)
    → ((n : ℕ) → length bs ≤ n → Reads (f n) bs b)
    → Reads ((λ r. ok (remaining r, r)) >>= f) bs b
unfolding remaining
Reads-remaining f bs b h = record {
  run = λ r rest a. (h (remaining r) (omega (arith, a.reach, length-append bs rest))).run r rest a;
}

abbrev bad_version : LuckError
bad_version =
    LuckError.invalid_argument (lit "unsupported binary cookie version " ∷ num version ∷ [])

abbrev bad_reserved : LuckError
bad_reserved = LuckError.invalid_argument (msg "binary cookie header reserved bits are non-zero")

abbrev too_long : LuckError
too_long = LuckError.invalid_argument (msg "binary payload length exceeds input")

abbrev mismatch : LuckError
mismatch = LuckError.validation (msg "binary payload checksum mismatch")

abbrev framed : ℕ → ℕ → List ℕ → BinaryHeader
framed v count payload = record {
  version = v;
  cookie_count = count;
  payload_bytes = length payload;
  checksum = checksum64 payload;
}

-- The end of `read_frame`: its tests of the payload, and the payload itself.
abbrev checked : ℕ → ℕ → List ℕ → List ℕ → M (BinaryHeader × List ℕ)
checked v count payload found = do
  fail_if (not (checksum64 found == checksum64 payload)) mismatch
  pure (framed v count payload, found)

abbrev payload_reader : ℕ → ℕ → List ℕ → ℕ → M (BinaryHeader × List ℕ)
payload_reader v count payload left = do
  fail_if (ltb left (length payload)) too_long
  found ← take_bytes (length payload)
  checked v count payload found

Reads-checked :
    (v count : ℕ) (payload : List ℕ)
    → Reads (checked v count payload payload) [] (framed v count payload, payload)
Reads-checked v count payload =
    Reads-fail_if (not (checksum64 payload == checksum64 payload)) mismatch
      (pure (framed v count payload, payload)) [] (framed v count payload, payload)
      (ap not (==_refl (checksum64 payload))) (Reads-pure (framed v count payload, payload))

Reads-payload :
    (v count : ℕ) (payload : List ℕ)
    → Reads
        ((λ r. ok (remaining r, r)) >>= payload_reader v count payload)
        payload
        (framed v count payload, payload)
Reads-payload v count payload =
    let size = length payload in
    let body = take_bytes size >>= checked v count payload in
    Reads-remaining (payload_reader v count payload) payload (framed v count payload, payload)
      (λ n enough.
        Reads-fail_if (ltb n size) too_long body payload (framed v count payload, payload)
          (le→ltb_false n size enough)
          (subst (λ bs. Reads body bs (framed v count payload, payload)) (append-nil payload)
            (Reads-bind (take_bytes size) (checked v count payload) payload [] payload
              (framed v count payload, payload) (Reads-take_bytes payload size refl)
              (Reads-checked v count payload))))

Reads-read_frame :
    (limits : BinaryLimits) (count : ℕ) (payload : List ℕ)
    → count ≤ u32_max
    → count ≤ limits.maximum_cookies
    → length payload ≤ usize_max
    → Reads (read_frame limits) (frame count payload) (framed version count payload, payload)
unfolding read_frame frame
Reads-read_frame limits count payload u m l =
    let size = length payload in
    let sum = checksum64 payload in
    rw
      (
        let e : count % 2 ^ 32 ≡ count = omega arith in e,
        let e : size % 2 ^ 64 ≡ size = omega arith in e,
      )
      (Reads-bind (take_bytes 8) _ magic _ magic _ (Reads-take_bytes magic 8 refl) (
        Reads-fail_if (not (magic =? magic)) _ _ _ _ (ap not (=?_refl magic)) (
          Reads-bind (read_int 2) _ (to_le_bytes 2 version) _ version _
            (Reads-read_int 2 version (omega arith))
            (Reads-fail_if (not (version == version)) bad_version _ _ _ refl (
              Reads-bind (read_int 2) _ (to_le_bytes 2 0) _ 0 _ (Reads-read_int 2 0 (omega arith)) (
                Reads-fail_if (not (0 == 0)) bad_reserved _ _ _ refl (
                  Reads-bind (read_int 4) _ (to_le_bytes 4 count) _ count _
                    (Reads-read_int 4 count (omega arith))
                    (Reads-fail_if (ltb limits.maximum_cookies count) _ _ _ _
                      (le→ltb_false limits.maximum_cookies count m)
                      (Reads-bind (read_int 8) _ (to_le_bytes 8 size) _ size _
                        (Reads-read_int 8 size (omega arith))
                        (Reads-fail_if (ltb usize_max size) _ _ _ _ (le→ltb_false usize_max size l)
                          (Reads-bind (read_int 8) _ (to_le_bytes 8 sum) payload sum _
                            (Reads-read_int 8 sum (checksum64-lt payload))
                            (Reads-payload (version) count payload))))))))))))

length-frame : (count : ℕ) (payload : List ℕ) → length payload ≤ length (frame count payload)
unfolding frame
length-frame count payload =
    let size = length payload in
    omega (
      arith,
      length-append (to_le_bytes 2 version) (
          to_le_bytes 2 0
          ++ (to_le_bytes 4 (count % 2 ^ 32)
              ++ (to_le_bytes 8 (size % 2 ^ 64)
                  ++ (to_le_bytes 8 (checksum64 payload) ++ payload)))),
      length-append (to_le_bytes 2 0) (
          to_le_bytes 4 (count % 2 ^ 32)
          ++ (to_le_bytes 8 (size % 2 ^ 64) ++ (to_le_bytes 8 (checksum64 payload) ++ payload))),
      length-append (to_le_bytes 4 (count % 2 ^ 32))
          (to_le_bytes 8 (size % 2 ^ 64) ++ (to_le_bytes 8 (checksum64 payload) ++ payload)),
      length-append (to_le_bytes 8 (size % 2 ^ 64)) (to_le_bytes 8 (checksum64 payload) ++ payload),
      length-append (to_le_bytes 8 (checksum64 payload)) payload,
    )

-- If the cookies fit the format and the limits, and their number the limit on cookies, then the
-- bytes that `encode_binary` writes, if no more than the limit and than `usize` counts, decode to
-- the same cookies in the same order, but that an empty optional string comes back as none; the
-- header counts them and no byte is left over.
pub decode_binary-encode_binary :
    (limits : BinaryLimits) (cs : CookieCollection) (bytes : List ℕ)
    → length cs ≤ u32_max
    → length cs ≤ limits.maximum_cookies
    → All (Encodable limits) cs
    → encode_binary cs ≡ ok bytes
    → length bytes ≤ limits.maximum_bytes
    → length bytes ≤ usize_max
    → (report : BinaryDecodeReport) × (decode_binary bytes limits ≡ ok report)
      × (report.collection ≡ map normalized cs)
      × (report.header.cookie_count ≡ length cs)
      × (report.trailing_bytes ≡ 0)
unfolding decode_binary
decode_binary-encode_binary limits cs bytes u m h e lb lu =
    let payload = cookies_bytes cs in
    let framed_ : bytes ≡ frame (length cs) payload =
      ground (arith, encode_binary-ok limits cs u h) in
    let fits : length payload ≤ usize_max =
      omega (arith, length-frame (length cs) payload, ap length framed_) in
    let (r, run, at_) =
      (Reads-read_frame limits (length cs) payload u m fits).run (reader bytes) []
        (subst (λ b. IsAt (reader bytes) (b ++ [])) framed_ (IsAt-start bytes lu)) in
    (
      record {
        header = framed version (length cs) payload;
        collection = map normalized cs;
        trailing_bytes = 0;
      },
      rw (
        le→ltb_false limits.maximum_bytes (length bytes) lb,
        run,
        decode_binary,
        decode_payload-ok limits cs h fits,
        remaining-zero r at_,
      ),
      refl,
      refl,
      refl,
    )
