-- ===== src/Binary/Encode.antt =====
-- What the encoder writes, as one list for each part.
use luck_editor.Prelude.{
  ℕ, ◌≤◌, List, [], ◌∷◌, ◌++◌, Option, none, some, ◌≡◌, refl, length, unwrap_or, le→ltb_false, ap,
  ◌∙◌, append_assoc, append-nil, All, sym,
}
use luck_editor.OrdMap.{OrdMap}
use luck_editor.Text.{Text, len}
use luck_editor.Errors.{ok, ◌>>=◌}
use luck_editor.Model.{Cookie, CookieCollection}
use luck_editor.Binary.Writer.{
  u32_max, put_string, put_metadata, encode_cookie, encode_cookies, expiration_bytes, frame,
  encode_binary,
}
use luck_editor.Binary.Codec.{BinaryLimits}
use luck_editor.Binary.Strings.{string_bytes}
use luck_editor.Binary.Metadata.{EntriesFit, metadata_bytes}
use luck_editor.Binary.Entries.{Encodable, cookie_bytes, expiration_tag, expiration_tail}

put_string-ok :
    (w : List ℕ) (t : Text) → len t ≤ u32_max → put_string w t ≡ ok (w ++ string_bytes t)
unfolding put_string string_bytes
put_string-ok w t h = rw (le→ltb_false u32_max (len t) h)

put_metadata-ok :
    (limits : BinaryLimits) (w : List ℕ) (m : OrdMap Text Text)
    → EntriesFit limits m
    → put_metadata w m ≡ ok (w ++ metadata_bytes m)
unfolding put_metadata metadata_bytes
put_metadata-ok limits w [] h = ap ok (sym (append-nil w))
put_metadata-ok limits w ((k, v) ∷ m) (((tk, lk, uk), (tv, lv, uv)), hs) =
    ap (λ x. x >>= λ a. put_string a v >>= λ b. put_metadata b m) (put_string-ok w k uk)
    ∙ ap (λ x. x >>= λ b. put_metadata b m) (put_string-ok (w ++ string_bytes k) v uv)
    ∙ put_metadata-ok limits ((w ++ string_bytes k) ++ string_bytes v) m hs
    ∙ ap ok (
        append_assoc (w ++ string_bytes k) (string_bytes v) (metadata_bytes m)
        ∙ append_assoc w (string_bytes k) (string_bytes v ++ metadata_bytes m))

expiration_parts :
    (e : Option ℕ) → expiration_bytes e ≡ (expiration_tag e ∷ []) ++ expiration_tail e
expiration_parts none = refl
expiration_parts (some x) = refl

encode_cookie-ok :
    (limits : BinaryLimits) (w : List ℕ) (c : Cookie)
    → Encodable limits c
    → encode_cookie w c ≡ ok (w ++ cookie_bytes c)
unfolding encode_cookie cookie_bytes
encode_cookie-ok limits w c h =
    rw
      (
        put_string-ok _ c.name h.name.2,
        put_string-ok _ c.value h.value.2,
        put_string-ok _ c.domain h.domain.2,
        put_string-ok _ c.path h.path.2,
        put_string-ok _ (unwrap_or c.store_id []) h.store_id.2,
        put_string-ok _ (unwrap_or c.partition_site []) h.partition_site.2,
        le→ltb_false u32_max (length c.metadata) h.countable,
        put_metadata-ok limits _ c.metadata h.entries,
        expiration_parts,
      )
      (ap ok (simp append_assoc))

-- The cookies one behind the other.
unfoldable pub cookies_bytes : CookieCollection → List ℕ
cookies_bytes [] = []
cookies_bytes (c ∷ cs) = cookie_bytes c ++ cookies_bytes cs

encode_cookies-ok :
    (limits : BinaryLimits) (w : List ℕ) (cs : CookieCollection)
    → All (Encodable limits) cs
    → encode_cookies w cs ≡ ok (w ++ cookies_bytes cs)
unfolding encode_cookies cookies_bytes
encode_cookies-ok limits w [] h = ap ok (sym (append-nil w))
encode_cookies-ok limits w (c ∷ cs) (h, hs) =
    ap (λ x. x >>= λ a. encode_cookies a cs) (encode_cookie-ok limits w c h)
    ∙ encode_cookies-ok limits (w ++ cookie_bytes c) cs hs
    ∙ ap ok (append_assoc w (cookie_bytes c) (cookies_bytes cs))

-- A collection of cookies that the format can hold is encoded.
pub encode_binary-ok :
    (limits : BinaryLimits) (cs : CookieCollection)
    → length cs ≤ u32_max
    → All (Encodable limits) cs
    → encode_binary cs ≡ ok (frame (length cs) (cookies_bytes cs))
unfolding encode_binary
encode_binary-ok limits cs l h =
    rw (le→ltb_false u32_max (length cs) l, encode_cookies-ok limits [] cs h)
