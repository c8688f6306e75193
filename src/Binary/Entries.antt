-- ===== src/Binary/Entries.antt =====
-- One cookie of the archive.
use luck_editor.Prelude.{
  ℕ, ◌^◌, ◌%◌, ◌<◌, ◌≤◌, List, [], ◌∷◌, ◌++◌, Bool, Option, none, some, ◌≡◌, refl, arith, length,
  unwrap_or, ltb, le→ltb_false, subst, append-nil, list_ord, nat_ord,
}
use luck_editor.OrdMap.Order.{IsSorted}
use luck_editor.Text.{Text}
use luck_editor.OrdMap.{OrdMap}
use luck_editor.Errors.{LuckError, lit, num}
use luck_editor.Model.{Cookie, SameSite}
use luck_editor.Binary.Writer.{
  to_le_bytes, u32_max, flags_of, same_site_tag, flag_secure, flag_http_only, flag_session,
  flag_host_only,
}
use luck_editor.Binary.Reader.{M, pure, ◌>>=◌, ◌>>◌, fail_if, read_string, read_int}
use luck_editor.Binary.Codec.{
  BinaryLimits, read_metadata, same_site_of, read_expiration, optional_string, has_flag,
  decode_cookie,
}
use luck_editor.Binary.Strings.{
  Reads, Reads-pure, Reads-bind, Reads-last, Reads-fail_if, Reads-read_string, Reads-read_int,
  string_bytes,
}
use luck_editor.Binary.Metadata.{Fits, EntriesFit, metadata_bytes, Reads-read_metadata}

-- A cookie that the limits and the format can hold.
pub record Encodable (limits : BinaryLimits) (c : Cookie) : Type 0 where
  pub name : Fits limits c.name
  pub value : Fits limits c.value
  pub domain : Fits limits c.domain
  pub path : Fits limits c.path
  pub store_id : Fits limits (unwrap_or c.store_id [])
  pub partition_site : Fits limits (unwrap_or c.partition_site [])
  pub expiration : unwrap_or c.expiration_date 0 < 2 ^ 64
  pub entries : EntriesFit limits c.metadata
  pub ordered : IsSorted c.metadata
  pub counted : length c.metadata ≤ limits.maximum_metadata_entries
  pub countable : length c.metadata ≤ u32_max

-- The archive does not tell an empty optional string from none.
unfoldable pub normalized : Cookie → Cookie
normalized c = record c {
  store_id = optional_string (unwrap_or c.store_id []);
  partition_site = optional_string (unwrap_or c.partition_site []);
}

abbrev pub flags : Cookie → ℕ
flags c = flags_of c.secure c.http_only c.session c.host_only

-- The bytes of an expiration, in two parts.
abbrev pub expiration_tag : Option ℕ → ℕ
expiration_tag none = 0
expiration_tag (some x) = 1

abbrev pub expiration_tail : Option ℕ → List ℕ
expiration_tail none = []
expiration_tail (some x) = to_le_bytes 8 x

-- What `encode_cookie` writes.
unfoldable pub cookie_bytes : Cookie → List ℕ
cookie_bytes c =
    string_bytes c.name
    ++ (string_bytes c.value
        ++ (string_bytes c.domain
            ++ (string_bytes c.path
                ++ (string_bytes (unwrap_or c.store_id [])
                    ++ (string_bytes (unwrap_or c.partition_site [])
                        ++ (to_le_bytes 2 (flags c)
                            ++ ((same_site_tag c.same_site ∷ [])
                                ++ ((expiration_tag c.expiration_date ∷ [])
                                    ++ (expiration_tail c.expiration_date
                                        ++ (to_le_bytes 4 (length c.metadata % 2 ^ 32)
                                            ++ metadata_bytes c.metadata))))))))))

flags_lem :
    (s h e o : Bool)
    → (flags_of s h e o < 256 ^ 2)
      × (has_flag (flags_of s h e o) flag_secure ≡ s)
      × (has_flag (flags_of s h e o) flag_http_only ≡ h)
      × (has_flag (flags_of s h e o) flag_session ≡ e)
      × (has_flag (flags_of s h e o) flag_host_only ≡ o)
unfolding flags_of
flags_lem s h e o = ground arith

Reads-byte : (n : ℕ) → n < 256 → Reads (read_int 1) (n ∷ []) n
unfolding to_le_bytes
Reads-byte n h =
    subst (λ k. Reads (read_int 1) (k ∷ []) n) (omega arith) (Reads-read_int 1 n (omega arith))

same_site_of-tag : (s : SameSite) → same_site_of (same_site_tag s) ≡ pure s
unfolding same_site_of
same_site_of-tag SameSite.none_site = refl
same_site_of-tag SameSite.lax = refl
same_site_of-tag SameSite.strict = refl
same_site_of-tag SameSite.unspecified = refl

expiration_tag-lt : (e : Option ℕ) → expiration_tag e < 256
expiration_tag-lt none = omega arith
expiration_tag-lt (some x) = omega arith

same_site_tag-lt : (s : SameSite) → same_site_tag s < 256
same_site_tag-lt s = ground arith

Reads-expiration :
    (e : Option ℕ)
    → unwrap_or e 0 < 2 ^ 64
    → Reads (read_expiration (expiration_tag e)) (expiration_tail e) e
unfolding read_expiration
Reads-expiration none h = Reads-pure none
Reads-expiration (some x) h =
    subst (λ bs. Reads (read_expiration 1) bs (some x)) (append-nil (to_le_bytes 8 x))
      (Reads-bind (read_int 8) _ (to_le_bytes 8 x) [] x (some x) (Reads-read_int 8 x (omega arith))
        (Reads-pure (some x)))

Reads-same_site : (s : SameSite) → Reads (same_site_of (same_site_tag s)) [] s
Reads-same_site s = rw (same_site_of-tag s) (Reads-pure s)

module _ (limits : BinaryLimits) where
  abbrev string : M Text
  string = read_string limits.maximum_string_bytes

  Reads-fitting : (t : Text) → Fits limits t → Reads string (string_bytes t) t
  Reads-fitting t (h, l, m) = Reads-read_string limits.maximum_string_bytes t h l m

module _ (limits : BinaryLimits) (c : Cookie) (h : Encodable limits c) where
  -- The value that `decode_cookie` builds at its end.
  decoded-normalized :
      (record (normalized c) {
        secure = has_flag (flags c) flag_secure;
        http_only = has_flag (flags c) flag_http_only;
        session = has_flag (flags c) flag_session;
        host_only = has_flag (flags c) flag_host_only;
      })
      ≡ normalized c
  unfolding normalized
  decoded-normalized =
      let (_, s, o, e, k) = flags_lem c.secure c.http_only c.session c.host_only in rw (s, o, e, k)

  -- The value from the tags and counts behind the flags on.
  abbrev build : Option ℕ → SameSite → OrdMap Text Text → Cookie
  build e s m = record (normalized c) {
    secure = has_flag (flags c) flag_secure;
    http_only = has_flag (flags c) flag_http_only;
    session = has_flag (flags c) flag_session;
    host_only = has_flag (flags c) flag_host_only;
    expiration_date = e;
    same_site = s;
    metadata = m;
  }

  abbrev metadata_reader : Option ℕ → SameSite → M Cookie
  metadata_reader e s = do
    count ← read_int 4
    fail_if (ltb limits.maximum_metadata_entries count) (
        LuckError.invalid_argument (
          lit "metadata entry count "
          ∷ num count
          ∷ lit " exceeds limit "
          ∷ num limits.maximum_metadata_entries
          ∷ []))
    metadata ← read_metadata limits count []
    pure (build e s metadata)

  Reads-metadata_reader :
      Reads
        (metadata_reader c.expiration_date c.same_site)
        (to_le_bytes 4 (length c.metadata % 2 ^ 32) ++ metadata_bytes c.metadata)
        (normalized c)
  unfolding normalized
  Reads-metadata_reader =
      let count = length c.metadata in
      let e : count % 2 ^ 32 ≡ count = omega (arith, h.countable) in
      rw e (
        Reads-bind (read_int 4) _ (to_le_bytes 4 count) (metadata_bytes c.metadata) count
          (normalized c) (Reads-read_int 4 count (omega (arith, h.countable)))
          (Reads-fail_if (ltb limits.maximum_metadata_entries count) _ _ (metadata_bytes c.metadata)
            (normalized c) (le→ltb_false limits.maximum_metadata_entries count h.counted)
            (Reads-last (read_metadata limits count []) (build c.expiration_date c.same_site)
              (metadata_bytes c.metadata) c.metadata (normalized c)
              (Reads-read_metadata limits [] c.metadata h.ordered h.entries) decoded-normalized)))

  -- A cookie within the limits is read back, with an empty optional string as none.
  pub Reads-decode_cookie : Reads (decode_cookie limits) (cookie_bytes c) (normalized c)
  unfolding decode_cookie cookie_bytes normalized
  Reads-decode_cookie =
      let text = string limits in
      let fit = Reads-fitting limits in
      Reads-bind text _ _ _ c.name _ (fit c.name h.name) (
        Reads-bind text _ _ _ c.value _ (fit c.value h.value) (
          Reads-bind text _ _ _ c.domain _ (fit c.domain h.domain) (
            Reads-bind text _ _ _ c.path _ (fit c.path h.path) (
              Reads-bind text _ _ _ (unwrap_or c.store_id []) _ (fit _ h.store_id) (
                Reads-bind text _ _ _ (unwrap_or c.partition_site []) _ (fit _ h.partition_site) (
                  Reads-bind (read_int 2) _ _ _ (flags c) _
                    (Reads-read_int 2 (flags c)
                      (flags_lem c.secure c.http_only c.session c.host_only).0)
                    (Reads-bind (read_int 1) _ _ _ (same_site_tag c.same_site) _
                      (Reads-byte _ (same_site_tag-lt c.same_site))
                      (Reads-bind (same_site_of (same_site_tag c.same_site)) _ [] _ c.same_site _
                        (Reads-same_site c.same_site)
                        (Reads-bind (read_int 1) _ _ _ (expiration_tag c.expiration_date) _
                          (Reads-byte _ (expiration_tag-lt c.expiration_date))
                          (Reads-bind (read_expiration (expiration_tag c.expiration_date)) _ _ _
                            c.expiration_date _ (Reads-expiration c.expiration_date h.expiration)
                            Reads-metadata_reader))))))))))
