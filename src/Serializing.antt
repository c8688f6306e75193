-- ===== src/Serializing.antt =====
-- rust/crates/luck-core/src/serialize/: the output formats. The JSON writer stands on another crate
-- and is a parameter. Writing to a string does not fail.
pub mod Quoting
pub mod Breaks
use luck_editor.Prelude.{
  ℕ, zero, suc, List, [], ◌∷◌, ◌++◌, Bool, true, false, not, ◌||◌, ◌==◌, if◌then◌else◌, map, filter,
  reverse, any, Option, none, some, unwrap_or,
}
use luck_editor.Text.{
  Text, txt, trim, join, starts_with, strip_prefix, trim_start_matches, trim_end_matches, len,
}
use luck_editor.Errors.{Result, ok, err}
use luck_editor.Model.{Cookie, CookieCollection, as_set_cookie_str}
use luck_editor.Platform.{Platform}

-- `replace` of one character, and of some characters.
unfoldable pub replace_char : ℕ → Text → Text → Text
replace_char x by [] = []
replace_char x by (c ∷ t) = if c == x then by ++ replace_char x by t else c ∷ replace_char x by t

unfoldable pub replace_any : List ℕ → Text → Text → Text
replace_any xs by [] = []
replace_any xs by (c ∷ t) =
    if any (λ x. c == x) xs then by ++ replace_any xs by t else c ∷ replace_any xs by t

-- curl.rs

-- `trim_start_matches` of a text: as long as it stands in front.
unfoldable pub trim_start_text : ℕ → Text → Text → Text
trim_start_text zero prefix t = t
trim_start_text (suc fuel) prefix t = elim (strip_prefix prefix t) [
  | none ↦ t
  | some rest ↦ trim_start_text fuel prefix rest
]

unfoldable pub normalize_hostname : Text → Text
unfolding trim_start_text
normalize_hostname hostname =
    let host = trim hostname in
    let plain = trim_start_text (len host) (txt "http://") host in
    let bare = trim_start_text (len plain) (txt "https://") plain in
    trim_end_matches b'/' (trim_start_matches b'/' bare)

abbrev pub apostrophe : ℕ
apostrophe = 0x27

unfoldable pub shell_quote : Text → Text
unfolding replace_char
shell_quote value = txt "'" ++ (replace_char apostrophe (txt "'\"'\"'") value ++ txt "'")

abbrev pub pair_text : Cookie → Text → Text
pair_text c value = c.name ++ (txt "=" ++ value)

unfoldable pub serialize_curl : CookieCollection → Text → Text
unfolding normalize_hostname shell_quote
serialize_curl cs hostname =
    let cookies = join (txt "; ") (map (λ c. pair_text c c.value) cs) in
    txt "curl --fail --show-error --location --cookie "
    ++ (shell_quote cookies
        ++ (txt " " ++ shell_quote (txt "https://" ++ (normalize_hostname hostname ++ txt "/"))))

-- header.rs
unfoldable pub serialize_header : CookieCollection → Text
unfolding replace_any
serialize_header cs =
    txt "Cookie: "
    ++ join (txt "; ") (map (λ c. pair_text c (replace_any (0x0d ∷ 0x0a ∷ []) [] c.value)) cs)

-- netscape.rs
unfoldable pub sanitize_field : Text → Text
unfolding replace_any
sanitize_field = replace_any (0x09 ∷ 0x0d ∷ 0x0a ∷ []) (txt " ")

abbrev pub bool_label : Bool → Text
bool_label true = txt "TRUE"
bool_label false = txt "FALSE"

unfoldable pub netscape_line : Platform → Cookie → Text
unfolding sanitize_field
netscape_line platform c =
    let domain = if c.http_only then txt "#HttpOnly_" ++ c.domain else c.domain in
    join (txt "\t") (
      domain
      ∷ bool_label (starts_with (txt ".") c.domain)
      ∷ c.path
      ∷ bool_label c.secure
      ∷ platform.print_floor (unwrap_or c.expiration_date 0)
      ∷ sanitize_field c.name
      ∷ sanitize_field c.value
      ∷ [])
    ++ txt "\n"

unfoldable pub concat : List Text → Text
concat [] = []
concat (t ∷ ts) = t ++ concat ts

unfoldable pub serialize_netscape : Platform → CookieCollection → Text
unfolding netscape_line concat
serialize_netscape platform cs =
    txt "# Netscape HTTP Cookie File\n# Generated by Luck Editor 5\n"
    ++ (txt "# Review exported secrets before sharing.\n\n"
        ++ concat (map (netscape_line platform) cs))

-- set_cookie.rs
abbrev pub max_age_text : Platform → ℕ → Option ℕ → Text
max_age_text platform now none = []
max_age_text platform now (some expiration) =
    txt "; Max-Age=" ++ platform.print_lifetime now expiration

abbrev pub same_site_text : Option Text → Text
same_site_text none = []
same_site_text (some value) = txt "; SameSite=" ++ value

abbrev pub text_if : Bool → Text → Text
text_if b t = if b then t else []

unfoldable pub set_cookie_line : Platform → ℕ → Cookie → Text
unfolding replace_any
set_cookie_line platform now c =
    txt "Set-Cookie: "
    ++ (pair_text c (replace_any (0x0d ∷ 0x0a ∷ b';' ∷ []) [] c.value)
        ++ (txt "; Path="
            ++ (c.path
                ++ (text_if (starts_with (txt ".") c.domain) (txt "; Domain=" ++ c.domain)
                    ++ (max_age_text platform now c.expiration_date
                        ++ (text_if c.secure (txt "; Secure")
                            ++ (text_if c.http_only (txt "; HttpOnly")
                                ++ (same_site_text (as_set_cookie_str c.same_site)
                                    ++ txt "\n"))))))))

unfoldable pub serialize_set_cookie : Platform → ℕ → CookieCollection → Text
unfolding set_cookie_line concat
serialize_set_cookie platform now cs = concat (map (set_cookie_line platform now) cs)

-- json.rs: the cookies that are written.
unfoldable pub shown_cookie : Bool → Bool → Cookie → Cookie
shown_cookie include_metadata redacted c =
    let hidden = if redacted then record c { value = txt "[REDACTED]" } else c in
    if include_metadata then hidden else record hidden { metadata = [] }

-- mod.rs
pub data OutputFormat : Type 0 where
  json redacted_json netscape cookie_header set_cookie curl : OutputFormat

pub record SerializeOptions : Type 0 where
  pub format : OutputFormat
  pub hostname : Text
  pub include_http_only : Bool
  pub pretty_json : Bool
  pub include_metadata : Bool

abbrev pub default_serialize_options : SerializeOptions
default_serialize_options = record {
  format = OutputFormat.redacted_json;
  hostname = txt "example.invalid";
  include_http_only = false;
  pretty_json = true;
  include_metadata = false;
}

-- The JSON writer, pretty or not.
abbrev pub JsonWriter : Type 0
JsonWriter = Bool → CookieCollection → Result Text

abbrev pub serialize_json : JsonWriter → CookieCollection → SerializeOptions → Bool → Result Text
serialize_json json_writer cs options redacted =
    json_writer options.pretty_json (map (shown_cookie options.include_metadata redacted) cs)

abbrev pub readable : SerializeOptions → Cookie → Bool
readable options c = options.include_http_only || not c.http_only

unfoldable pub serialize_as :
    Platform → JsonWriter → ℕ → SerializeOptions → OutputFormat → CookieCollection → Result Text
unfolding shown_cookie serialize_netscape serialize_header serialize_set_cookie serialize_curl
serialize_as platform json_writer now options OutputFormat.json cs =
    serialize_json json_writer cs options false
serialize_as platform json_writer now options OutputFormat.redacted_json cs =
    serialize_json json_writer cs options true
serialize_as platform json_writer now options OutputFormat.netscape cs =
    ok (serialize_netscape platform cs)
serialize_as platform json_writer now options OutputFormat.cookie_header cs =
    ok (serialize_header cs)
serialize_as platform json_writer now options OutputFormat.set_cookie cs =
    ok (serialize_set_cookie platform now cs)
serialize_as platform json_writer now options OutputFormat.curl cs =
    ok (serialize_curl cs options.hostname)

unfoldable pub serialize_cookies :
    Platform → JsonWriter → ℕ → CookieCollection → SerializeOptions → Result Text
unfolding serialize_as
serialize_cookies platform json_writer now cs options =
    serialize_as platform json_writer now options options.format (filter (readable options) cs)
