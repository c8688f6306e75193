-- ===== src/Parsing/SetCookie.antt =====
-- set_cookie.rs: a pair and its attributes on each line.
use luck_editor.Prelude.{
  ℕ, ◌+◌, List, [], ◌∷◌, ◌++◌, Bool, true, false, not, ◌&&◌, ◌==◌, if◌then◌else◌, is_empty, is_some,
  foldl, Option, none, some, ◌=?◌, list_ord, nat_ord,
}
use luck_editor.OrdMap.{insert}
use luck_editor.Text.{Text, txt, trim, to_ascii_lowercase}
use luck_editor.Errors.{lit, text, msg}
use luck_editor.Model.{Cookie, from_label}
use luck_editor.Platform.{Platform}
use luck_editor.Parsing.Texts.{
  ParseWarning, Parsed, no_cookies, warning, lines, split_once, after_ascii_prefix, trim_start,
  non_empty, pair_cookie,
}

abbrev pub push_part : Text → List Text → List Text
push_part current rest = if is_empty (trim current) then rest else trim current ∷ rest

-- The loop over the characters: the part that is being read, and whether it stands in quotes and
-- behind a backslash.
unfoldable pub attribute_parts : Text → Bool → Bool → Text → List Text
attribute_parts current quoted escaped [] = push_part current []
attribute_parts current quoted true (c ∷ t) = attribute_parts (current ++ (c ∷ [])) quoted false t
attribute_parts current quoted false (c ∷ t) =
    let backslash = attribute_parts (current ++ (c ∷ [])) quoted true t in
    let quote = attribute_parts (current ++ (c ∷ [])) (not quoted) false t in
    let closed = push_part current (attribute_parts [] quoted false t) in
    let other = attribute_parts (current ++ (c ∷ [])) quoted false t in
    if c == 0x5c && quoted
    then backslash
    else if c == b'"'
    then quote
    else if c == b';' && not quoted
    then closed
    else other

unfoldable pub split_attributes : Text → List Text
unfolding attribute_parts
split_attributes line = attribute_parts [] false false line

-- The cookie under construction and the warnings of its line.
abbrev pub Attributed : Type 0
Attributed = Cookie × List ParseWarning

abbrev pub warn : ParseWarning → Attributed → Attributed
warn w (c, ws) = (c, ws ++ (w ∷ []))

abbrev pub max_age : Platform → ℕ → ℕ → Option ℕ → Attributed → Attributed
max_age platform now number none (c, ws) =
    warn (warning "set_cookie.max_age" (msg "invalid Max-Age attribute") (some number)) (c, ws)
max_age platform now number (some seconds) (c, ws) =
    (record c { expiration_date = some (platform.add_seconds now seconds); session = false }, ws)

abbrev pub add_metadata : Text → Text → Cookie → Cookie
add_metadata key value c = record c { metadata = insert key value c.metadata }

-- The `match` on the name of an attribute.
unfoldable pub attribute : Platform → ℕ → ℕ → Text → Text → Attributed → Attributed
attribute platform now number name value (c, ws) =
    if name =? txt "domain"
    then (record c { domain = trim value; host_only = false }, ws)
    else if name =? txt "path"
    then (record c { path = non_empty value (txt "/") }, ws)
    else if name =? txt "secure"
    then (record c { secure = true }, ws)
    else if name =? txt "httponly"
    then (record c { http_only = true }, ws)
    else if name =? txt "samesite"
    then (record c { same_site = from_label value }, ws)
    else if name =? txt "partitioned"
    then (record (add_metadata (txt "partitioned") (txt "true") c) { secure = true }, ws)
    else if name =? txt "priority"
    then (add_metadata (txt "priority") (trim value) c, ws)
    else if name =? txt "max-age"
    then max_age platform now number (platform.parse_i64 (trim value)) (c, ws)
    else if name =? txt "expires"
    then warn
        (warning "set_cookie.expires_raw"
          (msg "Expires was preserved as metadata; use Max-Age or JSON for exact conversion")
          (some number))
        (add_metadata (txt "expires_raw") (trim value) c, ws)
    else if name =? []
    then warn (warning "set_cookie.empty_attribute" (msg "ignored empty attribute") (some number))
        (c, ws)
    else warn
        (warning "set_cookie.unknown_attribute"
          (lit "ignored unsupported attribute " ∷ text name ∷ []) (some number))
        (c, ws)

abbrev pub name_and_value : Text → Text × Text
name_and_value segment = elim (split_once b'=' segment) [ none ↦ (segment, []) | some pair ↦ pair ]

unfoldable pub read_segment : Platform → ℕ → ℕ → Attributed → Text → Attributed
unfolding attribute split_once
read_segment platform now number state segment =
    let (name, value) = name_and_value segment in
    attribute platform now number (to_ascii_lowercase (trim name)) value state

-- The cookie behind its last attribute.
abbrev pub close_session : Cookie → Cookie
close_session c = record c { session = not (is_some c.expiration_date) }

unfoldable pub strip_set_cookie_prefix : Text → Option Text
unfolding after_ascii_prefix
strip_set_cookie_prefix value = elim (after_ascii_prefix value (txt "set-cookie:")) [
  | none ↦ none
  | some none ↦ some value
  | some (some rest) ↦ some (trim_start rest)
]

-- The segments of a line, the pair first.
unfoldable pub read_line : Platform → ℕ → Text → ℕ → List Text → Parsed → Parsed
unfolding read_segment
read_line platform now fallback_domain number [] rest = rest
read_line platform now fallback_domain number (pair ∷ segments) (cookies, warnings) =
    elim (split_once b'=' pair) [
      | none ↦ (
        cookies,
        warning "set_cookie.pair" (msg "missing cookie name/value pair") (some number) ∷ warnings,
      )
      | some (name, value) ↦
          let (c, ws) =
            foldl (read_segment platform now number) (pair_cookie fallback_domain name value, [])
              segments in
          (close_session c ∷ cookies, ws ++ warnings)
    ]

-- The loop over the lines, from a number on. A panic ends it.
unfoldable pub set_cookie_lines : Platform → ℕ → Text → ℕ → List Text → Option Parsed
unfolding strip_set_cookie_prefix split_attributes read_line
set_cookie_lines platform now fallback_domain number [] = some no_cookies
set_cookie_lines platform now fallback_domain number (raw ∷ more) =
    elim (strip_set_cookie_prefix (trim raw)) [
      | none ↦ none
      | some line ↦ elim (set_cookie_lines platform now fallback_domain (number + 1) more) [
        | none ↦ none
        | some rest ↦ some (
            if is_empty line
            then rest
            else read_line platform now fallback_domain number (split_attributes line) rest)
      ]
    ]

unfoldable pub parse_set_cookie : Platform → ℕ → Text → Text → Option Parsed
unfolding set_cookie_lines lines
parse_set_cookie platform now input fallback_domain =
    set_cookie_lines platform now fallback_domain 1 (lines input)
