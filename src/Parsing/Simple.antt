-- ===== src/Parsing/Simple.antt =====
-- header.rs and lines.rs: pairs of a name and a value.
use luck_editor.Prelude.{
  ℕ, ◌+◌, List, [], ◌∷◌, not, ◌||◌, if◌then◌else◌, is_empty, filter, map, Option, none, some,
}
use luck_editor.Text.{Text, txt, trim, split, join, starts_with}
use luck_editor.Errors.{lit, num, msg}
use luck_editor.Model.{new_cookie}
use luck_editor.Parsing.Texts.{
  Parsed, no_cookies, push_cookie, push_warning, warning, lines, split_once, strip_ascii_prefix,
  pair_cookie,
}

-- The loop over the pairs of a header, from an index on.
unfoldable pub header_pairs : Text → ℕ → List Text → Parsed
unfolding split_once new_cookie
header_pairs fallback_domain index [] = no_cookies
header_pairs fallback_domain index (raw ∷ pairs) =
    let rest = header_pairs fallback_domain (index + 1) pairs in
    let pair = trim raw in
    let parsed : Parsed = elim (split_once b'=' pair) [
      | none ↦
          push_warning
            (warning "header.pair" (lit "ignored pair " ∷ num (index + 1) ∷ lit " without '='" ∷ [])
              none)
            rest
      | some (name, value) ↦ push_cookie (pair_cookie fallback_domain name value) rest
    ] in
    if is_empty pair then rest else parsed

-- The lines of the input as one.
abbrev pub compact : Text → Text
compact input = join (txt "; ") (filter (λ line. not (is_empty line)) (map trim (lines input)))

unfoldable pub parse_header : Text → Text → Option Parsed
unfolding header_pairs lines strip_ascii_prefix
parse_header input fallback_domain = elim (strip_ascii_prefix (compact input) (txt "cookie:")) [
  | none ↦ none
  | some header ↦ some (header_pairs fallback_domain 0 (split b';' (trim header)))
]

-- The loop over the lines, from a number on.
unfoldable pub line_pairs : Text → ℕ → List Text → Parsed
unfolding split_once new_cookie
line_pairs fallback_domain number [] = no_cookies
line_pairs fallback_domain number (raw ∷ more) =
    let rest = line_pairs fallback_domain (number + 1) more in
    let line = trim raw in
    let parsed : Parsed = elim (split_once b'=' line) [
      | none ↦
          push_warning (warning "lines.pair" (msg "ignored line without '='") (some number)) rest
      | some (name, value) ↦ push_cookie (pair_cookie fallback_domain name value) rest
    ] in
    if is_empty line || (starts_with (txt "#") line || starts_with (txt "//") line)
    then rest
    else parsed

unfoldable pub parse_lines : Text → Text → Parsed
unfolding line_pairs lines
parse_lines input fallback_domain = line_pairs fallback_domain 1 (lines input)
