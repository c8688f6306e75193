-- ===== src/Parsing/Texts.antt =====
-- Lines, cuts at a character, and what the parsers share. An outcome of none is a panic.
use Prim.Native.String.{String}
use luck_editor.Prelude.{
  ℕ, zero, suc, ◌-◌, List, [], ◌∷◌, ◌==◌, leb, if◌then◌else◌, is_empty, reverse, Option, none, some,
  unwrap_or, ◌=?◌, list_ord, nat_ord,
}
use luck_editor.Text.{
  Text, txt, len, len_utf8, to_ascii_lowercase, trim, drop_while, is_whitespace, split_pieces,
}
use luck_editor.Errors.{Message}
use luck_editor.Model.{Cookie, CookieCollection, new_cookie}

pub record ParseWarning : Type 0 where
  pub code : Text
  pub message : Message
  pub line : Option ℕ

abbrev pub warning : String → Message → Option ℕ → ParseWarning
warning code message line = record { code = txt code; message = message; line = line }

-- What a parser returns: the cookies and the warnings, each in the order they were pushed.
abbrev pub Parsed : Type 0
Parsed = CookieCollection × List ParseWarning

abbrev pub no_cookies : Parsed
no_cookies = ([], [])

abbrev pub push_cookie : Cookie → Parsed → Parsed
push_cookie c (cookies, warnings) = (c ∷ cookies, warnings)

abbrev pub push_warning : ParseWarning → Parsed → Parsed
push_warning w (cookies, warnings) = (cookies, w ∷ warnings)

-- `str::lines`: a carriage return in front of the line feed goes, and an empty last line too.
unfoldable pub strip_return : Text → Text
strip_return t = elim (reverse t) [ [] ↦ t | c ∷ r ↦ if c == 0x0d then reverse r else t ]

unfoldable pub lines_from : Text → List Text → List Text
unfolding strip_return
lines_from last [] = if is_empty last then [] else last ∷ []
lines_from line (next ∷ more) = strip_return line ∷ lines_from next more

unfoldable pub lines : Text → List Text
unfolding lines_from split_pieces
lines t = let (line, more) = split_pieces 0x0a t in lines_from line more

-- `split_once` at a character
unfoldable pub split_once : ℕ → Text → Option (Text × Text)
split_once x [] = none
split_once x (c ∷ t) =
    let later : Option (Text × Text) = elim (split_once x t) [
      | none ↦ none
      | some (before, after) ↦ some (c ∷ before, after)
    ] in
    if c == x then some ([], t) else later

abbrev pub trim_start : Text → Text
trim_start = drop_while is_whitespace

-- `value[..n]` and `value[n..]`, which panic inside a character.
unfoldable pub cut_at : ℕ → Text → Option (Text × Text)
unfolding len_utf8
cut_at zero t = some ([], t)
cut_at (suc n) [] = none
cut_at (suc n) (c ∷ t) =
    let later : Option (Text × Text) = elim (cut_at (suc n - len_utf8 c) t) [
      | none ↦ none
      | some (before, after) ↦ some (c ∷ before, after)
    ] in
    if leb (len_utf8 c) (suc n) then later else none

-- What stands behind the prefix, in whatever case; the test of the length comes before the cut.
unfoldable pub after_ascii_prefix : Text → Text → Option (Option Text)
unfolding cut_at
after_ascii_prefix value prefix =
    if leb (len prefix) (len value)
    then elim (cut_at (len prefix) value) [
      | none ↦ none
      | some (before, after) ↦
          some (if to_ascii_lowercase before =? to_ascii_lowercase prefix then some after else none)
    ]
    else some none

unfoldable pub strip_ascii_prefix : Text → Text → Option Text
unfolding after_ascii_prefix
strip_ascii_prefix value prefix = elim (after_ascii_prefix value prefix) [
  | none ↦ none
  | some rest ↦ some (unwrap_or rest value)
]

unfoldable pub non_empty : Text → Text → Text
non_empty value fallback = if is_empty (trim value) then fallback else trim value

-- A cookie of the fallback domain, its name and value trimmed.
abbrev pub pair_cookie : Text → Text → Text → Cookie
pair_cookie fallback_domain name value = record (new_cookie (trim name) (trim value)) {
  domain = fallback_domain;
}
