-- ===== src/Parsing/Entry.antt =====
-- mod.rs: detection of the format, and the parser of every format.
use luck_editor.Prelude.{
  ℕ, ◌+◌, List, [], ◌∷◌, ◌++◌, Bool, true, false, not, ◌&&◌, ◌||◌, ◌==◌, ltb, leb, if◌then◌else◌,
  is_empty, any, map, Option, none, some, length,
}
use luck_editor.Text.{Text, txt, len, trim, split, starts_with, contains, to_ascii_lowercase}
use luck_editor.Errors.{Result, ok, err, LuckError, Message, lit}
use luck_editor.Model.{CookieCollection, deduplicate_last_wins}
use luck_editor.Platform.{Platform}
use luck_editor.Validation
use luck_editor.Validation.{
  ValidationConfig, ValidationReport, is_valid, errors, warnings, validate_cookie,
}
use luck_editor.Parsing.Texts.{ParseWarning, Parsed, lines, trim_start}
use luck_editor.Parsing.Simple.{parse_header, parse_lines}
use luck_editor.Parsing.Netscape.{parse_netscape}
use luck_editor.Parsing.SetCookie.{parse_set_cookie}

pub data InputFormat : Type 0 where
  auto json netscape cookie_header set_cookie lines_ : InputFormat

pub record ParseReport : Type 0 where
  pub format : InputFormat
  pub cookies : CookieCollection
  pub warnings : List ParseWarning
  pub rejected : ℕ
  pub duplicates_removed : ℕ

pub record ParseOptions : Type 0 where
  pub format : InputFormat
  pub fallback_domain : Text
  pub maximum_input_bytes : ℕ
  pub maximum_cookies : ℕ
  pub reject_invalid : Bool
  pub deduplicate : Bool
  pub validation : ValidationConfig

abbrev pub default_options : ParseOptions
default_options = record {
  format = InputFormat.auto;
  fallback_domain = [];
  maximum_input_bytes = 2_097_152;
  maximum_cookies = 5000;
  reject_invalid = true;
  deduplicate = true;
  validation = Validation.default_config;
}

abbrev pub contains_char : ℕ → Text → Bool
contains_char x = any (λ c. c == x)

unfoldable pub detect_format : Text → InputFormat
unfolding lines
detect_format input =
    let lower = to_ascii_lowercase input in
    if starts_with (txt "{") (trim_start input) || starts_with (txt "[") (trim_start input)
    then InputFormat.json
    else if any (λ line. contains_char b'\t' line && leb 7 (length (split b'\t' line)))
        (lines input)
    then InputFormat.netscape
    else if any (λ line. starts_with (txt "set-cookie:") (to_ascii_lowercase (trim_start line)))
        (lines input)
    then InputFormat.set_cookie
    else if contains (txt "; secure") lower
        || contains (txt "; httponly") lower
        || contains (txt "; samesite=") lower
        || contains (txt "; path=") lower
    then InputFormat.set_cookie
    else if starts_with (txt "cookie:") (trim_start lower)
        || (contains_char b';' input && contains_char b'=' input)
    then InputFormat.cookie_header
    else InputFormat.lines_

abbrev pub resolve : InputFormat → Text → InputFormat
resolve InputFormat.auto input = detect_format input
resolve format input = format

-- The JSON reader, with the fallback domain.
abbrev pub JsonReader : Type 0
JsonReader = Text → Text → Result Parsed

-- The `match` on the format; `auto` is resolved before, and none is a panic.
unfoldable pub read_format :
    Platform → JsonReader → ℕ → InputFormat → Text → Text → Option (Result Parsed)
unfolding parse_header parse_lines parse_netscape parse_set_cookie
read_format platform json_reader now InputFormat.auto input domain = none
read_format platform json_reader now InputFormat.json input domain = some (json_reader input domain)
read_format platform json_reader now InputFormat.netscape input domain =
    some (ok (parse_netscape platform input))
read_format platform json_reader now InputFormat.cookie_header input domain =
    elim (parse_header input domain) [ none ↦ none | some parsed ↦ some (ok parsed) ]
read_format platform json_reader now InputFormat.set_cookie input domain =
    elim (parse_set_cookie platform now input domain) [
      | none ↦ none
      | some parsed ↦ some (ok parsed)
    ]
read_format platform json_reader now InputFormat.lines_ input domain =
    some (ok (parse_lines input domain))

-- What the loop over the cookies has: those accepted, the warnings, and the number of those rejected.
pub record Accepted : Type 0 where
  pub accepted : CookieCollection
  pub warnings : List ParseWarning
  pub rejected : ℕ

-- `join("; ")` of the messages
unfoldable pub join_messages : List Message → Message
join_messages [] = []
join_messages (m ∷ []) = m
join_messages (m ∷ n ∷ ms) = m ++ (lit "; " ∷ join_messages (n ∷ ms))

abbrev pub rejection : ValidationReport → ℕ → ParseWarning
rejection report number = record {
  code = txt "cookie.rejected";
  message = join_messages (map (λ issue. issue.message) (errors report));
  line = some number;
}

abbrev pub issue_warnings : ValidationReport → ℕ → List ParseWarning
issue_warnings report number =
    map (λ issue. record { code = issue.code; message = issue.message; line = some number })
      (warnings report)

-- The loop over the cookies that were read, from a number on.
unfoldable pub accept : Platform → ℕ → ParseOptions → ℕ → CookieCollection → Accepted
unfolding join_messages
accept platform now options number [] = record { accepted = []; warnings = []; rejected = 0 }
accept platform now options number (c ∷ cs) =
    let rest = accept platform now options (number + 1) cs in
    let report = validate_cookie platform now c options.validation in
    if options.reject_invalid && not (is_valid report)
    then record {
      accepted = rest.accepted;
      warnings = rejection report number ∷ rest.warnings;
      rejected = rest.rejected + 1;
    }
    else record {
      accepted = c ∷ rest.accepted;
      warnings = issue_warnings report number ++ rest.warnings;
      rejected = rest.rejected;
    }

abbrev pub deduplicated : Bool → CookieCollection → ℕ × CookieCollection
deduplicated true cookies = deduplicate_last_wins cookies
deduplicated false cookies = (0, cookies)

abbrev pub full_report : Platform → ℕ → ParseOptions → InputFormat → Parsed → ParseReport
full_report platform now options format (raw, warned) =
    let result = accept platform now options 1 raw in
    let (removed, cookies) = deduplicated options.deduplicate result.accepted in
    record {
      format = format;
      cookies = cookies;
      warnings = warned ++ result.warnings;
      rejected = result.rejected;
      duplicates_removed = removed;
    }

-- The report of the cookies that were read, if they are not too many.
unfoldable pub report_of : Platform → ℕ → ParseOptions → InputFormat → Parsed → Result ParseReport
unfolding accept
report_of platform now options format parsed =
    if ltb options.maximum_cookies (length parsed.0)
    then err (LuckError.too_many_cookies (length parsed.0) options.maximum_cookies)
    else ok (full_report platform now options format parsed)

abbrev pub reported :
    Platform → ℕ → ParseOptions → InputFormat → Option (Result Parsed) → Option (Result ParseReport)
reported platform now options format none = none
reported platform now options format (some (err e)) = some (err e)
reported platform now options format (some (ok parsed)) =
    some (report_of platform now options format parsed)

-- `parse_cookies`, with the clock's reading; none is a panic.
unfoldable pub parse_cookies :
    Platform → JsonReader → ℕ → Text → ParseOptions → Option (Result ParseReport)
unfolding detect_format read_format report_of
parse_cookies platform json_reader now input options =
    let format = resolve options.format input in
    if is_empty (trim input)
    then some (err LuckError.empty_input)
    else if ltb options.maximum_input_bytes (len input)
    then some (err (LuckError.input_too_large (len input) options.maximum_input_bytes))
    else reported platform now options format
        (read_format platform json_reader now format input options.fallback_domain)
