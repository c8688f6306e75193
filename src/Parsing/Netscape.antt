-- ===== src/Parsing/Netscape.antt =====
-- netscape.rs: lines of at least seven columns.
use luck_editor.Prelude.{
  ℕ, ◌+◌, List, [], ◌∷◌, ◌++◌, Bool, not, ◌&&◌, ◌||◌, ltb, if◌then◌else◌, is_empty, is_some, Option,
  none, some, unwrap_or, get_elem?, drop, length, ◌=?◌, list_ord, nat_ord,
}
use luck_editor.OrdMap.{insert}
use luck_editor.Text.{Text, txt, trim, split, join, starts_with, strip_prefix, to_ascii_lowercase}
use luck_editor.Errors.{msg}
use luck_editor.Float64.{f64_lt}
use luck_editor.Model.{Cookie, SameSite}
use luck_editor.Platform.{Platform}
use luck_editor.Parsing.Texts.{
  Parsed, no_cookies, push_cookie, push_warning, warning, lines, non_empty,
}

unfoldable pub parse_bool : Text → Bool
parse_bool value =
    let word = to_ascii_lowercase (trim value) in
    word =? txt "true" || (word =? txt "1" || word =? txt "yes")

abbrev pub column : List Text → ℕ → Text
column fields i = unwrap_or (get_elem? fields i) []

-- `parse::<f64>().ok().filter(|value| *value > 0.0)`
abbrev pub positive : Option ℕ → Option ℕ
positive none = none
positive (some v) = if f64_lt 0 v then some v else none

abbrev pub dotted_domain : Bool → Text → Text
dotted_domain include_subdomains raw_domain =
    if include_subdomains && not (starts_with (txt ".") raw_domain)
    then txt "." ++ raw_domain
    else raw_domain

-- The cookie of seven columns or more.
unfoldable pub column_cookie : Platform → Bool → List Text → Cookie
unfolding parse_bool
column_cookie platform http_only fields =
    let include_subdomains = parse_bool (column fields 1) in
    let expiration = positive (platform.parse_f64 (trim (column fields 4))) in
    record {
      name = trim (column fields 5);
      value = join (txt "\t") (drop 6 fields);
      domain = dotted_domain include_subdomains (trim (column fields 0));
      path = non_empty (column fields 2) (txt "/");
      secure = parse_bool (column fields 3);
      http_only = http_only;
      same_site = SameSite.unspecified;
      expiration_date = expiration;
      session = not (is_some expiration);
      host_only = not include_subdomains;
      store_id = none;
      partition_site = none;
      metadata =
          if ltb 7 (length fields)
          then insert (txt "extra_columns") (join (txt "\t") (drop 7 fields)) []
          else [];
    }

-- The loop over the lines, from a number on.
unfoldable pub netscape_lines : Platform → ℕ → List Text → Parsed
unfolding column_cookie
netscape_lines platform number [] = no_cookies
netscape_lines platform number (raw ∷ more) =
    let rest = netscape_lines platform (number + 1) more in
    let trimmed = trim raw in
    let marked = strip_prefix (txt "#HttpOnly_") trimmed in
    let line = unwrap_or marked trimmed in
    let fields = split b'\t' line in
    let cookie = column_cookie platform (is_some marked) fields in
    let extra : Parsed =
      if ltb 7 (length fields)
      then push_warning
          (warning "netscape.extra" (msg "preserved extra columns as metadata") (some number)) rest
      else rest in
    if is_empty trimmed
    then rest
    else if starts_with (txt "#") line
    then rest
    else if ltb (length fields) 7
    then push_warning
        (warning "netscape.columns" (msg "expected at least seven tab-separated columns")
          (some number))
        rest
    else push_cookie cookie extra

unfoldable pub parse_netscape : Platform → Text → Parsed
unfolding netscape_lines lines
parse_netscape platform input = netscape_lines platform 1 (lines input)
