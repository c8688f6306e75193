-- ===== src/Tests/Pipelines.antt =====
-- Queries, validation, policies, parsers, serializers and the engine at concrete inputs.
use luck_editor.Prelude.{
  ◌+◌, ◌≤◌, List, [], ◌∷◌, true, false, ◌&&◌, ◌||◌, ltb, is_some, any, ◌==◌, if◌then◌else◌, all,
  filter, reverse, drop, length, none, some, ◌≡◌, ◌≢◌, refl, arith,
}
use luck_editor.Prelude.Sort.{Sorted}
use mathlib.Core.List.{Perm}
use luck_editor.Text.{
  txt, len, len_utf8, trim, drop_while, is_whitespace, split_pieces, strip_prefix, starts_with,
  join,
}
use luck_editor.Errors.{Result, ok, err, LuckError}
use luck_editor.Model.{CookieCollection, new_cookie}
use luck_editor.Platform.{Platform}
use luck_editor.Statistics.{Floats, compute, from_values}
use luck_editor.Statistics.Balance.{IsBalanced, compute-IsBalanced}
use luck_editor.Statistics.Percentiles.{IsOrdered, from_values-IsOrdered}
use luck_editor.Model.{total_estimated_bytes}
use luck_editor.Validation.{validate_cookie, is_valid, default_config}
use luck_editor.Validation.Conforming.{conforms}
use luck_editor.Validation.Conform.{validate_cookie-conforms}
use luck_editor.Policy.{is_allowed, violations_of, violations_found, evaluate, default_policy}
use luck_editor.Policy.Decision.{acceptable, evaluate-is_allowed}
use luck_editor.Query.{
  QueryExpr, nil, cons, Token, CookieQuery, SortField, SortOrder, parse, parse_tokens,
  default_query, matches, compare_by, is_descending, take_limit, execute,
}
use luck_editor.Query.Printer.{print, render, printable}
use luck_editor.Query.Ends.{parse_tokens-total}
use luck_editor.Query.Execute.{execute_lem}
use luck_editor.Query.RoundTrip.{parse-render}
use luck_editor.Parsing.{
  ParseReport, ParseOptions, Parsed, JsonReader, InputFormat, default_options, full_report,
  report_of, read_format, parse_cookies, parse_lines, parse_header, lines, lines_from, line_pairs,
  split_once, strip_return, strip_ascii_prefix, after_ascii_prefix, cut_at,
}
use luck_editor.Parsing.Reports.{passes, report_of_lem, parse_cookies-conforms}
use luck_editor.Parsing.Panics.{is_char_boundary, strip_ascii_prefix-is_char_boundary}
use luck_editor.Serializing.{shell_quote, serialize_header}
use luck_editor.Serializing.Breaks.{breaks, breaks-serialize_header}
use luck_editor.Serializing.Quoting.{shell_word, Quotes, shell_word-shell_quote}
use luck_editor.Engine.{
  EngineReport, default_engine, default_pipeline, inspected, inspect, is_clean, select,
}
use luck_editor.Engine.Pipeline.{kept, inspect-is_clean, select_lem}
use luck_editor.Tests.Data.{sid, lang}

-- Arithmetic that always gives zero.
abbrev floats : Floats
floats = record {
  of_usize = λ a. 0;
  quotient = λ a b. 0;
  half = λ a. 0;
  seconds_left = λ expiry now. 0;
  to_days = λ v. 0;
  middle_of = λ a b. 0;
  mean = λ values. 0;
}

-- No text is an address or a number here.
abbrev platform : Platform
platform = record {
  is_ipv4 = λ t. false;
  is_ipv6 = λ t. false;
  add_days = λ now days. now;
  parse_f64 = λ t. none;
  parse_i64 = λ t. none;
  add_seconds = λ now seconds. now;
  print_floor = λ x. txt "0";
  print_lifetime = λ now x. txt "0";
  floats = floats;
}

abbrev json_reader : JsonReader
json_reader input domain = err LuckError.unsupported_format

abbrev tokens : List Token
tokens = Token.lparen ∷ Token.word (txt "a") ∷ Token.or ∷ []

parse_tokens-total_example : (r : Result CookieQuery) × (parse_tokens tokens ≡ some r)
parse_tokens-total_example = parse_tokens-total tokens

-- (name:"a b" or not secure:true) and path:"and"
abbrev expression : QueryExpr
expression = QueryExpr.and_ (
    cons
      (QueryExpr.or_ (
        cons (QueryExpr.name_contains (txt "a b"))
          (cons (QueryExpr.not_ (QueryExpr.secure true)) nil)))
      (cons (QueryExpr.path_prefix (txt "and")) nil))

expression_printable : printable expression ≡ true
unfolding printable
expression_printable = refl

parse-render_example :
    parse (render (print expression)) ≡ ok (record default_query { expression = expression })
parse-render_example = parse-render expression expression_printable

abbrev by_name : CookieQuery
by_name = record {
  expression = QueryExpr.http_only true;
  sort_field = SortField.name;
  sort_order = SortOrder.descending;
  offset = 0;
  limit = some 1;
}

name_is_not_expiration : SortField.name ≢ SortField.expiration
name_is_not_expiration h = cc

execute_lem_example :
    (sorted : CookieCollection) × Perm sorted
      (filter (λ c. matches 0 c by_name.expression) (sid ∷ lang ∷ []))
    × Sorted (compare_by by_name.sort_field) sorted
    × (execute 0 by_name (sid ∷ lang ∷ [])
        ≡ take_limit by_name.limit (
            drop by_name.offset
              (if is_descending by_name.sort_order then reverse sorted else sorted)))
execute_lem_example = execute_lem 0 by_name (sid ∷ lang ∷ []) name_is_not_expiration

validate_cookie-conforms_example :
    is_valid (validate_cookie platform 0 sid default_config) ≡ conforms platform sid default_config
validate_cookie-conforms_example = validate_cookie-conforms platform 0 sid default_config

evaluate-is_allowed_example :
    (is_allowed (evaluate platform 0 default_policy lang) ≡ acceptable platform default_policy lang)
    × (violations_of (evaluate platform 0 default_policy lang)
        ≡ violations_found platform 0 default_policy lang)
evaluate-is_allowed_example = evaluate-is_allowed platform 0 default_policy lang

abbrev two_read : Parsed
two_read = (sid ∷ sid ∷ [], [])

report_of_lem_example :
    (report : ParseReport) × (report_of platform 0 default_options InputFormat.lines_ two_read
      ≡ ok report)
    × (all (passes platform default_options) report.cookies ≡ true)
    × (length report.cookies + report.duplicates_removed + report.rejected ≡ 2)
report_of_lem_example =
    report_of_lem platform 0 default_options InputFormat.lines_ two_read (omega arith)

abbrev line_options : ParseOptions
line_options = record default_options {
  format = InputFormat.lines_;
  fallback_domain = txt "example.com";
}

abbrev line_report : ParseReport
line_report =
    full_report platform 0 line_options InputFormat.lines_
      ((record (new_cookie (txt "a") (txt "1")) { domain = txt "example.com" }) ∷ [], [])

line_parsed :
    parse_cookies platform json_reader 0 (txt "a = 1\n# b") line_options ≡ some (ok line_report)
unfolding parse_cookies read_format report_of parse_lines line_pairs lines lines_from strip_return
    split_once split_pieces trim drop_while is_whitespace len len_utf8 starts_with strip_prefix
    new_cookie
line_parsed = refl

parse_cookies-conforms_example :
    (all (passes platform line_options) line_report.cookies ≡ true)
    × (length line_report.cookies + line_report.duplicates_removed + line_report.rejected ≤ 5000)
parse_cookies-conforms_example =
    parse_cookies-conforms platform json_reader 0 (txt "a = 1\n# b") line_options line_report
      line_parsed

shell_word-shell_quote_example :
    shell_word Quotes.outside (shell_quote (txt "it's $x")) ≡ some (txt "it's $x")
shell_word-shell_quote_example = shell_word-shell_quote (txt "it's $x")

abbrev line_engine_report : EngineReport
line_engine_report =
    inspected platform (record default_engine { parse_options = line_options }) 0 line_report

line_inspected :
    inspect platform json_reader
      (record default_engine { parse_options = line_options })
      0
      (txt "a = 1\n# b")
    ≡ some (ok line_engine_report)
unfolding inspect
line_inspected = rw line_parsed refl

inspect-is_clean_example : is_clean line_engine_report ≡ (
    line_engine_report.parse.rejected == 0
    && all (λ c. conforms platform c line_options.validation) line_engine_report.parse.cookies
    && all (acceptable platform default_policy) line_engine_report.parse.cookies)
inspect-is_clean_example =
    inspect-is_clean platform json_reader (record default_engine { parse_options = line_options }) 0
      (txt "a = 1\n# b") line_engine_report line_inspected

select_lem_example :
    (all
        (kept platform default_engine default_pipeline 0)
        (select platform default_engine default_pipeline 0 line_engine_report).collection
      ≡ true)
    × (length (select platform default_engine default_pipeline 0 line_engine_report).collection
          + (select platform default_engine default_pipeline 0 line_engine_report).removed_expired
          + (select platform default_engine default_pipeline 0 line_engine_report).removed_by_policy
        ≡ length line_engine_report.parse.cookies)
select_lem_example = select_lem platform default_engine default_pipeline 0 line_engine_report

-- The seventh byte of this header stands inside a character: the cut of the prefix panics.
header_panics : parse_header (txt "cookieé=1") [] ≡ none
unfolding parse_header lines lines_from strip_return strip_ascii_prefix after_ascii_prefix cut_at
    split_pieces trim drop_while is_whitespace len len_utf8 join
header_panics = refl

compute-IsBalanced_example :
    IsBalanced 2 (total_estimated_bytes (sid ∷ lang ∷ [])) (compute floats 0 (sid ∷ lang ∷ []))
compute-IsBalanced_example = compute-IsBalanced floats 0 (sid ∷ lang ∷ [])

from_values-IsOrdered_example : IsOrdered (from_values floats (5 ∷ 3 ∷ 8 ∷ []))
from_values-IsOrdered_example = from_values-IsOrdered floats (5 ∷ 3 ∷ 8 ∷ [])

strip_ascii_prefix-is_char_boundary_example :
    is_some (strip_ascii_prefix (txt "cookieé=1") (txt "cookie:"))
    ≡ (ltb (len (txt "cookieé=1")) 7 || is_char_boundary 7 (txt "cookieé=1"))
unfolding len len_utf8
strip_ascii_prefix-is_char_boundary_example =
    strip_ascii_prefix-is_char_boundary (txt "cookieé=1") (txt "cookie:")

breaks-serialize_header_example :
    breaks (serialize_header (sid ∷ lang ∷ [])) ≡ any (λ c. breaks c.name) (sid ∷ lang ∷ [])
breaks-serialize_header_example = breaks-serialize_header (sid ∷ lang ∷ [])
