-- ===== src/Query/Fields.antt =====
-- Printed fields and values read back.
use luck_editor.Prelude.{
  ℕ, suc, ◌+◌, Bool, true, false, List, some, ◌≡◌, refl, list_ord, nat_ord, cmp_list,
}
use luck_editor.Text.{Text, txt, to_ascii_lowercase, lower, trim, drop_while, is_whitespace}
use luck_editor.Errors.{ok}
use luck_editor.Model.{SameSite, from_label, as_chrome_str, dash_to_underscore}
use luck_editor.Query.{
  QueryExpr, Token, State, consume_from, take_word_from, field_term, parse_term, parse_unary,
}
use luck_editor.Query.Printer.{bool_text, field}
use luck_editor.Query.Reads.{Reads, done}

-- A field and its value.
pub term_trip :
    (name value : Text) (e : QueryExpr) (rest : List Token) (f n : ℕ)
    → ((s : State) → field_term name value s ≡ some (ok (e, s)))
    → Reads (parse_unary (suc f) (record { rest = field name value rest; position = n })) e rest
unfolding parse_unary parse_term take_word_from consume_from
term_trip name value e rest f n h = rw h (done e rest (n + 1 + 1 + 1))

pub same_site_trip : (s : SameSite) → from_label (as_chrome_str s) ≡ s
unfolding from_label as_chrome_str dash_to_underscore trim drop_while is_whitespace
    to_ascii_lowercase lower cmp_list
same_site_trip SameSite.none_site = refl
same_site_trip SameSite.lax = refl
same_site_trip SameSite.strict = refl
same_site_trip SameSite.unspecified = refl

pub name_term :
    (v : Text) (s : State) → field_term (txt "name") v s ≡ some (ok (QueryExpr.name_contains v, s))
unfolding field_term to_ascii_lowercase lower cmp_list
name_term v s = refl

pub value_term :
    (v : Text) (s : State)
    → field_term (txt "value") v s ≡ some (ok (QueryExpr.value_contains v, s))
unfolding field_term to_ascii_lowercase lower cmp_list
value_term v s = refl

pub domain_term :
    (v : Text) (s : State)
    → field_term (txt "domain") v s ≡ some (ok (QueryExpr.domain_matches v, s))
unfolding field_term to_ascii_lowercase lower cmp_list
domain_term v s = refl

pub path_term :
    (v : Text) (s : State) → field_term (txt "path") v s ≡ some (ok (QueryExpr.path_prefix v, s))
unfolding field_term to_ascii_lowercase lower cmp_list
path_term v s = refl

pub secure_term :
    (b : Bool) (s : State)
    → field_term (txt "secure") (bool_text b) s ≡ some (ok (QueryExpr.secure b, s))
unfolding field_term to_ascii_lowercase lower cmp_list
secure_term true s = refl
secure_term false s = refl

pub http_only_term :
    (b : Bool) (s : State)
    → field_term (txt "httponly") (bool_text b) s ≡ some (ok (QueryExpr.http_only b, s))
unfolding field_term to_ascii_lowercase lower cmp_list
http_only_term true s = refl
http_only_term false s = refl

pub session_term :
    (b : Bool) (s : State)
    → field_term (txt "session") (bool_text b) s ≡ some (ok (QueryExpr.session b, s))
unfolding field_term to_ascii_lowercase lower cmp_list
session_term true s = refl
session_term false s = refl

pub expired_term :
    (b : Bool) (s : State)
    → field_term (txt "expired") (bool_text b) s ≡ some (ok (QueryExpr.expired b, s))
unfolding field_term to_ascii_lowercase lower cmp_list
expired_term true s = refl
expired_term false s = refl

pub same_site_term :
    (v : SameSite) (s : State)
    → field_term (txt "samesite") (as_chrome_str v) s ≡ some (ok (QueryExpr.same_site v, s))
unfolding field_term to_ascii_lowercase lower cmp_list
same_site_term v s = rw (same_site_trip v) refl
