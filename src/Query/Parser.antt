-- ===== src/Query/Parser.antt =====
-- `Parser`: recursive descent over the tokens. The state is the tokens from the position on, and the
-- position. The recursion runs on fuel; an outcome of none means that the fuel ran out.
use luck_editor.Prelude.{
  ℕ, zero, suc, ◌+◌, ◌*◌, ◌||◌, Bool, true, false, if◌then◌else◌, List, [], ◌∷◌, Option, none, some,
  length, ◌=?◌, list_ord, nat_ord, is_empty,
}
use luck_editor.Text.{Text, txt, to_ascii_lowercase}
use luck_editor.Errors.{Result, ok, err, LuckError, Message, lit, debug, msg}
use luck_editor.Model.{from_label}
use luck_editor.Query.Syntax.{SortField, SortOrder, QueryExpr, Exprs, CookieQuery, Token, nil, cons}
use luck_editor.Query.Lexer.{tokenize}

pub record State : Type 0 where
  pub rest : List Token
  pub position : ℕ

abbrev pub P : Type 0 → Type 0
P A = State → Option (Result (A × State))

abbrev pub pure : {A : Type 0} → A → P A
pure a s = some (ok (a, s))

abbrev pub and_then :
    {A B : Type 0} → Option (Result (A × State)) → (A → P B) → Option (Result (B × State))
and_then none f = none
and_then (some (err e)) f = some (err e)
and_then (some (ok (a, s))) f = f a s

infixl 5 ◌>>=◌
abbrev pub ◌>>=◌ : {A B : Type 0} → P A → (A → P B) → P B
(p >>= f) s = and_then (p s) f

abbrev pub fail_with : {A : Type 0} → LuckError → P A
fail_with e s = some (err e)

-- `error`, at the position
abbrev pub fail_at : {A : Type 0} → Message → P A
fail_at message s = some (err (LuckError.query s.position message))

abbrev pub same_token : Token → Token → Bool
same_token Token.colon Token.colon = true
same_token Token.lparen Token.lparen = true
same_token Token.rparen Token.rparen = true
same_token Token.and Token.and = true
same_token Token.or Token.or = true
same_token Token.not Token.not = true
same_token _ _ = false

-- `consume`, of a token that is no word
unfoldable pub consume_from : Token → List Token → ℕ → Bool × State
consume_from token [] position = (false, record { rest = []; position = position })
consume_from token (t ∷ ts) position =
    if same_token token t
    then (true, record { rest = ts; position = position + 1 })
    else (false, record { rest = t ∷ ts; position = position })

abbrev pub consume : Token → P Bool
consume token s = some (ok (consume_from token s.rest s.position))

unfoldable pub take_word_from : List Token → ℕ → Option (Result (Text × State))
take_word_from (Token.word value ∷ ts) position =
    some (ok (value, record { rest = ts; position = position + 1 }))
take_word_from _ position = some (err (LuckError.query position (msg "expected a word")))

abbrev pub take_word : P Text
take_word s = take_word_from s.rest s.position

unfoldable pub parse_bool : Text → Result Bool
parse_bool value =
    let lowered = to_ascii_lowercase value in
    if lowered =? txt "true" || (lowered =? txt "yes" || lowered =? txt "1")
    then ok true
    else if lowered =? txt "false" || (lowered =? txt "no" || lowered =? txt "0")
    then ok false
    else err (LuckError.invalid_argument (lit "expected boolean, received " ∷ debug value ∷ []))

abbrev pub with_bool : (Bool → QueryExpr) → Result Bool → P QueryExpr
with_bool make (ok b) = pure (make b)
with_bool make (err e) = fail_with e

-- The `match` on the name of the field.
unfoldable pub field_term : Text → Text → P QueryExpr
unfolding parse_bool
field_term field value =
    let name = to_ascii_lowercase field in
    if name =? txt "name"
    then pure (QueryExpr.name_contains value)
    else if name =? txt "value"
    then pure (QueryExpr.value_contains value)
    else if name =? txt "domain"
    then pure (QueryExpr.domain_matches value)
    else if name =? txt "path"
    then pure (QueryExpr.path_prefix value)
    else if name =? txt "secure"
    then with_bool QueryExpr.secure (parse_bool value)
    else if name =? txt "httponly" || name =? txt "http_only"
    then with_bool QueryExpr.http_only (parse_bool value)
    else if name =? txt "session"
    then with_bool QueryExpr.session (parse_bool value)
    else if name =? txt "expired"
    then with_bool QueryExpr.expired (parse_bool value)
    else if name =? txt "samesite" || name =? txt "same_site"
    then pure (QueryExpr.same_site (from_label value))
    else fail_at (lit "unknown field " ∷ debug field ∷ [])

unfoldable pub parse_term : P QueryExpr
unfolding take_word_from consume_from field_term
parse_term = do
  field ← take_word
  found ← consume Token.colon
  let bare : P QueryExpr = pure (
      QueryExpr.or_
        (cons (QueryExpr.name_contains field) (cons (QueryExpr.domain_matches field) nil)))
  let named : P QueryExpr = take_word >>= λ value. field_term field value
  if found then named else bare

-- A single expression stands for itself.
unfoldable pub or_of : QueryExpr → Exprs → QueryExpr
or_of e nil = e
or_of e (cons x xs) = QueryExpr.or_ (cons e (cons x xs))

unfoldable pub and_of : QueryExpr → Exprs → QueryExpr
and_of e nil = e
and_of e (cons x xs) = QueryExpr.and_ (cons e (cons x xs))

-- `consume`, and one of two ways on.
abbrev pub if_next : {A : Type 0} → Token → P A → P A → P A
if_next token yes_ no_ = consume token >>= λ found. if found then yes_ else no_

unfoldable mutual
  pub parse_or : ℕ → P QueryExpr
  parse_or zero s = none
  parse_or (suc f) s = (parse_and f >>= λ e. or_rest f >>= λ es. pure (or_of e es)) s

  -- The loop of `parse_or` behind its first expression.
  pub or_rest : ℕ → P Exprs
  or_rest zero s = none
  or_rest (suc f) s =
      if_next Token.or (parse_and f >>= λ e. or_rest f >>= λ es. pure (cons e es)) (pure nil) s

  pub parse_and : ℕ → P QueryExpr
  parse_and zero s = none
  parse_and (suc f) s = (parse_unary f >>= λ e. and_rest f >>= λ es. pure (and_of e es)) s

  pub and_rest : ℕ → P Exprs
  and_rest zero s = none
  and_rest (suc f) s =
      if_next Token.and (parse_unary f >>= λ e. and_rest f >>= λ es. pure (cons e es)) (pure nil) s

  pub parse_unary : ℕ → P QueryExpr
  parse_unary zero s = none
  parse_unary (suc f) s =
      if_next Token.not (parse_unary f >>= λ e. pure (QueryExpr.not_ e))
        (if_next Token.lparen
          (parse_or f >>= λ e. if_next Token.rparen (pure e) (fail_at (msg "expected ')'")))
          parse_term)
        s

abbrev pub default_query : CookieQuery
default_query = record {
  expression = QueryExpr.true_;
  sort_field = SortField.domain;
  sort_order = SortOrder.ascending;
  offset = 0;
  limit = none;
}

-- The expression, if no token is left behind it.
abbrev pub finish : Option (Result (QueryExpr × State)) → Option (Result QueryExpr)
finish none = none
finish (some (err e)) = some (err e)
finish (some (ok (e, s))) =
    if is_empty s.rest
    then some (ok e)
    else some (err (LuckError.query s.position (msg "unexpected trailing token")))

abbrev pub query_of : Option (Result QueryExpr) → Option (Result CookieQuery)
query_of none = none
query_of (some (err e)) = some (err e)
query_of (some (ok e)) = some (ok (record default_query { expression = e }))

-- The fuel that is given for so many tokens.
abbrev pub fuel_for : List Token → ℕ
fuel_for tokens = 4 * length tokens + 3

abbrev pub start : List Token → State
start tokens = record { rest = tokens; position = 0 }

unfoldable pub parse_tokens : List Token → Option (Result CookieQuery)
unfolding parse_or
parse_tokens [] = some (ok default_query)
parse_tokens (t ∷ ts) = query_of (finish (parse_or (fuel_for (t ∷ ts)) (start (t ∷ ts))))

-- The fuel is enough, so the outcome is always there.
abbrev pub settle : {A : Type 0} → Option (Result A) → Result A
settle none = err (LuckError.query 0 (msg "out of fuel"))
settle (some r) = r

abbrev pub parse_lexed : Result (List Token) → Result CookieQuery
parse_lexed (ok tokens) = settle (parse_tokens tokens)
parse_lexed (err e) = err e

-- `CookieQuery::parse`
unfoldable pub parse : Text → Result CookieQuery
unfolding tokenize parse_tokens
parse input = parse_lexed (tokenize input)
