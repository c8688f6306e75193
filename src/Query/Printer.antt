-- ===== src/Query/Printer.antt =====
-- The tokens and the text of an expression, for the round trip. The printers put the tokens in front
-- of those that follow.
use luck_editor.Prelude.{Bool, true, false, ◌&&◌, ◌||◌, ◌==◌, if◌then◌else◌, List, [], ◌∷◌, ◌++◌}
use luck_editor.Text.{Text, txt}
use luck_editor.Model.{as_chrome_str}
use luck_editor.Query.Syntax.{QueryExpr, Exprs, Token, nil, cons}
use luck_editor.Query.Lexer.{bslash}

-- The expressions that have a text: no constant, and no conjunction or disjunction of less than two.
unfoldable mutual
  pub printable : QueryExpr → Bool
  printable QueryExpr.true_ = false
  printable (QueryExpr.and_ es) = at_least_two es && printable_all es
  printable (QueryExpr.or_ es) = at_least_two es && printable_all es
  printable (QueryExpr.not_ e) = printable e
  printable _ = true

  pub printable_all : Exprs → Bool
  printable_all nil = true
  printable_all (cons e es) = printable e && printable_all es

  pub at_least_two : Exprs → Bool
  at_least_two (cons e (cons d es)) = true
  at_least_two _ = false

abbrev pub bool_text : Bool → Text
bool_text true = txt "true"
bool_text false = txt "false"

abbrev pub field : Text → Text → List Token → List Token
field name value rest = Token.word name ∷ Token.colon ∷ Token.word value ∷ rest

unfoldable mutual
  -- An operand: a conjunction or a disjunction stands in parentheses.
  pub operand : QueryExpr → List Token → List Token
  operand QueryExpr.true_ rest = rest
  operand (QueryExpr.name_contains v) rest = field (txt "name") v rest
  operand (QueryExpr.value_contains v) rest = field (txt "value") v rest
  operand (QueryExpr.domain_matches v) rest = field (txt "domain") v rest
  operand (QueryExpr.path_prefix v) rest = field (txt "path") v rest
  operand (QueryExpr.secure b) rest = field (txt "secure") (bool_text b) rest
  operand (QueryExpr.http_only b) rest = field (txt "httponly") (bool_text b) rest
  operand (QueryExpr.session b) rest = field (txt "session") (bool_text b) rest
  operand (QueryExpr.same_site s) rest = field (txt "samesite") (as_chrome_str s) rest
  operand (QueryExpr.expired b) rest = field (txt "expired") (bool_text b) rest
  operand (QueryExpr.and_ es) rest = Token.lparen ∷ joined Token.and es (Token.rparen ∷ rest)
  operand (QueryExpr.or_ es) rest = Token.lparen ∷ joined Token.or es (Token.rparen ∷ rest)
  operand (QueryExpr.not_ e) rest = Token.not ∷ operand e rest

  pub joined : Token → Exprs → List Token → List Token
  joined token nil rest = rest
  joined token (cons e es) rest = operand e (joined_tail token es rest)

  pub joined_tail : Token → Exprs → List Token → List Token
  joined_tail token nil rest = rest
  joined_tail token (cons e es) rest = token ∷ operand e (joined_tail token es rest)

-- The whole expression, without parentheses round it.
unfoldable pub print : QueryExpr → List Token
unfolding operand
print (QueryExpr.and_ es) = joined Token.and es []
print (QueryExpr.or_ es) = joined Token.or es []
print e = operand e []

-- A word in quotes, with a backslash before a quote and a backslash.
unfoldable pub escape : Text → Text
escape [] = []
escape (c ∷ t) = if c == b'"' || c == bslash then bslash ∷ c ∷ escape t else c ∷ escape t

unfoldable pub token_text : Token → Text → Text
unfolding escape
token_text (Token.word w) rest = b'"' ∷ (escape w ++ (b'"' ∷ rest))
token_text Token.colon rest = b':' ∷ rest
token_text Token.lparen rest = b'(' ∷ rest
token_text Token.rparen rest = b')' ∷ rest
token_text Token.and rest = txt "and" ++ rest
token_text Token.or rest = txt "or" ++ rest
token_text Token.not rest = txt "not" ++ rest

-- A blank behind every token.
unfoldable pub render : List Token → Text
unfolding token_text
render [] = []
render (t ∷ ts) = token_text t (b' ' ∷ render ts)
