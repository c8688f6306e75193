-- ===== src/Query/Syntax.antt =====
-- Expressions, queries and tokens. `Exprs` is the vector inside `And` and `Or`.
use luck_editor.Prelude.{ℕ, Bool, Option}
use luck_editor.Text.{Text}
use luck_editor.Model.{SameSite}

pub data SortField : Type 0 where
  name domain path expiration size : SortField

pub data SortOrder : Type 0 where
  ascending descending : SortOrder

mutual
  pub data QueryExpr : Type 0 where
    true_ : QueryExpr
    name_contains : Text → QueryExpr
    value_contains : Text → QueryExpr
    domain_matches : Text → QueryExpr
    path_prefix : Text → QueryExpr
    secure : Bool → QueryExpr
    http_only : Bool → QueryExpr
    session : Bool → QueryExpr
    same_site : SameSite → QueryExpr
    expired : Bool → QueryExpr
    and_ : Exprs → QueryExpr
    or_ : Exprs → QueryExpr
    not_ : QueryExpr → QueryExpr

  pub data Exprs : Type 0 where
    nil : Exprs
    cons : QueryExpr → Exprs → Exprs

pub record CookieQuery : Type 0 where
  pub expression : QueryExpr
  pub sort_field : SortField
  pub sort_order : SortOrder
  pub offset : ℕ
  pub limit : Option ℕ

pub data Token : Type 0 where
  word : Text → Token
  colon lparen rparen and or not : Token
