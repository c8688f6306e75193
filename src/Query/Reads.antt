-- ===== src/Query/Reads.antt =====
-- What a run of the parser reads, and how the levels of its grammar read on.
use luck_editor.Prelude.{
  ℕ, suc, ◌+◌, Bool, false, List, [], ◌∷◌, Option, some, ◌≡◌, refl, list_ord, nat_ord,
}
use luck_editor.Errors.{Result, ok}
use luck_editor.Query.{
  QueryExpr, Exprs, Token, nil, cons, State, P, pure, ◌>>=◌, same_token, consume_from, or_of,
  and_of, if_next, parse_or, or_rest, parse_and, and_rest, parse_unary,
}

-- The run succeeds with the value, and leaves these tokens.
pub record Reads {A : Type 0} (o : Option (Result (A × State))) (a : A) (rest : List Token)
    : Type 0 where
  position : ℕ
  pub runs : o ≡ some (ok (a, record { rest = rest; position = position }))

Reads-bind :
    {A B : Type 0} {a : A} {b : B} {r t : List Token} {s : State} (p : P A) (f : A → P B)
    → Reads (p s) a r
    → ((n : ℕ) → Reads (f a (record { rest = r; position = n })) b t)
    → Reads ((p >>= f) s) b t
Reads-bind p f h k = rw h.runs (k h.position)

unfoldable pub starts : Token → List Token → Bool
starts token [] = false
starts token (t ∷ ts) = same_token token t

Reads-if_next :
    {A : Type 0} {a : A} {t : List Token} (token : Token) (p q : P A) (ts : List Token) (n : ℕ)
    → starts token ts ≡ false
    → Reads (q (record { rest = ts; position = n })) a t
    → Reads (if_next token p q (record { rest = ts; position = n })) a t
unfolding starts consume_from
Reads-if_next token p q [] n h k = k
Reads-if_next token p q (t ∷ ts) n h k = rw h k

pub done :
    {A : Type 0} (a : A) (rest : List Token) (n : ℕ)
    → Reads (some (ok (a, record { rest = rest; position = n }))) a rest
done a rest n = record { position = n; runs = refl }

-- What a step of each loop and of each level reads, from what its parts read.
module _ {e : QueryExpr} {es : Exprs} {r t : List Token} (f : ℕ) where
  pub and_level :
      (s : State)
      → Reads (parse_unary f s) e r
      → ((n : ℕ) → Reads (and_rest f (record { rest = r; position = n })) es t)
      → Reads (parse_and (suc f) s) (and_of e es) t
  unfolding parse_and
  and_level s h k =
      Reads-bind (parse_unary f) _ h (λ n. Reads-bind (and_rest f) _ (k n) (λ m. done _ t m))

  pub or_level :
      (s : State)
      → Reads (parse_and f s) e r
      → ((n : ℕ) → Reads (or_rest f (record { rest = r; position = n })) es t)
      → Reads (parse_or (suc f) s) (or_of e es) t
  unfolding parse_or
  or_level s h k =
      Reads-bind (parse_and f) _ h (λ n. Reads-bind (or_rest f) _ (k n) (λ m. done _ t m))

  pub and_more :
      (ts : List Token) (n : ℕ)
      → Reads (parse_unary f (record { rest = ts; position = n + 1 })) e r
      → ((n : ℕ) → Reads (and_rest f (record { rest = r; position = n })) es t)
      → Reads (and_rest (suc f) (record { rest = Token.and ∷ ts; position = n })) (cons e es) t
  unfolding and_rest consume_from
  and_more ts n h k =
      Reads-bind (parse_unary f) _ h (λ n. Reads-bind (and_rest f) _ (k n) (λ m. done _ t m))

  pub or_more :
      (ts : List Token) (n : ℕ)
      → Reads (parse_and f (record { rest = ts; position = n + 1 })) e r
      → ((n : ℕ) → Reads (or_rest f (record { rest = r; position = n })) es t)
      → Reads (or_rest (suc f) (record { rest = Token.or ∷ ts; position = n })) (cons e es) t
  unfolding or_rest consume_from
  or_more ts n h k =
      Reads-bind (parse_and f) _ h (λ n. Reads-bind (or_rest f) _ (k n) (λ m. done _ t m))

pub no_and :
    (f : ℕ) (rest : List Token) (n : ℕ)
    → starts Token.and rest ≡ false
    → Reads (and_rest (suc f) (record { rest = rest; position = n })) nil rest
unfolding and_rest
no_and f rest n a = Reads-if_next Token.and _ (pure nil) rest n a (done nil rest n)

pub no_or :
    (f : ℕ) (rest : List Token) (n : ℕ)
    → starts Token.or rest ≡ false
    → Reads (or_rest (suc f) (record { rest = rest; position = n })) nil rest
unfolding or_rest
no_or f rest n a = Reads-if_next Token.or _ (pure nil) rest n a (done nil rest n)

-- An operand alone, as a conjunction of one.
pub alone :
    {e : QueryExpr} (ts rest : List Token) (f n : ℕ)
    → starts Token.and rest ≡ false
    → Reads (parse_unary (suc f) (record { rest = ts; position = n })) e rest
    → Reads (parse_and (suc (suc f)) (record { rest = ts; position = n })) e rest
unfolding and_of
alone ts rest f n a h = and_level (suc f) _ h (λ m. no_and f rest m a)

pub parens :
    (e : QueryExpr) (ts rest : List Token) (f n : ℕ)
    → Reads (parse_or f (record { rest = ts; position = n + 1 })) e (Token.rparen ∷ rest)
    → Reads (parse_unary (suc f) (record { rest = Token.lparen ∷ ts; position = n })) e rest
unfolding parse_unary consume_from
parens e ts rest f n h = Reads-bind (parse_or f) _ h (λ m. done e rest (m + 1))

pub negated :
    (e : QueryExpr) (ts rest : List Token) (f n : ℕ)
    → Reads (parse_unary f (record { rest = ts; position = n + 1 })) e rest
    → Reads
        (parse_unary (suc f) (record { rest = Token.not ∷ ts; position = n }))
        (QueryExpr.not_ e)
        rest
unfolding parse_unary consume_from
negated e ts rest f n h = Reads-bind (parse_unary f) _ h (λ m. done (QueryExpr.not_ e) rest m)
