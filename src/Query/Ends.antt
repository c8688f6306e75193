-- ===== src/Query/Ends.antt =====
-- The fuel of the parser is enough: every call ends, and a call that succeeds has moved on.
use luck_editor.Prelude.{
  ℕ, zero, suc, ◌+◌, ◌*◌, ◌≤◌, Bool, true, false, if◌then◌else◌, List, [], ◌∷◌, Option, some,
  length, ◌≡◌, refl, arith, is_empty, Bool-cases, inl, inr, ◌=?◌, list_ord, nat_ord, ◌||◌,
}
use luck_editor.Model.{from_label}
use luck_editor.Text.{Text, txt, to_ascii_lowercase}
use luck_editor.Errors.{Result, ok, err, LuckError}
use luck_editor.Query.{
  QueryExpr, CookieQuery, Token, nil, cons, State, P, pure, and_then, ◌>>=◌, same_token,
  consume_from, take_word_from, take_word, parse_bool, with_bool, field_term, parse_term, if_next,
  parse_or, or_rest, parse_and, and_rest, parse_unary, start, finish, query_of, fuel_for,
  parse_tokens,
}

-- The run kept within its fuel, and `Q` holds of the state behind it if it succeeded.
pub data Ends {A : Type 0} (Q : State → Type 0) : Option (Result (A × State)) → Type 0 where
  returns : {a : A} {s : State} → Q s → Ends Q (some (ok (a, s)))
  fails : {e : LuckError} → Ends Q (some (err e))

-- From `s` at least `n` tokens were taken, and the position counts them.
pub record After (n : ℕ) (s t : State) : Type 0 where
  pub shorter : length t.rest + n ≤ length s.rest
  pub counted : t.position + length t.rest ≡ s.position + length s.rest

After-trans : (m n : ℕ) (s t u : State) → After m s t → After n t u → After (m + n) s u
After-trans m n s t u a b = record {
  shorter = omega (arith, a.shorter, b.shorter);
  counted = omega (arith, a.counted, b.counted);
}

After-le : (m n : ℕ) (s t : State) → m ≤ n → After n s t → After m s t
After-le m n s t h a = record { shorter = omega (arith, a.shorter); counted = a.counted }

Ends-imp :
    {A : Type 0} {Q R : State → Type 0} {r : Option (Result (A × State))}
    → ((s : State) → Q s → R s)
    → Ends Q r
    → Ends R r
Ends-imp f (returns {a} {s} h) = returns (f s h)
Ends-imp f fails = fails

Ends-bind :
    {A B : Type 0} {Q R : State → Type 0} (p : P A) (f : A → P B) (s : State)
    → Ends Q (p s)
    → ((a : A) (t : State) → Q t → Ends R (f a t))
    → Ends R ((p >>= f) s)
Ends-bind {A} {B} {Q} {R} p f s h k = go (p s) h
  where
    go : (r : Option (Result (A × State))) → Ends Q r → Ends R (and_then r f)
    go _ (returns {a} {s = t} q) = k a t q
    go _ fails = fails

consume-After :
    (token : Token) (ts : List Token) (n : ℕ)
    → ((consume_from token ts n).0 ≡ true
        → After 1 (record { rest = ts; position = n }) (consume_from token ts n).1)
      × ((consume_from token ts n).0 ≡ false
          → (consume_from token ts n).1 ≡ record { rest = ts; position = n })
unfolding consume_from
consume-After token [] n = (λ h. cc, λ h. refl)
consume-After token (t ∷ ts) n = elim (Bool-cases (same_token token t)) [
  | inl e ↦ rw e (λ h. record { shorter = omega arith; counted = omega arith }, λ h. cc)
  | inr e ↦ rw e (λ h. cc, λ h. refl)
]

Ends-if_next :
    {A : Type 0} {R : State → Type 0} (token : Token) (p q : P A) (s : State)
    → ((t : State) → After 1 s t → Ends R (p t))
    → Ends R (q s)
    → Ends R (if_next token p q s)
Ends-if_next {A} {R} token p q s h k =
    let (taken, kept) = consume-After token s.rest s.position in
    go (consume_from token s.rest s.position) taken kept
  where
    go :
        (r : Bool × State)
        → (r.0 ≡ true → After 1 s r.1)
        → (r.0 ≡ false → r.1 ≡ s)
        → Ends R ((if r.0 then p else q) r.1)
    go (true, t) a b = h t (a refl)
    go (false, t) a b = rw (b refl) k

take_word-Ends : (s : State) → Ends (After 1 s) (take_word s)
unfolding take_word_from
take_word-Ends s = go s.rest s.position
  where
    go :
        (ts : List Token) (n : ℕ)
        → Ends (After 1 (record { rest = ts; position = n })) (take_word_from ts n)
    go (Token.word w ∷ ts) n = returns (record { shorter = omega arith; counted = omega arith })
    go _ n = fails

After-refl : (s : State) → After 0 s s
After-refl s = record { shorter = omega arith; counted = refl }

-- Nothing is taken on the way.
record Stays (p : P QueryExpr) : Type 0 where
  stays : (s : State) → Ends (After 0 s) (p s)

pure-Stays : (e : QueryExpr) → Stays (pure e)
pure-Stays e = record { stays = λ s. returns (After-refl s) }

with_bool-Stays : (make : Bool → QueryExpr) (r : Result Bool) → Stays (with_bool make r)
with_bool-Stays make (ok b) = record { stays = λ s. returns (After-refl s) }
with_bool-Stays make (err e) = record { stays = λ s. fails }

Stays-if : (b : Bool) {p q : P QueryExpr} → Stays p → Stays q → Stays (if b then p else q)
Stays-if true h k = h
Stays-if false h k = k

field_term-Stays : (field value : Text) → Stays (field_term field value)
unfolding field_term
field_term-Stays field value =
    let name = to_ascii_lowercase field in
    Stays-if (name =? txt "name") (pure-Stays (QueryExpr.name_contains value)) (
      Stays-if (name =? txt "value") (pure-Stays (QueryExpr.value_contains value)) (
        Stays-if (name =? txt "domain") (pure-Stays (QueryExpr.domain_matches value)) (
          Stays-if (name =? txt "path") (pure-Stays (QueryExpr.path_prefix value)) (
            Stays-if (name =? txt "secure") (with_bool-Stays QueryExpr.secure (parse_bool value)) (
              Stays-if (name =? txt "httponly" || name =? txt "http_only")
                (with_bool-Stays QueryExpr.http_only (parse_bool value))
                (Stays-if (name =? txt "session")
                  (with_bool-Stays QueryExpr.session (parse_bool value))
                  (Stays-if (name =? txt "expired")
                    (with_bool-Stays QueryExpr.expired (parse_bool value))
                    (Stays-if (name =? txt "samesite" || name =? txt "same_site")
                      (pure-Stays (QueryExpr.same_site (from_label value)))
                      (record { stays = λ s. fails })))))))))

parse_term-Ends : (s : State) → Ends (After 1 s) (parse_term s)
unfolding parse_term
parse_term-Ends s = Ends-bind take_word _ s (take_word-Ends s) (λ field t a.
    Ends-if_next Token.colon (take_word >>= λ value. field_term field value) _ t
      (λ u b. Ends-bind take_word _ u (take_word-Ends u) (λ value v c.
        Ends-imp
          (λ w d. After-le 1 (1 + (1 + (1 + 0))) s w (omega arith) (
            After-trans 1 (1 + (1 + 0)) s t w a
              (After-trans 1 (1 + 0) t u w b (After-trans 1 0 u v w c d))))
          ((field_term-Stays field value).stays v)))
      (returns a))

-- One induction on the fuel, for the five functions.
mutual
  unfolding parse_or

  parse_or-Ends : (f : ℕ) (s : State) → 4 * length s.rest + 3 ≤ f → Ends (After 1 s) (parse_or f s)
  parse_or-Ends zero s h = absurd (omega arith)
  parse_or-Ends (suc f) s h =
      Ends-bind (parse_and f) _ s (parse_and-Ends f s (omega arith)) (λ e t a.
        Ends-bind (or_rest f) _ t (or_rest-Ends f t (omega (arith, a.shorter)))
          (λ es u b. returns (After-trans 1 0 s t u a b)))

  or_rest-Ends : (f : ℕ) (s : State) → 4 * length s.rest + 1 ≤ f → Ends (After 0 s) (or_rest f s)
  or_rest-Ends zero s h = absurd (omega arith)
  or_rest-Ends (suc f) s h =
      Ends-if_next Token.or (parse_and f >>= λ e. or_rest f >>= λ es. pure (cons e es)) (pure nil) s
        (λ t a.
          Ends-bind (parse_and f) _ t (parse_and-Ends f t (omega (arith, a.shorter))) (λ e u b.
            Ends-bind (or_rest f) _ u (or_rest-Ends f u (omega (arith, a.shorter, b.shorter)))
              (λ es v c. returns (
                After-le 0 (1 + (1 + 0)) s v (omega arith)
                  (After-trans 1 (1 + 0) s t v a (After-trans 1 0 t u v b c))))))
        (returns (After-refl s))

  parse_and-Ends :
      (f : ℕ) (s : State) → 4 * length s.rest + 2 ≤ f → Ends (After 1 s) (parse_and f s)
  parse_and-Ends zero s h = absurd (omega arith)
  parse_and-Ends (suc f) s h =
      Ends-bind (parse_unary f) _ s (parse_unary-Ends f s (omega arith)) (λ e t a.
        Ends-bind (and_rest f) _ t (and_rest-Ends f t (omega (arith, a.shorter)))
          (λ es u b. returns (After-trans 1 0 s t u a b)))

  and_rest-Ends : (f : ℕ) (s : State) → 4 * length s.rest + 1 ≤ f → Ends (After 0 s) (and_rest f s)
  and_rest-Ends zero s h = absurd (omega arith)
  and_rest-Ends (suc f) s h =
      Ends-if_next Token.and (parse_unary f >>= λ e. and_rest f >>= λ es. pure (cons e es))
        (pure nil) s
        (λ t a.
          Ends-bind (parse_unary f) _ t (parse_unary-Ends f t (omega (arith, a.shorter))) (λ e u b.
            Ends-bind (and_rest f) _ u (and_rest-Ends f u (omega (arith, a.shorter, b.shorter)))
              (λ es v c. returns (
                After-le 0 (1 + (1 + 0)) s v (omega arith)
                  (After-trans 1 (1 + 0) s t v a (After-trans 1 0 t u v b c))))))
        (returns (After-refl s))

  parse_unary-Ends :
      (f : ℕ) (s : State) → 4 * length s.rest + 1 ≤ f → Ends (After 1 s) (parse_unary f s)
  parse_unary-Ends zero s h = absurd (omega arith)
  parse_unary-Ends (suc f) s h =
      Ends-if_next Token.not (parse_unary f >>= λ e. pure (QueryExpr.not_ e)) _ s
        (λ t a.
          Ends-bind (parse_unary f) _ t (parse_unary-Ends f t (omega (arith, a.shorter)))
            (λ e u b. returns (After-le 1 (1 + 1) s u (omega arith) (After-trans 1 1 s t u a b))))
        (Ends-if_next Token.lparen _ parse_term s
          (λ t a.
            Ends-bind (parse_or f) _ t (parse_or-Ends f t (omega (arith, a.shorter))) (λ e u b.
              Ends-if_next Token.rparen (pure e) _ u
                (λ v c. returns (
                  After-le 1 (1 + (1 + 1)) s v (omega arith)
                    (After-trans 1 (1 + 1) s t v a (After-trans 1 1 t u v b c))))
                fails))
          (parse_term-Ends s))

finished :
    {Q : State → Type 0} (o : Option (Result (QueryExpr × State)))
    → Ends Q o
    → (r : Result CookieQuery) × (query_of (finish o) ≡ some r)
finished _ (returns {a = e} {s} h) = elim (Bool-cases (is_empty s.rest)) [
  | inl b ↦ rw b (_, refl)
  | inr b ↦ rw b (_, refl)
]
finished _ fails = (_, refl)

-- The parser returns a result for every list of tokens: the fuel that `parse_tokens` gives is enough
-- for the recursive descent, whatever the nesting of the parentheses.
pub parse_tokens-total :
    (tokens : List Token) → (r : Result CookieQuery) × (parse_tokens tokens ≡ some r)
unfolding parse_tokens
parse_tokens-total [] = (_, refl)
parse_tokens-total (t ∷ ts) =
    finished _ (parse_or-Ends (fuel_for (t ∷ ts)) (start (t ∷ ts)) (omega arith))
