-- ===== src/Query/Operands.antt =====
-- Printed expressions read back: every function of the parser takes exactly what was printed for it.
use luck_editor.Prelude.{
  ℕ, zero, suc, ◌+◌, ◌*◌, ◌≤◌, Bool, true, false, ◌&&◌, List, ◌∷◌, length, ◌≡◌, refl, arith,
  list_ord, nat_ord,
}
use luck_editor.Text.{txt}
use luck_editor.Model.{as_chrome_str}
use luck_editor.Query.{
  QueryExpr, Exprs, Token, nil, cons, or_of, and_of, parse_or, or_rest, and_rest, parse_unary,
}
use luck_editor.Query.Printer.{
  printable, printable_all, at_least_two, bool_text, operand, joined, joined_tail,
}
use luck_editor.Query.Reads.{
  Reads, starts, and_level, or_level, and_more, or_more, no_and, no_or, alone, parens, negated,
}
use luck_editor.Query.Fields.{
  name_term, value_term, domain_term, path_term, secure_term, http_only_term, session_term,
  expired_term, same_site_term, term_trip,
}

mutual
  unfolding operand

  length-operand : (e : QueryExpr) (rest : List Token) → length rest ≤ length (operand e rest)
  length-operand QueryExpr.true_ rest = omega arith
  length-operand (QueryExpr.name_contains v) rest = omega arith
  length-operand (QueryExpr.value_contains v) rest = omega arith
  length-operand (QueryExpr.domain_matches v) rest = omega arith
  length-operand (QueryExpr.path_prefix v) rest = omega arith
  length-operand (QueryExpr.secure b) rest = omega arith
  length-operand (QueryExpr.http_only b) rest = omega arith
  length-operand (QueryExpr.session b) rest = omega arith
  length-operand (QueryExpr.same_site b) rest = omega arith
  length-operand (QueryExpr.expired b) rest = omega arith
  length-operand (QueryExpr.and_ nil) rest = omega arith
  length-operand (QueryExpr.and_ (cons e es)) rest = omega (
    arith,
    length-operand e (joined_tail Token.and es (Token.rparen ∷ rest)),
    length-joined_tail Token.and es (Token.rparen ∷ rest),
  )
  length-operand (QueryExpr.or_ nil) rest = omega arith
  length-operand (QueryExpr.or_ (cons e es)) rest = omega (
    arith,
    length-operand e (joined_tail Token.or es (Token.rparen ∷ rest)),
    length-joined_tail Token.or es (Token.rparen ∷ rest),
  )
  length-operand (QueryExpr.not_ e) rest = omega (arith, length-operand e rest)

  length-joined_tail :
      (token : Token) (es : Exprs) (rest : List Token)
      → length rest ≤ length (joined_tail token es rest)
  length-joined_tail token nil rest = omega arith
  length-joined_tail token (cons e es) rest =
      omega (arith, length-operand e (joined_tail token es rest), length-joined_tail token es rest)

and_left : (a b : Bool) → (a && b) ≡ true → a ≡ true
and_left true b h = refl
and_left false b h = absurd cc

and_right : (a b : Bool) → (a && b) ≡ true → b ≡ true
and_right true b h = h
and_right false b h = absurd cc

-- No conjunction goes on behind the operands of a disjunction.
tail_starts :
    (es : Exprs) (rest : List Token)
    → starts Token.and rest ≡ false
    → starts Token.and (joined_tail Token.or es rest) ≡ false
unfolding starts operand
tail_starts nil rest a = a
tail_starts (cons e es) rest a = refl

-- One induction on the expression, for the operands, the conjunctions and the disjunctions.
mutual
  unfolding operand printable starts and_of or_of

  pub operand_trip :
      (e : QueryExpr) (rest : List Token) (f n : ℕ)
      → printable e ≡ true
      → 4 * length (operand e rest) + 1 ≤ f
      → Reads (parse_unary f (record { rest = operand e rest; position = n })) e rest
  operand_trip (QueryExpr.name_contains v) rest zero n p h = absurd (omega arith)
  operand_trip (QueryExpr.name_contains v) rest (suc f) n p h =
      term_trip (txt "name") v (QueryExpr.name_contains v) rest f n (name_term v)
  operand_trip (QueryExpr.value_contains v) rest zero n p h = absurd (omega arith)
  operand_trip (QueryExpr.value_contains v) rest (suc f) n p h =
      term_trip (txt "value") v (QueryExpr.value_contains v) rest f n (value_term v)
  operand_trip (QueryExpr.domain_matches v) rest zero n p h = absurd (omega arith)
  operand_trip (QueryExpr.domain_matches v) rest (suc f) n p h =
      term_trip (txt "domain") v (QueryExpr.domain_matches v) rest f n (domain_term v)
  operand_trip (QueryExpr.path_prefix v) rest zero n p h = absurd (omega arith)
  operand_trip (QueryExpr.path_prefix v) rest (suc f) n p h =
      term_trip (txt "path") v (QueryExpr.path_prefix v) rest f n (path_term v)
  operand_trip (QueryExpr.secure b) rest zero n p h = absurd (omega arith)
  operand_trip (QueryExpr.secure b) rest (suc f) n p h =
      term_trip (txt "secure") (bool_text b) (QueryExpr.secure b) rest f n (secure_term b)
  operand_trip (QueryExpr.http_only b) rest zero n p h = absurd (omega arith)
  operand_trip (QueryExpr.http_only b) rest (suc f) n p h =
      term_trip (txt "httponly") (bool_text b) (QueryExpr.http_only b) rest f n (http_only_term b)
  operand_trip (QueryExpr.session b) rest zero n p h = absurd (omega arith)
  operand_trip (QueryExpr.session b) rest (suc f) n p h =
      term_trip (txt "session") (bool_text b) (QueryExpr.session b) rest f n (session_term b)
  operand_trip (QueryExpr.expired b) rest zero n p h = absurd (omega arith)
  operand_trip (QueryExpr.expired b) rest (suc f) n p h =
      term_trip (txt "expired") (bool_text b) (QueryExpr.expired b) rest f n (expired_term b)
  operand_trip (QueryExpr.same_site v) rest zero n p h = absurd (omega arith)
  operand_trip (QueryExpr.same_site v) rest (suc f) n p h =
      term_trip (txt "samesite") (as_chrome_str v) (QueryExpr.same_site v) rest f n
        (same_site_term v)
  operand_trip QueryExpr.true_ rest f n p h = absurd cc
  operand_trip (QueryExpr.and_ es) rest zero n p h = absurd (omega arith)
  operand_trip (QueryExpr.and_ es) rest (suc f) n p h =
      parens (QueryExpr.and_ es) _ rest f n
        (and_trip es (Token.rparen ∷ rest) f (n + 1) p refl refl (omega arith))
  operand_trip (QueryExpr.or_ es) rest zero n p h = absurd (omega arith)
  operand_trip (QueryExpr.or_ es) rest (suc f) n p h =
      parens (QueryExpr.or_ es) _ rest f n
        (or_trip es (Token.rparen ∷ rest) f (n + 1) p refl refl (omega arith))
  operand_trip (QueryExpr.not_ e) rest zero n p h = absurd (omega arith)
  operand_trip (QueryExpr.not_ e) rest (suc f) n p h =
      negated e _ rest f n (operand_trip e rest f (n + 1) p (omega arith))

  pub and_trip :
      (es : Exprs) (rest : List Token) (f n : ℕ)
      → (at_least_two es && printable_all es) ≡ true
      → starts Token.and rest ≡ false
      → starts Token.or rest ≡ false
      → 4 * length (joined Token.and es rest) + 3 ≤ f
      → Reads
          (parse_or f (record { rest = joined Token.and es rest; position = n }))
          (QueryExpr.and_ es)
          rest
  and_trip nil rest f n p a o h = absurd cc
  and_trip (cons e nil) rest f n p a o h = absurd cc
  and_trip (cons e (cons d es)) rest zero n p a o h = absurd (omega arith)
  and_trip (cons e (cons d es)) rest (suc zero) n p a o h = absurd (omega arith)
  and_trip (cons e (cons d es)) rest (suc (suc f)) n p a o h =
      or_level (suc f) _
        (and_level f _ (operand_trip e _ f n (and_left _ _ p) (omega arith)) (λ m.
          and_rest_trip (cons d es) rest f m (and_right (printable e) _ p) a
            (omega (arith, length-operand e (joined_tail Token.and (cons d es) rest)))))
        (λ m. no_or f rest m o)

  and_rest_trip :
      (es : Exprs) (rest : List Token) (f n : ℕ)
      → printable_all es ≡ true
      → starts Token.and rest ≡ false
      → 4 * length (joined_tail Token.and es rest) + 1 ≤ f
      → Reads (and_rest f (record { rest = joined_tail Token.and es rest; position = n })) es rest
  and_rest_trip nil rest zero n p a h = absurd (omega arith)
  and_rest_trip nil rest (suc f) n p a h = no_and f rest n a
  and_rest_trip (cons e es) rest zero n p a h = absurd (omega arith)
  and_rest_trip (cons e es) rest (suc f) n p a h =
      and_more f _ n (operand_trip e _ f (n + 1) (and_left _ _ p) (omega arith)) (λ m.
        and_rest_trip es rest f m (and_right (printable e) _ p) a
          (omega (arith, length-operand e (joined_tail Token.and es rest))))

  pub or_trip :
      (es : Exprs) (rest : List Token) (f n : ℕ)
      → (at_least_two es && printable_all es) ≡ true
      → starts Token.and rest ≡ false
      → starts Token.or rest ≡ false
      → 4 * length (joined Token.or es rest) + 3 ≤ f
      → Reads
          (parse_or f (record { rest = joined Token.or es rest; position = n }))
          (QueryExpr.or_ es)
          rest
  or_trip nil rest f n p a o h = absurd cc
  or_trip (cons e nil) rest f n p a o h = absurd cc
  or_trip (cons e (cons d es)) rest zero n p a o h = absurd (omega arith)
  or_trip (cons e (cons d es)) rest (suc zero) n p a o h = absurd (omega arith)
  or_trip (cons e (cons d es)) rest (suc (suc zero)) n p a o h = absurd (omega arith)
  or_trip (cons e (cons d es)) rest (suc (suc (suc f))) n p a o h =
      or_level (suc (suc f)) _
        (alone _ _ f n refl (operand_trip e _ (suc f) n (and_left _ _ p) (omega arith)))
        (λ m.
          or_rest_trip (cons d es) rest (suc (suc f)) m (and_right (printable e) _ p) a o
            (omega (arith, length-operand e (joined_tail Token.or (cons d es) rest))))

  or_rest_trip :
      (es : Exprs) (rest : List Token) (f n : ℕ)
      → printable_all es ≡ true
      → starts Token.and rest ≡ false
      → starts Token.or rest ≡ false
      → 4 * length (joined_tail Token.or es rest) + 1 ≤ f
      → Reads (or_rest f (record { rest = joined_tail Token.or es rest; position = n })) es rest
  or_rest_trip nil rest zero n p a o h = absurd (omega arith)
  or_rest_trip nil rest (suc f) n p a o h = no_or f rest n o
  or_rest_trip (cons e es) rest zero n p a o h = absurd (omega arith)
  or_rest_trip (cons e es) rest (suc zero) n p a o h = absurd (omega arith)
  or_rest_trip (cons e es) rest (suc (suc zero)) n p a o h = absurd (omega arith)
  or_rest_trip (cons e es) rest (suc (suc (suc f))) n p a o h =
      or_more (suc (suc f)) _ n
        (alone _ _ f (n + 1) (tail_starts es rest a)
          (operand_trip e _ (suc f) (n + 1) (and_left _ _ p) (omega arith)))
        (λ m.
          or_rest_trip es rest (suc (suc f)) m (and_right (printable e) _ p) a o
            (omega (arith, length-operand e (joined_tail Token.or es rest))))
