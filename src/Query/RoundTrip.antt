-- ===== src/Query/RoundTrip.antt =====
-- Parsing what was printed.
use luck_editor.Prelude.{
  ℕ, zero, suc, ◌+◌, ◌*◌, ◌≤◌, true, List, [], ◌∷◌, some, length, ◌≡◌, refl, arith,
}
use luck_editor.Errors.{ok}
use luck_editor.Query.{
  QueryExpr, Token, parse_or, or_of, fuel_for, start, default_query, parse_tokens, parse,
  parse_term, take_word_from, consume_from,
}
use luck_editor.Query.Printer.{printable, operand, print, render}
use luck_editor.Query.Reads.{Reads, starts, alone, or_level, no_or}
use luck_editor.Query.Operands.{operand_trip, and_trip, or_trip}
use luck_editor.Query.Rendered.{tokenize-render}

-- A single operand.
one_trip :
    (e : QueryExpr) (f : ℕ)
    → printable e ≡ true
    → 4 * length (operand e []) + 3 ≤ f
    → Reads (parse_or f (start (operand e []))) e []
unfolding or_of starts
one_trip e zero p h = absurd (omega arith)
one_trip e (suc zero) p h = absurd (omega arith)
one_trip e (suc (suc zero)) p h = absurd (omega arith)
one_trip e (suc (suc (suc f))) p h =
    or_level (suc (suc f)) _ (alone _ [] f 0 refl (operand_trip e [] (suc f) 0 p (omega arith)))
      (λ m. no_or (suc f) [] m refl)

print_trip :
    (e : QueryExpr) (f : ℕ)
    → printable e ≡ true
    → 4 * length (print e) + 3 ≤ f
    → Reads (parse_or f (start (print e))) e []
unfolding print printable starts operand
print_trip (QueryExpr.and_ es) f p h = and_trip es [] f 0 p refl refl h
print_trip (QueryExpr.or_ es) f p h = or_trip es [] f 0 p refl refl h
print_trip e f p h = one_trip e f p h

parse_tokens-Reads :
    (e : QueryExpr) (ts : List Token)
    → Reads (parse_or (fuel_for ts) (start ts)) e []
    → parse_tokens ts ≡ some (ok (record default_query { expression = e }))
unfolding parse_tokens parse_or parse_term take_word_from consume_from
parse_tokens-Reads e [] r = absurd (let h = r.runs in cc)
parse_tokens-Reads e (t ∷ ts) r = rw r.runs refl

-- An expression that has a text is parsed back from its rendered tokens, as the expression of a query
-- with the default order and page. This holds whatever characters its words have, and however its
-- operators are nested.
pub parse-render :
    (e : QueryExpr)
    → printable e ≡ true
    → parse (render (print e)) ≡ ok (record default_query { expression = e })
unfolding parse
parse-render e p =
    rw (tokenize-render (print e))
      (rw (parse_tokens-Reads e (print e) (print_trip e (fuel_for (print e)) p (omega arith))) refl)
