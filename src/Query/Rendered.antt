-- ===== src/Query/Rendered.antt =====
-- The lexer reads rendered tokens back, whatever characters their words have.
use luck_editor.Prelude.{
  ℕ, ◌-◌, ◌≤◌, ◌==◌, Bool, true, false, ◌||◌, List, [], ◌∷◌, ◌++◌, some, length, length-append,
  append-nil, append_assoc, ◌≡◌, refl, sym, ◌∙◌, ap, arith, Bool-cases, inl, inr, list_ord, nat_ord,
  cmp_list,
}
use luck_editor.Text.{Text, txt, len, to_ascii_lowercase, lower, is_whitespace}
use luck_editor.Errors.{ok}
use luck_editor.Query.{Token, bslash, read_quoted, read_word, keyword, push, lex, tokenize}
use luck_editor.Query.Printer.{escape, token_text, render}

-- Characters that an inner loop has taken are passed over.
lex_skip : (total : ℕ) (a b : Text) → lex total (length a) (a ++ b) ≡ lex total 0 b
unfolding lex
lex_skip total [] b = refl
lex_skip total (c ∷ a) b = lex_skip total a b

lex_taken :
    (total : ℕ) (a b t : Text) → t ≡ a ++ b → lex total (length t - length b) t ≡ lex total 0 b
lex_taken total a b t e =
    let n : length (a ++ b) - length b ≡ length a = omega (arith, length-append a b) in
    rw e (rw n (lex_skip total a b))

-- A character that is neither the quote nor a backslash is kept.
read_quoted-plain :
    (c : ℕ) (value t : Text)
    → (c == b'"') ≡ false
    → (c == bslash) ≡ false
    → 1 ≤ length t
    → read_quoted b'"' value (c ∷ t) ≡ read_quoted b'"' (value ++ (c ∷ [])) t
unfolding read_quoted
read_quoted-plain c value [] q b h = absurd (omega arith)
read_quoted-plain c value (d ∷ t) q b h = rw (q, b) refl

or_false : (a b : Bool) → (a || b) ≡ false → (a ≡ false) × (b ≡ false)
or_false false b h = (refl, h)
or_false true b h = absurd cc

read_quoted-escape :
    (w value rest : Text)
    → read_quoted b'"' value (escape w ++ (b'"' ∷ b' ' ∷ rest)) ≡ some (value ++ w, b' ' ∷ rest)
unfolding read_quoted escape
read_quoted-escape [] value rest = rw (append-nil value) refl
read_quoted-escape (c ∷ w) value rest =
    let later = read_quoted-escape w (value ++ (c ∷ [])) rest in
    let joined : (value ++ (c ∷ [])) ++ w ≡ value ++ (c ∷ w) = append_assoc value (c ∷ []) w in
    elim (Bool-cases (c == b'"' || c == bslash)) [
      | inl e ↦ rw e (later ∙ ap (λ x. some (x, b' ' ∷ rest)) joined)
      | inr e ↦
          let (q, b) = or_false (c == b'"') (c == bslash) e in
          rw e (
            read_quoted-plain c value _ q b
              (omega (arith, length-append (escape w) (b'"' ∷ b' ' ∷ rest)))
            ∙ later
            ∙ ap (λ x. some (x, b' ' ∷ rest)) joined)
    ]

lex-token_text :
    (total : ℕ) (t : Token) (rest : Text)
    → lex total 0 (token_text t (b' ' ∷ rest)) ≡ push t (lex total 0 rest)
unfolding lex token_text is_whitespace read_word keyword to_ascii_lowercase lower cmp_list
lex-token_text total (Token.word w) rest = rw (read_quoted-escape w [] rest) (
    rw
      (lex_taken total (escape w ++ (b'"' ∷ [])) (b' ' ∷ rest) _
        (sym (append_assoc (escape w) (b'"' ∷ []) (b' ' ∷ rest))))
      refl)
lex-token_text total Token.colon rest = refl
lex-token_text total Token.lparen rest = refl
lex-token_text total Token.rparen rest = refl
lex-token_text total Token.and rest =
    rw (lex_taken total (txt "nd") (b' ' ∷ rest) (b'n' ∷ b'd' ∷ b' ' ∷ rest) refl) refl
lex-token_text total Token.or rest =
    rw (lex_taken total (txt "r") (b' ' ∷ rest) (b'r' ∷ b' ' ∷ rest) refl) refl
lex-token_text total Token.not rest =
    rw (lex_taken total (txt "ot") (b' ' ∷ rest) (b'o' ∷ b't' ∷ b' ' ∷ rest) refl) refl

lex-render : (total : ℕ) (ts : List Token) → lex total 0 (render ts) ≡ ok ts
unfolding lex render
lex-render total [] = refl
lex-render total (t ∷ ts) = rw (lex-token_text total t (render ts)) (rw (lex-render total ts) refl)

-- The rendered tokens are lexed back to the same tokens.
pub tokenize-render : (ts : List Token) → tokenize (render ts) ≡ ok ts
unfolding tokenize
tokenize-render ts = lex-render (len (render ts)) ts
