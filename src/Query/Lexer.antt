-- ===== src/Query/Lexer.antt =====
-- `tokenize`. An inner loop returns what it read and the characters behind it; the outer loop goes
-- over the characters, and passes over those that an inner loop has taken.
use luck_editor.Prelude.{
  ℕ, zero, suc, ◌-◌, ◌||◌, ◌==◌, Bool, if◌then◌else◌, List, [], ◌∷◌, ◌++◌, Option, none, some,
  length, ◌=?◌, list_ord, nat_ord,
}
use luck_editor.Text.{Text, txt, len, is_whitespace, to_ascii_lowercase}
use luck_editor.Errors.{Result, ok, err, ◌>>=◌, LuckError, msg}
use luck_editor.Query.Syntax.{Token}

abbrev pub bslash : ℕ
bslash = 0x5c

-- The loop over a quoted string: its value and what follows it, or none if it is not closed.
unfoldable pub read_quoted : ℕ → Text → Text → Option (Text × Text)
read_quoted quote value [] = none
read_quoted quote value (c ∷ []) = if c == quote then some (value, []) else none
read_quoted quote value (c ∷ d ∷ t) =
    let escaped = read_quoted quote (value ++ (d ∷ [])) t in
    let pushed = read_quoted quote (value ++ (c ∷ [])) (d ∷ t) in
    if c == quote then some (value, d ∷ t) else if c == bslash then escaped else pushed

abbrev pub ends_word : ℕ → Bool
ends_word c = is_whitespace c || (c == b':' || (c == b'(' || c == b')'))

-- The loop over a word.
unfoldable pub read_word : Text → Text → Text × Text
read_word word [] = (word, [])
read_word word (c ∷ t) =
    let rest = read_word (word ++ (c ∷ [])) t in if ends_word c then (word, c ∷ t) else rest

unfoldable pub keyword : Text → Token
keyword word =
    if to_ascii_lowercase word =? txt "and"
    then Token.and
    else if to_ascii_lowercase word =? txt "or"
    then Token.or
    else if to_ascii_lowercase word =? txt "not"
    then Token.not
    else Token.word word

abbrev pub push : Token → Result (List Token) → Result (List Token)
push token rest = rest >>= λ tokens. ok (token ∷ tokens)

-- The outer loop, with the bytes of the whole input and the number of characters to pass over.
unfoldable pub lex : ℕ → ℕ → Text → Result (List Token)
unfolding read_quoted read_word keyword
lex total skip [] = ok []
lex total (suc skip) (c ∷ t) = lex total skip t
lex total zero (c ∷ t) =
    let spaced = lex total 0 t in
    let quoted : Result (List Token) = elim (read_quoted c [] t) [
      | none ↦ err (LuckError.query (total - len (c ∷ t)) (msg "unterminated quoted string"))
      | some (value, rest) ↦ push (Token.word value) (lex total (length t - length rest) t)
    ] in
    let found = read_word (c ∷ []) t in
    let worded = push (keyword found.0) (lex total (length t - length found.1) t) in
    if is_whitespace c
    then spaced
    else if c == b':'
    then push Token.colon spaced
    else if c == b'('
    then push Token.lparen spaced
    else if c == b')'
    then push Token.rparen spaced
    else if c == b'"' || c == 0x27
    then quoted
    else worded

unfoldable pub tokenize : Text → Result (List Token)
unfolding lex
tokenize input = lex (len input) 0 input
