-- ===== src/Serializing/Quoting.antt =====
-- What a shell reads of a quoted text, and what a sanitized text has.
use luck_editor.Prelude.{
  ℕ, [], ◌∷◌, ◌++◌, Bool, ◌||◌, ◌==◌, if◌then◌else◌, Option, none, some, ◌≡◌, refl, sym, ap,
  Bool-cases, inl, inr, ==_iff,
}
use luck_editor.Text.{Text, txt}
use luck_editor.Serializing.{replace_char, apostrophe, shell_quote}

-- Where a shell stands in a word: outside quotes, in single or in double quotes.
pub data Quotes : Type 0 where
  outside single double : Quotes

-- The characters that double quotes do not protect.
abbrev special : ℕ → Bool
special c = c == 0x24 || (c == 0x60 || c == 0x5c)

abbrev push : ℕ → Option Text → Option Text
push c none = none
push c (some t) = some (c ∷ t)

-- The one word that a shell reads, by its rules for quotes: none for a character outside quotes, for
-- a special one in double quotes, and for quotes that are not closed.
unfoldable pub shell_word : Quotes → Text → Option Text
shell_word Quotes.outside [] = some []
shell_word Quotes.single [] = none
shell_word Quotes.double [] = none
shell_word Quotes.outside (c ∷ t) =
    let in_single = shell_word Quotes.single t in
    let in_double = shell_word Quotes.double t in
    if c == apostrophe then in_single else if c == b'"' then in_double else none
shell_word Quotes.single (c ∷ t) =
    let closed = shell_word Quotes.outside t in
    let more = push c (shell_word Quotes.single t) in if c == apostrophe then closed else more
shell_word Quotes.double (c ∷ t) =
    let closed = shell_word Quotes.outside t in
    let more = push c (shell_word Quotes.double t) in
    if c == b'"' then closed else if special c then none else more

shell_word-single :
    (value : Text)
    → shell_word Quotes.single (replace_char apostrophe (txt "'\"'\"'") value ++ txt "'")
      ≡ some value
unfolding shell_word replace_char
shell_word-single [] = refl
shell_word-single (c ∷ t) = elim (Bool-cases (c == apostrophe)) [
  | inl e ↦
      let same : apostrophe ≡ c = sym ((==_iff c apostrophe).0 e) in
      rw e (rw (shell_word-single t) (ap (λ x. some (x ∷ t)) same))
  | inr e ↦ rw e (rw e (rw (shell_word-single t) refl))
]

-- A shell reads a quoted text as one word, which is the text: whatever characters it has, nothing of
-- it stands outside quotes.
pub shell_word-shell_quote :
    (value : Text) → shell_word Quotes.outside (shell_quote value) ≡ some value
unfolding shell_quote shell_word
shell_word-shell_quote value = shell_word-single value
