-- ===== src/Serializing/Breaks.antt =====
-- Line breaks in the text of a header.
use luck_editor.Prelude.{
  ℕ, List, [], ◌∷◌, ◌++◌, Bool, false, ◌||◌, ◌==◌, any, map, ◌≡◌, refl, ◌∙◌, ap, arith, Bool-cases,
  inl, inr,
}
use mathlib.Core.Bool.{or-false}
use luck_editor.Text.{Text, txt, join, join_tail}
use luck_editor.Model.{Cookie, CookieCollection}
use luck_editor.Serializing.{replace_any, serialize_header, pair_text}

abbrev break_characters : List ℕ
break_characters = 0x0d ∷ 0x0a ∷ []

-- The text has a carriage return or a line feed.
unfoldable pub breaks : Text → Bool
breaks t = any (λ c. any (λ x. c == x) break_characters) t

breaks-append : (s t : Text) → breaks (s ++ t) ≡ (breaks s || breaks t)
unfolding breaks
breaks-append [] t = refl
breaks-append (c ∷ s) t = ground (arith, breaks-append s t)

breaks-replace_any : (t : Text) → breaks (replace_any break_characters [] t) ≡ false
unfolding breaks replace_any
breaks-replace_any [] = refl
breaks-replace_any (c ∷ t) = elim (Bool-cases (any (λ x. c == x) break_characters)) [
  | inl e ↦ rw e (breaks-replace_any t)
  | inr e ↦ rw e (rw e (breaks-replace_any t))
]

-- The pair of a cookie in the header.
abbrev sanitized_pair : Cookie → Text
sanitized_pair c = pair_text c (replace_any break_characters [] c.value)

either : {a b c d : Bool} → a ≡ b → c ≡ d → (a || c) ≡ (b || d)
either {a} {b} {c} {d} h k = rw (h, k) refl

-- The literals of a header have no line break.
breaks-equals : (t : Text) → breaks (txt "=" ++ t) ≡ breaks t
unfolding breaks
breaks-equals t = refl

breaks-separator : (t : Text) → breaks (txt "; " ++ t) ≡ breaks t
unfolding breaks
breaks-separator t = refl

breaks-label : (t : Text) → breaks (txt "Cookie: " ++ t) ≡ breaks t
unfolding breaks
breaks-label t = refl

breaks-pair : (c : Cookie) → breaks (sanitized_pair c) ≡ breaks c.name
breaks-pair c =
    let value = replace_any break_characters [] c.value in
    breaks-append c.name (txt "=" ++ value)
    ∙ ap (◌||◌ (breaks c.name)) (breaks-equals value ∙ breaks-replace_any c.value)
    ∙ or-false (breaks c.name)

breaks-join_tail :
    (cs : CookieCollection)
    → breaks (join_tail (txt "; ") (map sanitized_pair cs)) ≡ any (λ c. breaks c.name) cs
unfolding join_tail breaks
breaks-join_tail [] = refl
breaks-join_tail (c ∷ cs) =
    let rest = join_tail (txt "; ") (map sanitized_pair cs) in
    breaks-separator (sanitized_pair c ++ rest)
    ∙ breaks-append (sanitized_pair c) rest
    ∙ either (breaks-pair c) (breaks-join_tail cs)

-- The text of a cookie header has a line break exactly if the name of a cookie has one: none comes
-- from a value.
pub breaks-serialize_header :
    (cs : CookieCollection) → breaks (serialize_header cs) ≡ any (λ c. breaks c.name) cs
unfolding serialize_header join breaks
breaks-serialize_header [] = refl
breaks-serialize_header (c ∷ cs) =
    let rest = join_tail (txt "; ") (map sanitized_pair cs) in
    breaks-label (sanitized_pair c ++ rest)
    ∙ breaks-append (sanitized_pair c) rest
    ∙ either (breaks-pair c) (breaks-join_tail cs)
