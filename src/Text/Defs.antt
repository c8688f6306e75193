-- ===== src/Text/Defs.antt =====
-- The operations on texts.
use Prim.Native.Char.{code}
use Prim.Native.String.{String}
use luck_editor.Prelude.{
  ℕ, ◌+◌, List, [], ◌∷◌, ◌++◌, Bool, ◌&&◌, ◌||◌, ◌==◌, leb, ltb, if◌then◌else◌, map, reverse,
  Option, none, some, is_some,
}

abbrev pub Text : Type 0
Text = List ℕ

-- The text of a literal.
abbrev pub txt : String → Text
txt String.[] = []
txt (String.◌∷◌ c s) = code c ∷ txt s

-- The bytes that a character takes in UTF-8, and `str::len`.
unfoldable pub len_utf8 : ℕ → ℕ
len_utf8 c = if ltb c 0x80 then 1 else if ltb c 0x800 then 2 else if ltb c 0x10000 then 3 else 4

unfoldable pub len : Text → ℕ
unfolding len_utf8
len [] = 0
len (c ∷ t) = len_utf8 c + len t

-- `to_ascii_lowercase`
unfoldable pub lower : ℕ → ℕ
lower c = if leb b'A' c && leb c b'Z' then c + 32 else c

unfoldable pub to_ascii_lowercase : Text → Text
unfolding lower
to_ascii_lowercase = map lower

-- `char::is_whitespace`
unfoldable pub is_whitespace : ℕ → Bool
is_whitespace c =
    (leb 0x09 c && leb c 0x0d)
    || c == 0x20
    || c == 0x85
    || c == 0xa0
    || c == 0x1680
    || (leb 0x2000 c && leb c 0x200a)
    || c == 0x2028
    || c == 0x2029
    || c == 0x202f
    || c == 0x205f
    || c == 0x3000

unfoldable pub drop_while : (ℕ → Bool) → Text → Text
drop_while p [] = []
drop_while p (c ∷ t) = if p c then drop_while p t else c ∷ t

abbrev pub drop_end_while : (ℕ → Bool) → Text → Text
drop_end_while p t = reverse (drop_while p (reverse t))

-- `trim_start_matches` and `trim_end_matches` of a character
abbrev pub trim_start_matches : ℕ → Text → Text
trim_start_matches x = drop_while (λ c. c == x)

abbrev pub trim_end_matches : ℕ → Text → Text
trim_end_matches x = drop_end_while (λ c. c == x)

unfoldable pub trim : Text → Text
unfolding is_whitespace drop_while
trim t = drop_end_while is_whitespace (drop_while is_whitespace t)

-- `strip_prefix`, `starts_with`, `ends_with`, `contains`
unfoldable pub strip_prefix : Text → Text → Option Text
strip_prefix [] t = some t
strip_prefix (p ∷ ps) [] = none
strip_prefix (p ∷ ps) (c ∷ t) = if c == p then strip_prefix ps t else none

unfoldable pub starts_with : Text → Text → Bool
unfolding strip_prefix
starts_with p t = is_some (strip_prefix p t)

unfoldable pub ends_with : Text → Text → Bool
unfolding starts_with
ends_with p t = starts_with (reverse p) (reverse t)

unfoldable pub contains : Text → Text → Bool
unfolding starts_with
contains needle [] = starts_with needle []
contains needle (c ∷ t) = starts_with needle (c ∷ t) || contains needle t

-- `split` at a character, as the first piece and those behind it: there is always a first.
unfoldable pub split_pieces : ℕ → Text → Text × List Text
split_pieces x [] = ([], [])
split_pieces x (c ∷ t) =
    let (piece, pieces) = split_pieces x t in
    if c == x then ([], piece ∷ pieces) else (c ∷ piece, pieces)

unfoldable pub split : ℕ → Text → List Text
unfolding split_pieces
split x t = let (piece, pieces) = split_pieces x t in piece ∷ pieces

-- `join` with a separator
unfoldable pub join_tail : Text → List Text → Text
join_tail sep [] = []
join_tail sep (t ∷ ts) = sep ++ (t ++ join_tail sep ts)

unfoldable pub join : Text → List Text → Text
unfolding join_tail
join sep [] = []
join sep (t ∷ ts) = t ++ join_tail sep ts
