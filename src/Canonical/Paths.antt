-- ===== src/Canonical/Paths.antt =====
-- `normalize_path`.
use luck_editor.Prelude.{
  ℕ, List, [], ◌∷◌, ◌++◌, Bool, ◌&&◌, ◌||◌, not, if◌then◌else◌, length, leb, is_empty, reverse,
  ◌=?◌, list_ord, nat_ord,
}
use luck_editor.Text.{Text, txt, split, join, starts_with, ends_with}

-- `Vec::pop`, on the segments in reverse
abbrev pub pop : List Text → List Text
pop [] = []
pop (t ∷ ts) = ts

-- The loop over the pieces; the segments kept so far come in reverse, the last one first.
unfoldable pub keep_segments : ℕ → List Text → List Text → List Text
keep_segments maximum kept [] = kept
keep_segments maximum kept (s ∷ ss) =
    let skipped = keep_segments maximum kept ss in
    let popped = keep_segments maximum (pop kept) ss in
    let pushed = keep_segments maximum (s ∷ kept) ss in
    if is_empty s || s =? txt "."
    then skipped
    else if s =? txt ".."
    then popped
    else if leb maximum (length kept)
    then kept
    else pushed

-- The path with a slash in front.
unfoldable pub prefixed : Text → Text
prefixed path = if starts_with (txt "/") path then path else b'/' ∷ path

unfoldable pub path_segments : Text → ℕ → List Text
unfolding keep_segments prefixed
path_segments path maximum = reverse (keep_segments maximum [] (split b'/' (prefixed path)))

-- The text of the segments, with a slash behind them where the path had one.
unfoldable pub print_path : Bool → List Text → Text
print_path trailing [] = txt "/"
print_path trailing (s ∷ ss) =
    let output = b'/' ∷ join (txt "/") (s ∷ ss) in
    if trailing && not (ends_with (txt "/") output) then output ++ txt "/" else output

unfoldable pub normalize_path : Text → ℕ → Text
unfolding path_segments print_path
normalize_path path maximum = print_path (ends_with (txt "/") path) (path_segments path maximum)
