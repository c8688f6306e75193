-- ===== src/Canonical/Split.antt =====
-- Splitting at a slash what was joined by slashes.
use mathlib.Core.List.{reverse-cons}
use luck_editor.Prelude.{
  ℕ, List, [], ◌∷◌, ◌++◌, Bool, true, false, ◌==◌, reverse, ◌≡◌, refl, arith, All, ap, ◌∙◌, sym,
  append_assoc, append-nil,
}
use luck_editor.Text.{
  Text, txt, split, split_pieces, join_tail, starts_with, ends_with, strip_prefix,
}

-- No character of the text is a slash.
abbrev pub NoSlash : Text → Type 0
NoSlash = All (λ c. (c == b'/') ≡ false)

split_pieces-NoSlash :
    (t : Text) → NoSlash (split_pieces b'/' t).0 × All NoSlash (split_pieces b'/' t).1
unfolding split_pieces
split_pieces-NoSlash [] = (tt, tt)
split_pieces-NoSlash (c ∷ t) = ground (arith, split_pieces-NoSlash t)

-- The pieces hold no slash.
pub split-NoSlash : (t : Text) → All NoSlash (split b'/' t)
unfolding split
split-NoSlash t = split_pieces-NoSlash t

split_pieces-append :
    (s t : Text) → NoSlash s → split_pieces b'/' (s ++ b'/' ∷ t) ≡ (s, split b'/' t)
unfolding split_pieces split
split_pieces-append [] t h = refl
split_pieces-append (c ∷ s) t (h, hs) = rw (split_pieces-append s t hs, split_pieces, h) refl

split_pieces-alone : (s : Text) → NoSlash s → split_pieces b'/' s ≡ (s, [])
unfolding split_pieces
split_pieces-alone [] h = refl
split_pieces-alone (c ∷ s) (h, hs) = rw (split_pieces-alone s hs, split_pieces, h) refl

-- A text up to its first slash is the first piece.
pub split-append : (s t : Text) → NoSlash s → split b'/' (s ++ b'/' ∷ t) ≡ s ∷ split b'/' t
unfolding split
split-append s t h = rw (split_pieces-append s t h, split) refl

pub split-alone : (s : Text) → NoSlash s → split b'/' s ≡ s ∷ []
unfolding split
split-alone s h = rw (split_pieces-alone s h, split) refl

-- The segments joined are split again.
pub split-join :
    (s : Text) (ss : List Text)
    → NoSlash s
    → All NoSlash ss
    → split b'/' (s ++ join_tail (txt "/") ss) ≡ s ∷ ss
unfolding join_tail
split-join s [] h hs = ap (split b'/') (append-nil s) ∙ split-alone s h
split-join s (u ∷ us) h (g, gs) =
    split-append s (u ++ join_tail (txt "/") us) h ∙ ap (◌∷◌ s) (split-join u us g gs)

-- With a slash behind them an empty piece comes last.
pub split-join_slash :
    (s : Text) (ss : List Text)
    → NoSlash s
    → All NoSlash ss
    → split b'/' ((s ++ join_tail (txt "/") ss) ++ txt "/") ≡ s ∷ (ss ++ ([] ∷ []))
unfolding join_tail
split-join_slash s [] h hs =
    ap (λ t. split b'/' (t ++ txt "/")) (append-nil s)
    ∙ (split-append s [] h ∙ ap (◌∷◌ s) (split-alone [] tt))
split-join_slash s (u ∷ us) h (g, gs) =
    ap (split b'/') (append_assoc s (b'/' ∷ (u ++ join_tail (txt "/") us)) (txt "/"))
    ∙ (split-append s ((u ++ join_tail (txt "/") us) ++ txt "/") h
        ∙ ap (◌∷◌ s) (split-join_slash u us g gs))

-- The text ends with a slash, by recursion.
abbrev pub ends_slash : Text → Bool
ends_slash [] = false
ends_slash (c ∷ []) = c == b'/'
ends_slash (c ∷ d ∷ t) = ends_slash (d ∷ t)

head_slash : Text → Bool
head_slash [] = false
head_slash (c ∷ t) = c == b'/'

head_slash-append :
    (x y : ℕ) (t : Text) → head_slash ((t ++ x ∷ []) ++ y ∷ []) ≡ head_slash (t ++ x ∷ [])
unfolding head_slash
head_slash-append x y [] = refl
head_slash-append x y (c ∷ t) = refl

head_slash-reverse : (t : Text) → head_slash (reverse t) ≡ ends_slash t
unfolding head_slash
head_slash-reverse [] = refl
head_slash-reverse (c ∷ []) = refl
head_slash-reverse (c ∷ d ∷ t) =
    ap head_slash (reverse-cons c (d ∷ t) ∙ ap (λ u. u ++ c ∷ []) (reverse-cons d t))
    ∙ (head_slash-append d c (reverse t)
        ∙ (ap head_slash (sym (reverse-cons d t)) ∙ head_slash-reverse (d ∷ t)))

starts_with-slash : (t : Text) → starts_with (txt "/") t ≡ head_slash t
unfolding starts_with strip_prefix head_slash
starts_with-slash [] = refl
starts_with-slash (c ∷ t) = ground arith

pub ends_with-slash : (t : Text) → ends_with (txt "/") t ≡ ends_slash t
unfolding ends_with
ends_with-slash t = starts_with-slash (reverse t) ∙ head_slash-reverse t

pub ends_slash-append : (t : Text) → ends_slash (t ++ txt "/") ≡ true
ends_slash-append [] = refl
ends_slash-append (c ∷ []) = refl
ends_slash-append (c ∷ d ∷ t) = ends_slash-append (d ∷ t)

-- What stands behind is what counts.
pub ends_slash-behind : (s : Text) (c : ℕ) (t : Text) → ends_slash (s ++ c ∷ t) ≡ ends_slash (c ∷ t)
ends_slash-behind [] c t = refl
ends_slash-behind (d ∷ []) c t = refl
ends_slash-behind (d ∷ e ∷ s) c t = ends_slash-behind (e ∷ s) c t

pub ends_slash-NoSlash : (t : Text) → NoSlash t → ends_slash t ≡ false
ends_slash-NoSlash [] h = refl
ends_slash-NoSlash (c ∷ []) (h, hs) = h
ends_slash-NoSlash (c ∷ d ∷ t) (h, hs) = ends_slash-NoSlash (d ∷ t) hs
