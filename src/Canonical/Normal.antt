-- ===== src/Canonical/Normal.antt =====
-- What `normalize_path` returns, and that a second call changes nothing.
use mathlib.Core.List.{reverse-reverse}
use luck_editor.Prelude.{
  ℕ, ◌≤◌, List, [], ◌∷◌, ◌++◌, Bool, true, false, length, reverse, ◌≡◌, refl, arith, All, ap, ◌∙◌,
  append-nil, list_ord, nat_ord, All-imp,
}
use luck_editor.Text.{Text, txt, split, join, join_tail, starts_with, ends_with, strip_prefix}
use luck_editor.Canonical.Split.{
  NoSlash, split-append, split-alone, split-join, split-join_slash, ends_slash, ends_with-slash,
  ends_slash-append, ends_slash-behind, ends_slash-NoSlash,
}
use luck_editor.Canonical.Paths.{keep_segments, prefixed, path_segments, print_path, normalize_path}
use luck_editor.Canonical.Segments.{
  IsSegment, path_segments-All, length-path_segments, keep_segments-segments, keep_segments-slash,
}

-- A piece for each segment and an empty one, in front or at both ends.
segments-again :
    (m : ℕ) (ss : List Text)
    → All IsSegment ss
    → length ss ≤ m
    → reverse (keep_segments m [] ss) ≡ ss
segments-again m ss h l =
    ap reverse (keep_segments-segments m [] ss h (omega arith) ∙ append-nil (reverse ss))
    ∙ reverse-reverse ss

output : Text → List Text → Text
output s ss = b'/' ∷ (s ++ join_tail (txt "/") ss)

output-ends :
    (s : Text) (ss : List Text) → IsSegment s → All IsSegment ss → ends_slash (output s ss) ≡ false
unfolding join_tail output
output-ends [] ss h hs = absurd (ground (arith, h.plain))
output-ends (c ∷ t) [] h hs =
    ap (λ u. ends_slash (c ∷ u)) (append-nil t) ∙ ends_slash-NoSlash (c ∷ t) h.whole
output-ends (c ∷ t) (u ∷ us) h (g, gs) =
    ends_slash-behind (b'/' ∷ c ∷ t) b'/' (u ++ join_tail (txt "/") us) ∙ output-ends u us g gs

whole-All : (ss : List Text) → All IsSegment ss → All NoSlash ss
whole-All ss h = All-imp (λ s g. g.whole) ss h

print-false :
    (s : Text) (ss : List Text)
    → IsSegment s
    → All IsSegment ss
    → print_path false (s ∷ ss) ≡ output s ss
unfolding print_path output join
print-false s ss h hs = refl

print-true :
    (s : Text) (ss : List Text)
    → IsSegment s
    → All IsSegment ss
    → print_path true (s ∷ ss) ≡ output s ss ++ txt "/"
unfolding print_path output join
print-true s ss h hs = rw (ends_with-slash (output s ss), output-ends s ss h hs, print_path) refl

path_segments-slash :
    (t : Text) (m : ℕ) → path_segments (b'/' ∷ t) m ≡ reverse (keep_segments m [] (split b'/' t))
unfolding path_segments prefixed starts_with strip_prefix
path_segments-slash t m =
    ap (λ ps. reverse (keep_segments m [] ps)) (split-append [] t tt)
    ∙ (unfold keep_segments in refl)

-- Reading the segments of a path that was printed from segments.
path_segments-print_path :
    (trailing : Bool) (m : ℕ) (ss : List Text)
    → All IsSegment ss
    → length ss ≤ m
    → path_segments (print_path trailing ss) m ≡ ss
unfolding output print_path keep_segments
path_segments-print_path trailing m [] h l =
    path_segments-slash [] m ∙ ap (λ ps. reverse (keep_segments m [] ps)) (split-alone [] tt)
path_segments-print_path false m (s ∷ ss) (h, hs) l =
    ap (λ p. path_segments p m) (print-false s ss h hs)
    ∙ (path_segments-slash (s ++ join_tail (txt "/") ss) m
        ∙ (ap (λ ps. reverse (keep_segments m [] ps)) (split-join s ss h.whole (whole-All ss hs))
            ∙ segments-again m (s ∷ ss) (h, hs) l))
path_segments-print_path true m (s ∷ ss) (h, hs) l =
    ap (λ p. path_segments p m) (print-true s ss h hs)
    ∙ (path_segments-slash ((s ++ join_tail (txt "/") ss) ++ txt "/") m
        ∙ (ap (λ ps. reverse (keep_segments m [] ps))
              (split-join_slash s ss h.whole (whole-All ss hs))
            ∙ (ap reverse (keep_segments-slash m [] (s ∷ ss))
                ∙ segments-again m (s ∷ ss) (h, hs) l)))

ends_with-print_path :
    (trailing : Bool) (s : Text) (ss : List Text)
    → IsSegment s
    → All IsSegment ss
    → ends_with (txt "/") (print_path trailing (s ∷ ss)) ≡ trailing
ends_with-print_path false s ss h hs =
    ap (ends_with (txt "/")) (print-false s ss h hs)
    ∙ (ends_with-slash (output s ss) ∙ output-ends s ss h hs)
ends_with-print_path true s ss h hs =
    ap (ends_with (txt "/")) (print-true s ss h hs)
    ∙ (ends_with-slash (output s ss ++ txt "/") ∙ ends_slash-append (output s ss))

-- A normalized path is its segments, printed with a slash behind them where the path had one: none
-- of them is empty, a dot, two dots or has a slash in it, and they are no more than the limit.
pub normalize_path_lem :
    (path : Text) (m : ℕ)
    → (ss : List Text) × (normalize_path path m ≡ print_path (ends_with (txt "/") path) ss)
      × All IsSegment ss
      × (length ss ≤ m)
      × (path_segments (normalize_path path m) m ≡ ss)
unfolding normalize_path
normalize_path_lem path m =
    let ss = path_segments path m in
    let h = path_segments-All path m in
    let l = length-path_segments path m in
    (ss, refl, h, l, path_segments-print_path (ends_with (txt "/") path) m ss h l)

print-again :
    (trailing : Bool) (ss : List Text)
    → All IsSegment ss
    → print_path (ends_with (txt "/") (print_path trailing ss)) ss ≡ print_path trailing ss
print-again trailing [] h = unfold print_path in refl
print-again trailing (s ∷ ss) (h, hs) =
    ap (λ b. print_path b (s ∷ ss)) (ends_with-print_path trailing s ss h hs)

-- A second call of `normalize_path` with the same limit changes nothing.
pub normalize_path-normalize_path :
    (path : Text) (m : ℕ) → normalize_path (normalize_path path m) m ≡ normalize_path path m
unfolding normalize_path
normalize_path-normalize_path path m =
    let trailing = ends_with (txt "/") path in
    let ss = path_segments path m in
    let h = path_segments-All path m in
    ap (print_path (ends_with (txt "/") (print_path trailing ss)))
      (path_segments-print_path trailing m ss h (length-path_segments path m))
    ∙ print-again trailing ss h
