-- ===== src/Canonical/Segments.antt =====
-- The segments that the loop of `normalize_path` keeps.
use mathlib.Core.List.{reverse-cons}
use luck_editor.Prelude.{
  ℕ, ◌+◌, ◌≤◌, List, [], ◌∷◌, ◌++◌, false, ◌||◌, length, reverse, ◌≡◌, refl, arith, All, ap, ◌∙◌,
  sym, subst, append_assoc, append-nil, is_empty, ◌=?◌, list_ord, nat_ord, length-append,
}
use luck_editor.Text.{Text, txt, split}
use luck_editor.Canonical.Split.{NoSlash, split-NoSlash}
use luck_editor.Canonical.Paths.{pop, keep_segments, prefixed, path_segments}

-- A segment is not empty and no dots, and has no slash in it.
pub record IsSegment (s : Text) : Type 0 where
  pub plain : (is_empty s || s =? txt ".") ≡ false
  pub no_parent : (s =? txt "..") ≡ false
  pub whole : NoSlash s

pop-All : (kept : List Text) → All IsSegment kept → All IsSegment (pop kept)
pop-All [] h = tt
pop-All (s ∷ kept) (h, hs) = hs

length-pop : (kept : List Text) → length (pop kept) ≤ length kept
length-pop [] = omega arith
length-pop (s ∷ kept) = omega arith

-- One segment more, where the tests let it through.
push-All :
    (m : ℕ) (kept ss : List Text) (s : Text)
    → ((kept' : List Text) → All IsSegment kept' → All IsSegment (keep_segments m kept' ss))
    → All IsSegment kept
    → NoSlash s
    → (is_empty s || s =? txt ".") ≡ false
    → (s =? txt "..") ≡ false
    → All IsSegment (keep_segments m (s ∷ kept) ss)
push-All m kept ss s step k h p q =
    step (s ∷ kept) (record { plain = p; no_parent = q; whole = h }, k)

keep_segments-All :
    (m : ℕ) (kept ss : List Text)
    → All IsSegment kept
    → All NoSlash ss
    → All IsSegment (keep_segments m kept ss)
unfolding keep_segments
keep_segments-All m kept [] k h = k
keep_segments-All m kept (s ∷ ss) k (h, hs) = ground (
  arith,
  keep_segments-All m kept ss k hs,
  keep_segments-All m (pop kept) ss (pop-All kept k) hs,
  push-All m kept ss s (λ kept' k'. keep_segments-All m kept' ss k' hs) k h,
)

length-keep_segments :
    (m : ℕ) (kept ss : List Text) → length kept ≤ m → length (keep_segments m kept ss) ≤ m
unfolding keep_segments
length-keep_segments m kept [] k = k
length-keep_segments m kept (s ∷ ss) k = ground (
  arith,
  length-keep_segments m kept ss,
  length-keep_segments m (pop kept) ss,
  length-pop kept,
  length-keep_segments m (s ∷ kept) ss,
)

-- Segments are all kept while the limit allows it, and an empty piece behind them adds nothing.
pub keep_segments-segments :
    (m : ℕ) (kept ss : List Text)
    → All IsSegment ss
    → length kept + length ss ≤ m
    → keep_segments m kept ss ≡ reverse ss ++ kept
unfolding keep_segments
keep_segments-segments m kept [] h l = refl
keep_segments-segments m kept (s ∷ ss) (h, hs) l = ground (
  arith,
  h.plain,
  h.no_parent,
  keep_segments-segments m (s ∷ kept) ss hs,
  reverse-cons s ss,
  append_assoc (reverse ss) (s ∷ []) kept,
)

pub keep_segments-slash :
    (m : ℕ) (kept ss : List Text) → keep_segments m kept (ss ++ [] ∷ []) ≡ keep_segments m kept ss
unfolding keep_segments
keep_segments-slash m kept [] = refl
keep_segments-slash m kept (s ∷ ss) = ground (
  arith,
  keep_segments-slash m kept ss,
  keep_segments-slash m (pop kept) ss,
  keep_segments-slash m (s ∷ kept) ss,
)

reverse-All :
    (acc ss : List Text) → All IsSegment acc → All IsSegment ss → All IsSegment (reverse ss ++ acc)
reverse-All acc [] a h = a
reverse-All acc (s ∷ ss) a (h, hs) =
    subst (All IsSegment)
      (sym (ap (λ r. r ++ acc) (reverse-cons s ss) ∙ append_assoc (reverse ss) (s ∷ []) acc))
      (reverse-All (s ∷ acc) ss (h, a) hs)

length-reverse : (ss : List Text) → length (reverse ss) ≡ length ss
length-reverse [] = refl
length-reverse (s ∷ ss) =
    omega
      (arith, ap length (reverse-cons s ss), length-append (reverse ss) (s ∷ []), length-reverse ss)

pub path_segments-All : (path : Text) (m : ℕ) → All IsSegment (path_segments path m)
unfolding path_segments
path_segments-All path m =
    let kept = keep_segments m [] (split b'/' (prefixed path)) in
    subst (All IsSegment) (append-nil (reverse kept))
      (reverse-All [] kept tt (keep_segments-All m [] _ tt (split-NoSlash (prefixed path))))

pub length-path_segments : (path : Text) (m : ℕ) → length (path_segments path m) ≤ m
unfolding path_segments
length-path_segments path m =
    let pieces = split b'/' (prefixed path) in
    omega (
      arith,
      length-reverse (keep_segments m [] pieces),
      length-keep_segments m [] pieces (omega arith),
    )
