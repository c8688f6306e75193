-- ===== src/Parsing/Panics.antt =====
-- When the cut of a prefix panics: `value[..prefix.len()]` inside a character.
use luck_editor.Prelude.{
  ℕ, zero, suc, ◌+◌, ◌-◌, ◌≤◌, ◌<◌, List, [], ◌∷◌, Bool, true, false, ◌||◌, ◌==◌, leb, ltb,
  if◌then◌else◌, is_some, Option, none, some, ◌≡◌, refl, sym, ◌∙◌, ap, arith, Bool-cases, inl, inr,
  any, not, unwrap_or, ◌=?◌, list_ord, nat_ord,
}
use luck_editor.Text.{Text, len, len_utf8, to_ascii_lowercase}
use luck_editor.Parsing.{cut_at, after_ascii_prefix, strip_ascii_prefix}

-- The offsets at which the characters begin, and that of the end.
unfoldable pub boundaries : ℕ → Text → List ℕ
unfolding len_utf8
boundaries offset [] = offset ∷ []
boundaries offset (c ∷ t) = offset ∷ boundaries (offset + len_utf8 c) t

-- `str::is_char_boundary`
abbrev pub is_char_boundary : ℕ → Text → Bool
is_char_boundary n t = any (λ b. b == n) (boundaries 0 t)

below : (n offset : ℕ) (t : Text) → n < offset → any (λ b. b == n) (boundaries offset t) ≡ false
unfolding boundaries
below n offset [] h = ground arith
below n offset (c ∷ t) h = ground (arith, below n (offset + len_utf8 c) t)

is_some-step :
    (c : ℕ) (o : Option (Text × Text))
    → is_some
        (elim o as (λ x. Option (Text × Text)) [ none ↦ none | some (a, b) ↦ some (c ∷ a, b) ])
      ≡ is_some o
is_some-step c none = refl
is_some-step c (some p) = refl

cut_at-boundaries :
    (n offset : ℕ) (t : Text)
    → is_some (cut_at n t) ≡ any (λ b. b == offset + n) (boundaries offset t)
unfolding cut_at boundaries
cut_at-boundaries zero offset [] = ground arith
cut_at-boundaries zero offset (c ∷ t) = ground arith
cut_at-boundaries (suc n) offset [] = ground arith
cut_at-boundaries (suc n) offset (c ∷ t) =
    let later = boundaries (offset + len_utf8 c) t in
    let apart : (offset == offset + suc n) ≡ false = ground arith in
    elim (Bool-cases (leb (len_utf8 c) (suc n))) [
      | inl e ↦
          let low : len_utf8 c ≤ suc n = ground arith in
          let total : offset + len_utf8 c + (suc n - len_utf8 c) ≡ offset + suc n =
            omega (arith, low) in
          let found =
            is_some-step c (cut_at (suc n - len_utf8 c) t)
            ∙ cut_at-boundaries (suc n - len_utf8 c) (offset + len_utf8 c) t
            ∙ ap (λ m. any (λ b. b == m) later) total in
          rw (e, apart) found
      | inr e ↦
          let high : offset + suc n < offset + len_utf8 c = ground arith in
          rw (e, apart) (sym (below (offset + suc n) (offset + len_utf8 c) t high))
    ]

guarded :
    (b : Bool) (o : Option (Text × Text)) (f : Text → Text → Option Text) (value : Text)
    → is_some
        (elim (if b
            then (elim o as (λ x. Option (Option Text)) [
              | none ↦ none
              | some (x, y) ↦ some (f x y)
            ])
            else some none)
          as (λ x. Option Text) [ none ↦ none | some rest ↦ some (unwrap_or rest value) ])
      ≡ (not b || is_some o)
guarded true none f value = refl
guarded true (some p) f value = refl
guarded false o f value = refl

-- Stripping a prefix gives a text exactly if the value has fewer bytes than the prefix, or a character
-- begins or the text ends at the number of bytes that the prefix has; otherwise it panics, whatever the
-- prefix.
pub strip_ascii_prefix-is_char_boundary :
    (value prefix : Text)
    → is_some (strip_ascii_prefix value prefix)
      ≡ (ltb (len value) (len prefix) || is_char_boundary (len prefix) value)
unfolding strip_ascii_prefix after_ascii_prefix
strip_ascii_prefix-is_char_boundary value prefix =
    let n = len prefix in
    let start : 0 + n ≡ n = omega arith in
    let cut : is_some (cut_at n value) ≡ is_char_boundary n value =
      cut_at-boundaries n 0 value ∙ ap (λ m. any (λ b. b == m) (boundaries 0 value)) start in
    let guard : not (leb n (len value)) ≡ ltb (len value) n = ground arith in
    guarded (leb n (len value)) (cut_at n value)
      (λ before after.
        if to_ascii_lowercase before =? to_ascii_lowercase prefix then some after else none)
      value
    ∙ rw (guard, cut) refl
