-- ===== src/Prelude/Bounded.antt =====
-- A deque cut at its back: `while xs.len() > maximum { xs.pop_back(); }`.
use Prim.Native.Nat.{ℕ, zero, suc, ◌≤◌}
use mathlib.Core.Path.{◌≡◌, refl, ap, sym, ◌∙◌}
use mathlib.Core.Logic.{inl, inr}
use mathlib.Core.List.{List, [], ◌∷◌}
use native.Mathlib.Omega.{arith}
use luck_editor.Prelude.Tests.{if◌then◌else◌, ltb, le→ltb_false, ltb→lt, ltb_false→le, Bool-cases}
use luck_editor.Prelude.Lists.{length, take, take_of_length-le}

module _ {ℓ} {A : Type ℓ} where
  unfoldable pub pop_back : List A → List A
  pop_back [] = []
  pop_back (x ∷ []) = []
  pop_back (x ∷ y ∷ xs) = x ∷ pop_back (y ∷ xs)

  -- The loop on fuel.
  unfoldable pub shrink : ℕ → ℕ → List A → List A
  unfolding pop_back
  shrink maximum zero xs = xs
  shrink maximum (suc fuel) xs =
      let rest = shrink maximum fuel (pop_back xs) in if ltb maximum (length xs) then rest else xs

  -- With a round for each element.
  unfoldable pub truncate_back : ℕ → List A → List A
  unfolding shrink
  truncate_back maximum xs = shrink maximum (length xs) xs

  length-pop_back : (x : A) (xs : List A) → length (pop_back (x ∷ xs)) ≡ length xs
  unfolding pop_back
  length-pop_back x [] = refl
  length-pop_back x (y ∷ xs) = ap suc (length-pop_back y xs)

  take-pop_back :
      (n : ℕ) (x : A) (xs : List A) → n ≤ length xs → take n (pop_back (x ∷ xs)) ≡ take n (x ∷ xs)
  unfolding pop_back
  take-pop_back zero x xs h = refl
  take-pop_back (suc n) x [] h = absurd (omega arith)
  take-pop_back (suc n) x (y ∷ xs) h = ap (◌∷◌ x) (take-pop_back n y xs (omega arith))

  shrink-take : (m fuel : ℕ) (xs : List A) → length xs ≤ fuel → shrink m fuel xs ≡ take m xs
  unfolding shrink
  shrink-take m zero [] h = sym (take_of_length-le {A = A} m [] (omega arith))
  shrink-take m zero (x ∷ xs) h = absurd (omega arith)
  shrink-take m (suc fuel) [] h =
      rw (le→ltb_false m 0 (omega arith)) (sym (take_of_length-le {A = A} m [] (omega arith)))
  shrink-take m (suc fuel) (x ∷ xs) h = elim (Bool-cases (ltb m (length (x ∷ xs)))) [
    | inl e ↦
        let below = ltb→lt m (length (x ∷ xs)) e in
        rw e (
          shrink-take m fuel (pop_back (x ∷ xs)) (omega (arith, length-pop_back x xs))
          ∙ take-pop_back m x xs (omega arith))
    | inr e ↦ rw e (sym (take_of_length-le m (x ∷ xs) (ltb_false→le m (length (x ∷ xs)) e)))
  ]

  -- That is enough: the loop leaves the first elements, as many as the maximum.
  pub truncate_back-take : (m : ℕ) (xs : List A) → truncate_back m xs ≡ take m xs
  unfolding truncate_back
  truncate_back-take m xs = shrink-take m (length xs) xs (omega arith)
