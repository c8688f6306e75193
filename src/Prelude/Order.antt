-- ===== src/Prelude/Order.antt =====
-- The interface of ordered keys (`K: Ord`): a three-way comparison with the laws of a total order,
-- and its instances for numbers, lists (lexicographic, as `Vec<T>` and `str` compare).
use Prim.Native.Nat.{ℕ, compare, Ordering}
use Prim.Native.Nat.Ordering.{lt, eq, gt}
use mathlib.Core.Path.{◌≡◌, refl}
use mathlib.Core.Logic.{◌≢◌}
use mathlib.Core.Bool.{Bool, true, false}
use mathlib.Core.List.{List, [], ◌∷◌}
use native.Mathlib.Omega.{arith}

pub record Ord {ℓ} (K : Type ℓ) : Type ℓ where
  pub cmp : K → K → Ordering
  pub cmp_refl : (a : K) → cmp a a ≡ eq
  pub cmp_eq : (a b : K) → cmp a b ≡ eq → a ≡ b
  pub cmp_gt : (a b : K) → cmp a b ≡ gt → cmp b a ≡ lt
  pub cmp_lt : (a b : K) → cmp a b ≡ lt → cmp b a ≡ gt
  pub cmp_trans : (a b c : K) → cmp a b ≡ lt → cmp b c ≡ lt → cmp a c ≡ lt

abbrev pub is_eq : Ordering → Bool
is_eq eq = true
is_eq _ = false

-- `Ordering::then_with`
abbrev pub then_with : Ordering → Ordering → Ordering
then_with eq o = o
then_with lt o = lt
then_with gt o = gt

module _ {ℓ} {K : Type ℓ} ⦃o : Ord K⦄ where
  -- `a.cmp(b)`
  abbrev pub ordering : K → K → Ordering
  ordering a b = o.cmp a b

  -- `==` on keys
  infix 50 ◌=?◌
  abbrev pub ◌=?◌ : K → K → Bool
  a =? b = is_eq (o.cmp a b)

  infix 50 ◌≺◌
  abbrev pub ◌≺◌ : K → K → Type 0
  a ≺ b = o.cmp a b ≡ lt

  pub =?_refl : (a : K) → (a =? a) ≡ true
  =?_refl a = ground (arith, o.cmp_refl a)

  pub =?_eq : (a b : K) → (a =? b) ≡ true → a ≡ b
  =?_eq a b h = ground (arith, o.cmp_eq a b)

  pub =?_ne : (a b : K) → a ≢ b → (a =? b) ≡ false
  =?_ne a b h = ground (arith, o.cmp_eq a b)

  pub =?_comm : (a b : K) → (a =? b) ≡ (b =? a)
  =?_comm a b = ground (arith, o.cmp_gt a b, o.cmp_lt a b, o.cmp_eq a b, o.cmp_refl a)

  pub ≺_ne : (a b : K) → a ≺ b → (a =? b) ≡ false
  ≺_ne a b h = ground arith

  pub ≺_ne_sym : (a b : K) → a ≺ b → (b =? a) ≡ false
  ≺_ne_sym a b h = ground (arith, o.cmp_lt a b)

pub compare_refl : (a : ℕ) → compare a a ≡ eq
compare_refl a = ground arith

pub compare-eq : (a b : ℕ) → compare a b ≡ eq → a ≡ b
compare-eq a b = ground arith

pub compare-gt : (a b : ℕ) → compare a b ≡ gt → compare b a ≡ lt
compare-gt a b = ground arith

pub compare-lt : (a b : ℕ) → compare a b ≡ lt → compare b a ≡ gt
compare-lt a b = ground arith

pub compare_trans : (a b c : ℕ) → compare a b ≡ lt → compare b c ≡ lt → compare a c ≡ lt
compare_trans a b c = ground arith

instance abbrev pub nat_ord : Ord ℕ
nat_ord = record {
  cmp = compare;
  cmp_refl = compare_refl;
  cmp_eq = compare-eq;
  cmp_gt = compare-gt;
  cmp_lt = compare-lt;
  cmp_trans = compare_trans;
}

module _ {ℓ} {K : Type ℓ} ⦃o : Ord K⦄ where
  unfoldable pub cmp_list : List K → List K → Ordering
  cmp_list [] [] = eq
  cmp_list [] (y ∷ ys) = lt
  cmp_list (x ∷ xs) [] = gt
  cmp_list (x ∷ xs) (y ∷ ys) = then_with (o.cmp x y) (cmp_list xs ys)

  pub cmp_list_refl : (a : List K) → cmp_list a a ≡ eq
  unfolding cmp_list
  cmp_list_refl [] = refl
  cmp_list_refl (x ∷ xs) = ground (arith, o.cmp_refl x, cmp_list_refl xs)

  pub cmp_list-eq : (a b : List K) → cmp_list a b ≡ eq → a ≡ b
  unfolding cmp_list
  cmp_list-eq [] [] h = refl
  cmp_list-eq [] (y ∷ ys) h = cc
  cmp_list-eq (x ∷ xs) [] h = cc
  cmp_list-eq (x ∷ xs) (y ∷ ys) h = ground (arith, o.cmp_eq x y, cmp_list-eq xs ys)

  pub cmp_list-gt : (a b : List K) → cmp_list a b ≡ gt → cmp_list b a ≡ lt
  unfolding cmp_list
  cmp_list-gt [] [] h = cc
  cmp_list-gt [] (y ∷ ys) h = cc
  cmp_list-gt (x ∷ xs) [] h = refl
  cmp_list-gt (x ∷ xs) (y ∷ ys) h =
      ground (arith, o.cmp_eq x y, o.cmp_refl x, o.cmp_gt x y, cmp_list-gt xs ys)

  pub cmp_list-lt : (a b : List K) → cmp_list a b ≡ lt → cmp_list b a ≡ gt
  unfolding cmp_list
  cmp_list-lt [] [] h = cc
  cmp_list-lt [] (y ∷ ys) h = refl
  cmp_list-lt (x ∷ xs) [] h = cc
  cmp_list-lt (x ∷ xs) (y ∷ ys) h =
      ground (arith, o.cmp_eq x y, o.cmp_refl x, o.cmp_lt x y, cmp_list-lt xs ys)

  pub cmp_list_trans : (a b c : List K) → cmp_list a b ≡ lt → cmp_list b c ≡ lt → cmp_list a c ≡ lt
  unfolding cmp_list
  cmp_list_trans [] [] c h k = cc
  cmp_list_trans [] (y ∷ ys) [] h k = cc
  cmp_list_trans [] (y ∷ ys) (z ∷ zs) h k = refl
  cmp_list_trans (x ∷ xs) [] c h k = cc
  cmp_list_trans (x ∷ xs) (y ∷ ys) [] h k = cc
  cmp_list_trans (x ∷ xs) (y ∷ ys) (z ∷ zs) h k =
      ground (arith, o.cmp_eq x y, o.cmp_eq y z, o.cmp_trans x y z, cmp_list_trans xs ys zs)

  instance abbrev pub list_ord : Ord (List K)
  list_ord = record {
    cmp = cmp_list;
    cmp_refl = cmp_list_refl;
    cmp_eq = cmp_list-eq;
    cmp_gt = cmp_list-gt;
    cmp_lt = cmp_list-lt;
    cmp_trans = cmp_list_trans;
  }
