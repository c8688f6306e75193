-- ===== src/Prelude/Sorting.antt =====
-- What `sort_by` gives for a comparison that is total and transitive: the same elements, in order.
use luck_editor.Prelude.{
  List, [], ◌∷◌, ◌≡◌, ◌≢◌, refl, subst, sym, ◌∙◌, Ordering, lt, eq, gt, Ord, ordering, All, All-imp,
  inl, inr, ◌⊎◌,
}
use luck_editor.Prelude.Sort.{insert_by, sort_by, Sorted, All-insert_by}
use mathlib.Core.List.{Perm}
use mathlib.Core.List.Perm

Ordering-cases : (o : Ordering) → (o ≡ lt) ⊎ ((o ≡ eq) ⊎ (o ≡ gt))
Ordering-cases lt = inl refl
Ordering-cases eq = inr (inl refl)
Ordering-cases gt = inr (inr refl)

module _ {ℓ} {A : Type ℓ} (cmp : A → A → Ordering) where
  Perm-insert_by : (x : A) (xs : List A) → Perm (insert_by cmp x xs) (x ∷ xs)
  unfolding insert_by
  Perm-insert_by x [] = Perm.refl (x ∷ [])
  Perm-insert_by x (y ∷ ys) = go (cmp x y) (Perm-insert_by x ys)
    where
      go :
          (o : Ordering)
          → Perm (insert_by cmp x ys) (x ∷ ys)
          → Perm (elim o [ gt ↦ y ∷ insert_by cmp x ys | _ ↦ x ∷ y ∷ ys ]) (x ∷ y ∷ ys)
      go gt p = Perm.trans (Perm.cons y p) (Perm.swap x y ys)
      go lt p = Perm.refl (x ∷ y ∷ ys)
      go eq p = Perm.refl (x ∷ y ∷ ys)

  pub Perm-sort_by : (xs : List A) → Perm (sort_by cmp xs) xs
  unfolding sort_by
  Perm-sort_by [] = Perm.refl []
  Perm-sort_by (x ∷ xs) =
      Perm.trans (Perm-insert_by x (sort_by cmp xs)) (Perm.cons x (Perm-sort_by xs))

module _ {ℓ} {A : Type ℓ} (cmp : A → A → Ordering) (total : (a b : A) → cmp a b ≡ gt → cmp b a ≢ gt)
    (trans : (a b c : A) → cmp a b ≢ gt → cmp b c ≢ gt → cmp a c ≢ gt) where
  insert_by-Sorted : (x : A) (xs : List A) → Sorted cmp xs → Sorted cmp (insert_by cmp x xs)
  unfolding insert_by
  insert_by-Sorted x [] s = (tt, tt)
  insert_by-Sorted x (y ∷ ys) (h, hs) = go (cmp x y) refl (insert_by-Sorted x ys hs)
    where
      before : {o : Ordering} → cmp x y ≡ o → o ≢ gt → All (λ z. cmp x z ≢ gt) (y ∷ ys)
      before e n =
          let m : cmp x y ≢ gt = λ g. n (sym e ∙ g) in (m, All-imp (λ z k. trans x y z m k) ys h)

      go :
          (o : Ordering)
          → cmp x y ≡ o
          → Sorted cmp (insert_by cmp x ys)
          → Sorted cmp (elim o [ gt ↦ y ∷ insert_by cmp x ys | _ ↦ x ∷ y ∷ ys ])
      go gt e s = (All-insert_by cmp (λ z. cmp y z ≢ gt) x ys (total x y e) h, s)
      go lt e s = (before e (λ g. cc), (h, hs))
      go eq e s = (before e (λ g. cc), (h, hs))

  pub sort_by-IsSorted : (xs : List A) → Sorted cmp (sort_by cmp xs)
  unfolding sort_by
  sort_by-IsSorted [] = tt
  sort_by-IsSorted (x ∷ xs) = insert_by-Sorted x (sort_by cmp xs) (sort_by-IsSorted xs)

-- The comparison of keys is total and transitive.
module _ {ℓ} {K : Type ℓ} ⦃o : Ord K⦄ where
  pub ordering_total : (a b : K) → ordering a b ≡ gt → ordering b a ≢ gt
  ordering_total a b h = let e = o.cmp_gt a b h in λ g. cc

  pub ordering_trans : (a b c : K) → ordering a b ≢ gt → ordering b c ≢ gt → ordering a c ≢ gt
  ordering_trans a b c h k = elim (Ordering-cases (ordering a b)) [
    | inl e ↦ elim (Ordering-cases (ordering b c)) [
      | inl f ↦ let g = o.cmp_trans a b c e f in λ x. cc
      | inr (inl f) ↦ subst (λ z. ordering a z ≢ gt) (o.cmp_eq b c f) h
      | inr (inr f) ↦ absurd (k f)
    ]
    | inr (inl e) ↦ subst (λ z. ordering z c ≢ gt) (sym (o.cmp_eq a b e)) k
    | inr (inr e) ↦ absurd (h e)
  ]
