-- ===== src/OrdMap/Order.antt =====
-- The order of the entries: kept by every write, and enough to make a map determined by its
-- lookups.
use luck_editor.Prelude.{[], ◌∷◌, none, Ord, ◌≺◌, ◌≡◌, refl, arith, All, All-imp, subst, sym}
use luck_editor.OrdMap.Defs.{OrdMap, lookup, insert, remove}
use luck_editor.OrdMap.Laws.{All-insert, All-remove}

module _ {ℓ κ} {K : Type ℓ} {V : Type κ} ⦃o : Ord K⦄ where
  abbrev pub Above : K → OrdMap K V → Type 0
  Above k m = All (λ e. k ≺ e.0) m

  abbrev pub IsSorted : OrdMap K V → Type 0
  IsSorted [] = Unit {0}
  IsSorted ((k, v) ∷ m) = Above k m × IsSorted m

  pub Above-trans : (k j : K) (m : OrdMap K V) → k ≺ j → Above j m → Above k m
  Above-trans k j m h a = All-imp (λ e. o.cmp_trans k j e.0 h) m a

  pub insert-IsSorted : (k : K) (v : V) (m : OrdMap K V) → IsSorted m → IsSorted (insert k v m)
  unfolding insert
  insert-IsSorted k v [] s = (tt, tt)
  insert-IsSorted k v ((i, w) ∷ m) (a, s) = ground (
    arith,
    insert-IsSorted k v m s,
    Above-trans k i m,
    All-insert (λ e. i ≺ e.0) k v m,
    o.cmp_gt k i,
  )

  pub remove-IsSorted : (k : K) (m : OrdMap K V) → IsSorted m → IsSorted (remove k m)
  unfolding remove
  remove-IsSorted k [] s = tt
  remove-IsSorted k ((i, w) ∷ m) (a, s) =
      ground (arith, remove-IsSorted k m s, All-remove (λ e. i ≺ e.0) k m a)

  pub lookup-Above : (k : K) (m : OrdMap K V) → Above k m → lookup k m ≡ none
  unfolding lookup
  lookup-Above k [] a = refl
  lookup-Above k ((i, w) ∷ m) (h, a) = ground (arith, lookup-Above k m a)

  head-key :
      (i j : K) (v w : V) (m n : OrdMap K V)
      → Above i m
      → Above j n
      → ((k : K) → lookup k ((i, v) ∷ m) ≡ lookup k ((j, w) ∷ n))
      → i ≡ j
  unfolding lookup
  head-key i j v w m n a b h = ground (
    arith,
    h i,
    h j,
    o.cmp_refl i,
    o.cmp_refl j,
    o.cmp_eq i j,
    o.cmp_gt i j,
    o.cmp_lt i j,
    lookup-Above i n,
    lookup-Above j m,
    Above-trans i j n,
    Above-trans j i m,
  )

  tail-lookup :
      (i k : K) (v w : V) (m n : OrdMap K V)
      → Above i m
      → Above i n
      → lookup k ((i, v) ∷ m) ≡ lookup k ((i, w) ∷ n)
      → lookup k m ≡ lookup k n
  unfolding lookup
  tail-lookup i k v w m n a b h = ground (arith, o.cmp_eq k i, lookup-Above i m, lookup-Above i n)

  head-value :
      (i : K) (v w : V) (m n : OrdMap K V) → lookup i ((i, v) ∷ m) ≡ lookup i ((i, w) ∷ n) → v ≡ w
  unfolding lookup
  head-value i v w m n h = ground (arith, o.cmp_refl i)

  -- Two maps in order with the same lookups are equal.
  pub lookup_ext :
      (m n : OrdMap K V) → IsSorted m → IsSorted n → ((k : K) → lookup k m ≡ lookup k n) → m ≡ n
  lookup_ext [] [] s t h = refl
  lookup_ext [] ((j, w) ∷ n) s t h = absurd (unfold lookup in ground (arith, h j, o.cmp_refl j))
  lookup_ext ((i, v) ∷ m) [] s t h = absurd (unfold lookup in ground (arith, h i, o.cmp_refl i))
  lookup_ext ((i, v) ∷ m) ((j, w) ∷ n) (a, s) (b, t) h =
      let e : i ≡ j = head-key i j v w m n a b h in
      let b' : Above i n = subst (λ x. Above x n) (sym e) b in
      let h' : ((k : K) → lookup k ((i, v) ∷ m) ≡ lookup k ((i, w) ∷ n)) =
        subst (λ x. (k : K) → lookup k ((i, v) ∷ m) ≡ lookup k ((x, w) ∷ n)) (sym e) h in
      ground (
        arith,
        e,
        head-value i v w m n (h' i),
        lookup_ext m n s t (λ k. tail-lookup i k v w m n a b' (h' k)),
      )
