-- ===== src/OrdMap/Laws.antt =====
-- Lookups after a write; no condition on the order of the entries is needed.
use luck_editor.Prelude.{[], ◌∷◌, none, some, Ord, ◌=?◌, ◌≡◌, refl, if◌then◌else◌, arith, All}
use luck_editor.OrdMap.Defs.{OrdMap, lookup, insert, remove}

module _ {ℓ κ} {K : Type ℓ} {V : Type κ} ⦃o : Ord K⦄ where
  pub lookup-insert :
      (j k : K) (v : V) (m : OrdMap K V)
      → lookup j (insert k v m) ≡ (if j =? k then some v else lookup j m)
  unfolding lookup insert
  lookup-insert j k v [] = refl
  lookup-insert j k v ((i, w) ∷ m) = ground (
    arith,
    lookup-insert j k v m,
    o.cmp_eq j k,
    o.cmp_eq k i,
    o.cmp_eq j i,
    o.cmp_refl j,
    o.cmp_refl k,
  )

  pub lookup-remove :
      (j k : K) (m : OrdMap K V) → lookup j (remove k m) ≡ (if j =? k then none else lookup j m)
  unfolding lookup remove
  lookup-remove j k [] = ground arith
  lookup-remove j k ((i, w) ∷ m) = ground (
    arith,
    lookup-remove j k m,
    o.cmp_eq j k,
    o.cmp_eq k i,
    o.cmp_eq j i,
    o.cmp_refl j,
    o.cmp_refl k,
  )

  pub lookup-insert_self : (k : K) (v : V) (m : OrdMap K V) → lookup k (insert k v m) ≡ some v
  lookup-insert_self k v m = ground (arith, lookup-insert k k v m, o.cmp_refl k)

  -- A lookup finds only what every entry satisfies.
  pub lookup-All {μ} :
      (P : K × V → Type μ) (k : K) (v : V) (m : OrdMap K V)
      → All P m
      → lookup k m ≡ some v
      → P (k, v)
  unfolding lookup
  lookup-All P k v [] h e = absurd (ground arith)
  lookup-All P k v ((i, w) ∷ m) (h, hs) e = ground (arith, lookup-All P k v m hs, o.cmp_eq k i)

  pub All-insert {μ} :
      (P : K × V → Type μ) (k : K) (v : V) (m : OrdMap K V)
      → P (k, v)
      → All P m
      → All P (insert k v m)
  unfolding insert
  All-insert P k v [] p h = (p, tt)
  All-insert P k v ((i, w) ∷ m) p (h, hs) = ground (arith, All-insert P k v m p hs, o.cmp_eq k i)

  pub All-remove {μ} : (P : K × V → Type μ) (k : K) (m : OrdMap K V) → All P m → All P (remove k m)
  unfolding remove
  All-remove P k [] h = tt
  All-remove P k ((i, w) ∷ m) (h, hs) = ground (arith, All-remove P k m hs)
