-- ===== src/Diff/Maps.antt =====
-- Maps from keys to cookies built out of collections.
use luck_editor.Prelude.{
  [], ◌∷◌, false, if◌then◌else◌, Option, none, some, ◌=?◌, =?_eq, ◌≡◌, refl, arith, All, ◌∙◌, ap,
  Ordering, Bool-cases, inl, inr, ≺_ne,
}
use luck_editor.Prelude.Sort.{insert_by, sort_by, All-sort_by}
use luck_editor.OrdMap.{OrdMap, lookup, insert, values}
use luck_editor.OrdMap.Laws.{lookup-insert, All-insert}
use luck_editor.OrdMap.Order.{IsSorted, insert-IsSorted, Above, lookup_ext}
use luck_editor.Model.{Cookie, CookieKey, CookieCollection, key_ord, key, cmp_stable, sort_stable}
use luck_editor.Diff.Compute.{collect_into, collection_map}

-- The last cookie with the key, or `acc`.
unfoldable pub find_last : CookieKey → Option Cookie → CookieCollection → Option Cookie
find_last k acc [] = acc
find_last k acc (c ∷ cs) = find_last k (if k =? key c then some c else acc) cs

-- Every cookie stands at its key.
abbrev pub IsKeyed : OrdMap CookieKey Cookie → Type 0
IsKeyed = All (λ e. key e.1 ≡ e.0)

-- No cookie of the list has the key.
abbrev pub IsFresh : CookieKey → CookieCollection → Type 0
IsFresh k = All (λ c. (k =? key c) ≡ false)

-- No two cookies of the list have one key.
abbrev pub IsDistinct : CookieCollection → Type 0
IsDistinct [] = Unit {0}
IsDistinct (c ∷ cs) = IsFresh (key c) cs × IsDistinct cs

pub lookup-collect_into :
    (k : CookieKey) (m : OrdMap CookieKey Cookie) (cs : CookieCollection)
    → lookup k (collect_into m cs) ≡ find_last k (lookup k m) cs
unfolding collect_into find_last
lookup-collect_into k m [] = refl
lookup-collect_into k m (c ∷ cs) =
    lookup-collect_into k (insert (key c) c m) cs
    ∙ ap (λ o. find_last k o cs) (lookup-insert k (key c) c m)

pub lookup-collection_map :
    (k : CookieKey) (cs : CookieCollection) → lookup k (collection_map cs) ≡ find_last k none cs
unfolding collection_map
lookup-collection_map k cs = lookup-collect_into k [] cs ∙ (unfold lookup in refl)

pub collect_into-IsSorted :
    (m : OrdMap CookieKey Cookie) (cs : CookieCollection)
    → IsSorted m
    → IsSorted (collect_into m cs)
unfolding collect_into
collect_into-IsSorted m [] s = s
collect_into-IsSorted m (c ∷ cs) s =
    collect_into-IsSorted (insert (key c) c m) cs (insert-IsSorted (key c) c m s)

pub collect_into-IsKeyed :
    (m : OrdMap CookieKey Cookie) (cs : CookieCollection) → IsKeyed m → IsKeyed (collect_into m cs)
unfolding collect_into
collect_into-IsKeyed m [] h = h
collect_into-IsKeyed m (c ∷ cs) h =
    collect_into-IsKeyed (insert (key c) c m) cs
      (All-insert (λ e. key e.1 ≡ e.0) (key c) c m refl h)

pub collection_map-IsSorted : (cs : CookieCollection) → IsSorted (collection_map cs)
unfolding collection_map
collection_map-IsSorted cs = collect_into-IsSorted [] cs tt

pub collection_map-IsKeyed : (cs : CookieCollection) → IsKeyed (collection_map cs)
unfolding collection_map
collection_map-IsKeyed cs = collect_into-IsKeyed [] cs tt

pub find_last-IsFresh :
    (k : CookieKey) (acc : Option Cookie) (cs : CookieCollection)
    → IsFresh k cs
    → find_last k acc cs ≡ acc
unfolding find_last
find_last-IsFresh k acc [] h = refl
find_last-IsFresh k acc (c ∷ cs) (h, hs) = rw h (find_last-IsFresh k acc cs hs)

module _ (cmp : Cookie → Cookie → Ordering) where
  find_last-insert_by :
      (k : CookieKey) (acc : Option Cookie) (x : Cookie) (cs : CookieCollection)
      → IsFresh (key x) cs
      → find_last k acc (insert_by cmp x cs) ≡ find_last k acc (x ∷ cs)
  unfolding find_last insert_by
  find_last-insert_by k acc x [] h = refl
  find_last-insert_by k acc x (y ∷ ys) (h, hs) = ground (
    arith,
    find_last-insert_by k (if k =? key y then some y else acc) x ys hs,
    =?_eq k (key x),
    =?_eq k (key y),
  )

  -- Sorting a collection of distinct keys changes no lookup.
  pub find_last-sort_by :
      (k : CookieKey) (acc : Option Cookie) (cs : CookieCollection)
      → IsDistinct cs
      → find_last k acc (sort_by cmp cs) ≡ find_last k acc cs
  unfolding find_last sort_by
  find_last-sort_by k acc [] d = refl
  find_last-sort_by k acc (c ∷ cs) (f, d) =
      find_last-insert_by k acc c (sort_by cmp cs)
        (All-sort_by cmp (λ x. (key c =? key x) ≡ false) cs f)
      ∙ find_last-sort_by k (if k =? key c then some c else acc) cs d

values-IsFresh :
    (k : CookieKey) (m : OrdMap CookieKey Cookie) → IsKeyed m → Above k m → IsFresh k (values m)
unfolding values
values-IsFresh k [] h a = tt
values-IsFresh k ((j, c) ∷ m) (h, hs) (b, a) = (rw h (≺_ne k j b), values-IsFresh k m hs a)

pub values-IsDistinct :
    (m : OrdMap CookieKey Cookie) → IsKeyed m → IsSorted m → IsDistinct (values m)
unfolding values
values-IsDistinct [] h s = tt
values-IsDistinct ((j, c) ∷ m) (h, hs) (a, s) =
    (rw h (values-IsFresh j m hs a), values-IsDistinct m hs s)

pub find_last-values :
    (k : CookieKey) (m : OrdMap CookieKey Cookie)
    → IsKeyed m
    → IsSorted m
    → find_last k none (values m) ≡ lookup k m
unfolding values find_last lookup
find_last-values k [] h s = refl
find_last-values k ((j, c) ∷ m) (h, hs) (a, s) = elim (Bool-cases (k =? j)) [
  | inl same ↦
      rw (find_last, h, same)
        (find_last-IsFresh k (some c) (values m) (rw (=?_eq k j same) (values-IsFresh j m hs a)))
  | inr other ↦ rw (find_last, h, other) (find_last-values k m hs s)
]

-- The map of the sorted values of a map is the map.
pub collection_map-sort_stable :
    (m : OrdMap CookieKey Cookie)
    → IsKeyed m
    → IsSorted m
    → collection_map (sort_stable (values m)) ≡ m
unfolding sort_stable
collection_map-sort_stable m h s =
    lookup_ext (collection_map (sort_by cmp_stable (values m))) m
      (collection_map-IsSorted (sort_by cmp_stable (values m))) s
      (λ k.
        lookup-collection_map k (sort_by cmp_stable (values m))
        ∙ find_last-sort_by cmp_stable k none (values m) (values-IsDistinct m h s)
        ∙ find_last-values k m h s)

-- The map of the values of a map is the map.
pub collection_map-values :
    (m : OrdMap CookieKey Cookie) → IsKeyed m → IsSorted m → collection_map (values m) ≡ m
collection_map-values m h s =
    lookup_ext (collection_map (values m)) m (collection_map-IsSorted (values m)) s
      (λ k. lookup-collection_map k (values m) ∙ find_last-values k m h s)
