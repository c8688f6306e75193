-- ===== src/Model/Dedup.antt =====
-- `deduplicate_last_wins`: of the cookies with one key the last one stays.
use mathlib.Core.List.{reverse-cons, reverse-reverse}
use luck_editor.Prelude.{
  ◌+◌, ◌≤◌, [], ◌∷◌, ◌++◌, true, false, if◌then◌else◌, Option, none, some, find, length, reverse,
  ◌≡◌, refl, arith, ap, ◌∙◌, sym, subst, All-append, ◌=?◌, =?_comm, =?_eq, length-append,
}
use luck_editor.OrdMap.{OrdSet, contains_key, add, lookup}
use luck_editor.OrdMap.Laws.{lookup-insert}
use luck_editor.Model.{
  Cookie, CookieKey, CookieCollection, key_ord, key, retain_unseen, deduplicate_last_wins,
}
use luck_editor.Diff.Maps.{find_last, IsFresh, IsDistinct}

-- The first cookie with the key.
abbrev first : CookieKey → CookieCollection → Option Cookie
first k = find (λ c. k =? key c)

contains-add :
    (j k : CookieKey) (s : OrdSet CookieKey)
    → contains_key j (add k s) ≡ (if j =? k then true else contains_key j s)
contains-add j k s = ground (arith, lookup-insert j k tt s)

first-retain_unseen :
    (k : CookieKey) (seen : OrdSet CookieKey) (cs : CookieCollection)
    → first k (retain_unseen seen cs) ≡ (if contains_key k seen then none else first k cs)
unfolding retain_unseen
first-retain_unseen k seen [] = ground arith
first-retain_unseen k seen (c ∷ cs) = ground (
  arith,
  first-retain_unseen k (add (key c) seen) cs,
  contains-add k (key c) seen,
  =?_eq k (key c),
)

-- What stays was not seen before.
retain_unseen-All :
    (k : CookieKey) (seen : OrdSet CookieKey) (cs : CookieCollection)
    → contains_key k seen ≡ true
    → IsFresh k (retain_unseen seen cs)
unfolding retain_unseen
retain_unseen-All k seen [] h = tt
retain_unseen-All k seen (c ∷ cs) h =
    ground (
      arith,
      retain_unseen-All k (add (key c) seen) cs,
      contains-add k (key c) seen,
      =?_eq k (key c),
    )

retain_unseen-IsDistinct :
    (seen : OrdSet CookieKey) (cs : CookieCollection) → IsDistinct (retain_unseen seen cs)
unfolding retain_unseen
retain_unseen-IsDistinct seen [] = tt
retain_unseen-IsDistinct seen (c ∷ cs) = ground (
  arith,
  retain_unseen-IsDistinct (add (key c) seen) cs,
  retain_unseen-All (key c) (add (key c) seen) cs,
  contains-add (key c) (key c) seen,
  key_ord.cmp_refl (key c),
)

length-retain_unseen :
    (seen : OrdSet CookieKey) (cs : CookieCollection) → length (retain_unseen seen cs) ≤ length cs
unfolding retain_unseen
length-retain_unseen seen [] = omega arith
length-retain_unseen seen (c ∷ cs) = ground (arith, length-retain_unseen (add (key c) seen) cs)

find_last-append :
    (k : CookieKey) (acc : Option Cookie) (xs ys : CookieCollection)
    → find_last k acc (xs ++ ys) ≡ find_last k (find_last k acc xs) ys
unfolding find_last
find_last-append k acc [] ys = refl
find_last-append k acc (x ∷ xs) ys = find_last-append k (if k =? key x then some x else acc) xs ys

-- The last cookie of a reversed list is the first one of the list.
find_last-reverse :
    (k : CookieKey) (cs : CookieCollection) → find_last k none (reverse cs) ≡ first k cs
unfolding find_last
find_last-reverse k [] = refl
find_last-reverse k (c ∷ cs) =
    ap (find_last k none) (reverse-cons c cs)
    ∙ find_last-append k none (reverse cs) (c ∷ [])
    ∙ ap (λ o. if k =? key c then some c else o) (find_last-reverse k cs)
    ∙ ground arith

snoc-IsDistinct :
    (c : Cookie) (cs : CookieCollection)
    → IsFresh (key c) cs
    → IsDistinct cs
    → IsDistinct (cs ++ (c ∷ []))
snoc-IsDistinct c [] f d = (tt, tt)
snoc-IsDistinct c (x ∷ cs) (f, fs) (g, d) = (
  All-append (λ y. (key x =? key y) ≡ false) cs (c ∷ []) g (=?_comm (key x) (key c) ∙ f, tt),
  snoc-IsDistinct c cs fs d,
)

reverse-IsFresh : (k : CookieKey) (cs : CookieCollection) → IsFresh k cs → IsFresh k (reverse cs)
reverse-IsFresh k [] h = tt
reverse-IsFresh k (c ∷ cs) (h, hs) =
    subst (IsFresh k) (sym (reverse-cons c cs)) (
      All-append (λ y. (k =? key y) ≡ false) (reverse cs) (c ∷ []) (reverse-IsFresh k cs hs)
        (h, tt))

reverse-IsDistinct : (cs : CookieCollection) → IsDistinct cs → IsDistinct (reverse cs)
reverse-IsDistinct [] h = tt
reverse-IsDistinct (c ∷ cs) (f, d) =
    subst IsDistinct (sym (reverse-cons c cs))
      (snoc-IsDistinct c (reverse cs) (reverse-IsFresh (key c) cs f) (reverse-IsDistinct cs d))

length-reverse : (cs : CookieCollection) → length (reverse cs) ≡ length cs
length-reverse [] = refl
length-reverse (c ∷ cs) =
    omega
      (arith, ap length (reverse-cons c cs), length-append (reverse cs) (c ∷ []), length-reverse cs)

-- Behind `deduplicate_last_wins` no two cookies have one key, for every key the cookie is the last
-- one that had it before, and the number returned is that of the cookies gone.
pub deduplicate_last_wins_lem :
    (cs : CookieCollection) (k : CookieKey)
    → IsDistinct (deduplicate_last_wins cs).1
      × (find_last k none (deduplicate_last_wins cs).1 ≡ find_last k none cs)
      × ((deduplicate_last_wins cs).0 + length (deduplicate_last_wins cs).1 ≡ length cs)
unfolding deduplicate_last_wins lookup
deduplicate_last_wins_lem cs k =
    let kept = retain_unseen [] (reverse cs) in
    (
      reverse-IsDistinct kept (retain_unseen-IsDistinct [] (reverse cs)),
      find_last-reverse k kept
          ∙ first-retain_unseen k [] (reverse cs)
          ∙ sym (find_last-reverse k (reverse cs))
          ∙ ap (find_last k none) (reverse-reverse cs),
      omega (arith, length-reverse kept, length-reverse cs, length-retain_unseen [] (reverse cs)),
    )
