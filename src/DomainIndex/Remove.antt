-- ===== src/DomainIndex/Remove.antt =====
-- What removing and replacing a cookie changes in the index.
use luck_editor.Prelude.{
  [], ◌∷◌, true, false, not, ◌||◌, ◌&&◌, if◌then◌else◌, is_empty, ◌=?◌, list_ord, nat_ord, ◌≡◌,
  refl, arith, ap, ◌∙◌, sym, Option-cases, inl, inr, =?_comm, =?_eq, All, subst,
}
use luck_editor.OrdMap.{OrdMap, OrdSet, lookup, insert, remove, contains_key, add}
use luck_editor.OrdMap.Laws.{lookup-insert, lookup-remove, All-insert, All-remove}
use luck_editor.Text.{Text}
use luck_editor.Model.{Cookie, CookieKey, key_ord, key}
use luck_editor.DomainIndex.{
  DomainIndex, normalize_domain, keys_at, empty_index, insert_cookie, remove_key, remove_cookie,
  replace,
}
use luck_editor.DomainIndex.Build.{holds, stands, insert_cookie-holds}

contains-remove :
    (j k : CookieKey) (s : OrdSet CookieKey)
    → contains_key j (remove k s) ≡ (not (j =? k) && contains_key j s)
contains-remove j k s = ground (arith, lookup-remove j k s)

contains-empty :
    (k : CookieKey) (s : OrdSet CookieKey) → is_empty s ≡ true → contains_key k s ≡ false
contains-empty k [] h = unfold lookup in refl
contains-empty k (e ∷ s) h = absurd (ground arith)

-- The keys left at the domain, however the emptied set is taken away.
keys_at-remove_key :
    (d e : Text) (j k : CookieKey) (m : OrdMap Text (OrdSet CookieKey))
    → contains_key j (keys_at (remove_key e k m).1 d)
      ≡ (if d =? e then contains_key j (remove k (keys_at m e)) else contains_key j (keys_at m d))
unfolding remove_key
keys_at-remove_key d e j k m = elim (Option-cases (lookup e m)) [
  | inl h ↦ rw h (ground (arith, h, =?_eq d e, contains-remove j k [], contains-empty j [] refl))
  | inr (found, h) ↦ rw h (
      ground (
        arith,
        lookup-remove d e m,
        lookup-insert d e (remove k found) m,
        contains-empty j (remove k found),
      ))
]

removed_flag :
    (e : Text) (k : CookieKey) (m : OrdMap Text (OrdSet CookieKey))
    → (remove_key e k m).0 ≡ contains_key k (keys_at m e)
unfolding remove_key
removed_flag e k m = elim (Option-cases (lookup e m)) [
  | inl h ↦ ground (arith, contains-empty k [] refl)
  | inr (found, h) ↦ ground arith
]

-- `remove` answers whether the index held the cookie's key under the cookie's domain; behind it no
-- other entry of a domain has changed and this one is gone, and in each of the four sets of flags
-- the key is gone and every other key stands as before.
pub remove_cookie_lem :
    (index : DomainIndex) (c : Cookie) (d : Text) (k : CookieKey)
    → ((remove_cookie index c).0 ≡ holds index (normalize_domain c.domain) (key c))
      × (holds (remove_cookie index c).1 d k ≡ (not (stands d k c) && holds index d k))
      × (contains_key k (remove_cookie index c).1.host_only
          ≡ (not (k =? key c) && contains_key k index.host_only))
      × (contains_key k (remove_cookie index c).1.secure
          ≡ (not (k =? key c) && contains_key k index.secure))
      × (contains_key k (remove_cookie index c).1.http_only
          ≡ (not (k =? key c) && contains_key k index.http_only))
      × (contains_key k (remove_cookie index c).1.session
          ≡ (not (k =? key c) && contains_key k index.session))
unfolding remove_cookie
remove_cookie_lem index c d k =
    let e = normalize_domain c.domain in
    (
      removed_flag e (key c) index.domains,
      keys_at-remove_key d e k (key c) index.domains
          ∙ ground (
            arith,
            =?_comm d e,
            =?_comm k (key c),
            =?_eq d e,
            contains-remove k (key c) (keys_at index.domains e),
          ),
      contains-remove k (key c) index.host_only,
      contains-remove k (key c) index.secure,
      contains-remove k (key c) index.http_only,
      contains-remove k (key c) index.session,
    )

-- `replace` takes the old cookie's key from its domain and puts the new cookie's under its own.
pub replace_lem :
    (index : DomainIndex) (before after : Cookie) (d : Text) (k : CookieKey)
    → holds (replace index before after) d k
      ≡ ((not (stands d k before) && holds index d k) || stands d k after)
unfolding replace
replace_lem index before after d k =
    insert_cookie-holds (remove_cookie index before).1 after d k
    ∙ ap (λ b. b || stands d k after) (remove_cookie_lem index before d k).1

-- No domain stands for nothing.
abbrev pub IsFull : OrdMap Text (OrdSet CookieKey) → Type 0
IsFull = All (λ e. is_empty e.1 ≡ false)

add-full : (k : CookieKey) (s : OrdSet CookieKey) → is_empty (add k s) ≡ false
unfolding insert
add-full k [] = refl
add-full k ((j, u) ∷ s) = ground arith

insert_cookie-IsFull :
    (index : DomainIndex) (c : Cookie)
    → IsFull index.domains
    → IsFull (insert_cookie index c).domains
unfolding insert_cookie
insert_cookie-IsFull index c h =
    All-insert (λ e. is_empty e.1 ≡ false) (normalize_domain c.domain)
      (add (key c) (keys_at index.domains (normalize_domain c.domain))) index.domains
      (add-full (key c) (keys_at index.domains (normalize_domain c.domain))) h

kept : Text → OrdSet CookieKey → OrdMap Text (OrdSet CookieKey) → OrdMap Text (OrdSet CookieKey)
kept e left m = if is_empty left then remove e m else insert e left m

kept-IsFull :
    (e : Text) (left : OrdSet CookieKey) (m : OrdMap Text (OrdSet CookieKey))
    → IsFull m
    → IsFull (kept e left m)
unfolding kept
kept-IsFull e [] m h = All-remove (λ x. is_empty x.1 ≡ false) e m h
kept-IsFull e (x ∷ left) m h = All-insert (λ y. is_empty y.1 ≡ false) e (x ∷ left) m refl h

remove_key-IsFull :
    (e : Text) (k : CookieKey) (m : OrdMap Text (OrdSet CookieKey))
    → IsFull m
    → IsFull (remove_key e k m).1
remove_key-IsFull e k m h = elim (Option-cases (lookup e m)) [
  | inl g ↦
      let same : (remove_key e k m).1 ≡ m = unfold remove_key in rw (g, remove_key) refl in
      subst IsFull (sym same) h
  | inr (found, g) ↦
      let same : (remove_key e k m).1 ≡ kept e (remove k found) m =
        unfold remove_key kept in rw (g, remove_key) refl in
      subst IsFull (sym same) (kept-IsFull e (remove k found) m h)
]

-- The methods that change an index, one call after another, from the empty index.
pub data Reach : DomainIndex → Type 0 where
  start : Reach empty_index
  inserted : {index : DomainIndex} (c : Cookie) → Reach index → Reach (insert_cookie index c)
  removed : {index : DomainIndex} (c : Cookie) → Reach index → Reach (remove_cookie index c).1
  replaced :
      {index : DomainIndex} (before after : Cookie)
      → Reach index
      → Reach (replace index before after)

-- In an index that any calls of `insert`, `remove` and `replace` lead to, no domain is without
-- keys: the last key of a domain takes the domain along.
pub Reach-IsFull : {index : DomainIndex} → Reach index → IsFull index.domains
unfolding remove_cookie replace
Reach-IsFull start = tt
Reach-IsFull (inserted {index} c r) = insert_cookie-IsFull index c (Reach-IsFull r)
Reach-IsFull (removed {index} c r) =
    remove_key-IsFull (normalize_domain c.domain) (key c) index.domains (Reach-IsFull r)
Reach-IsFull (replaced {index} before after r) =
    insert_cookie-IsFull (remove_cookie index before).1 after (
      remove_key-IsFull (normalize_domain before.domain) (key before) index.domains
        (Reach-IsFull r))
