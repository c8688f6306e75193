-- ===== src/Store/Edits/Reads.antt =====
-- What a transaction reads after its edits, and what the store reads after their commit.
use luck_editor.Prelude.{
  ◌-◌, List, [], ◌∷◌, ◌++◌, Bool, false, not, Option, none, some, ◌≡◌, refl, arith, All, ◌∙◌, ap,
  find, filter, any, map, length, ◌=?◌, =?_refl, =?_eq, =?_comm, if◌then◌else◌,
}
use luck_editor.OrdMap.{lookup, values}
use luck_editor.Errors.{ok}
use luck_editor.Model.{Cookie, CookieKey, CookieCollection, key_ord, key}
use luck_editor.Diff.Maps.{IsFresh, IsDistinct, find_last, find_last-values, lookup-collection_map}
use luck_editor.Store.Defs.{
  CookieStore, CommitRecord, CommitMetadata, begin, commit, collection, store_get,
}
use luck_editor.Store.Commit.{IsValid, commit-ok}
use luck_editor.Store.Transaction.{
  CookieTransaction, transaction_get, remove_first, transaction_insert, transaction_remove,
  transaction_retain,
}

find-IsFresh :
    (k : CookieKey) (cs : CookieCollection) → IsFresh k cs → find (λ c. key c =? k) cs ≡ none
find-IsFresh k [] h = refl
find-IsFresh k (c ∷ cs) (h, hs) = rw (=?_comm (key c) k, h) (find-IsFresh k cs hs)

find-remove_first :
    (j k : CookieKey) (cs : CookieCollection)
    → IsDistinct cs
    → find (λ c. key c =? j) (remove_first k cs)
      ≡ (if k =? j then none else find (λ c. key c =? j) cs)
unfolding remove_first
find-remove_first j k [] d = ground arith
find-remove_first j k (c ∷ cs) (h, d) = ground (
  arith,
  find-remove_first j k cs d,
  =?_eq (key c) k,
  =?_eq (key c) j,
  =?_eq k j,
  =?_refl k,
  =?_refl (key c),
  find-IsFresh (key c) cs h,
)

find-snoc :
    (j : CookieKey) (cs : CookieCollection) (c : Cookie)
    → find (λ x. key x =? j) cs ≡ none
    → find (λ x. key x =? j) (cs ++ (c ∷ [])) ≡ (if key c =? j then some c else none)
find-snoc j [] c h = refl
find-snoc j (x ∷ cs) c h = ground (arith, find-snoc j cs c)

find-snoc_ne :
    (j : CookieKey) (cs : CookieCollection) (c : Cookie)
    → (key c =? j) ≡ false
    → find (λ x. key x =? j) (cs ++ (c ∷ [])) ≡ find (λ x. key x =? j) cs
find-snoc_ne j [] c h = rw h
find-snoc_ne j (x ∷ cs) c h = ground (arith, find-snoc_ne j cs c h)

-- After an insertion into a working copy of distinct keys the cookie is read at its key, every
-- other key reads as before, and the value returned is what the key read before.
pub transaction_get-insert :
    (t : CookieTransaction) (c : Cookie) (k : CookieKey)
    → IsDistinct t.working
    → (transaction_get (transaction_insert t c).0 k
        ≡ (if key c =? k then some c else transaction_get t k))
      × ((transaction_insert t c).1 ≡ transaction_get t (key c))
unfolding transaction_get transaction_insert
transaction_get-insert t c k d = (
  ground (
    arith,
    find-remove_first k (key c) t.working d,
    find-snoc k (remove_first (key c) t.working) c,
    find-snoc_ne k (remove_first (key c) t.working) c,
  ),
  refl,
)

-- After a removal from a working copy of distinct keys the key reads as absent, every other key
-- reads as before, and the value returned is what the key read before.
pub transaction_get-remove :
    (t : CookieTransaction) (j k : CookieKey)
    → IsDistinct t.working
    → (transaction_get (transaction_remove t j).0 k
        ≡ (if j =? k then none else transaction_get t k))
      × ((transaction_remove t j).1 ≡ transaction_get t j)
unfolding transaction_get transaction_remove
transaction_get-remove t j k d =
    (ground (arith, find-remove_first k j t.working d, =?_eq j k), ground arith)

removed_keys : (Cookie → Bool) → CookieCollection → List CookieKey
removed_keys p cs = map key (filter (λ c. not (p c)) cs)

abbrev is_removed : List CookieKey → Cookie → Bool
is_removed ks c = any (λ k. k =? key c) ks

is_removed_fresh :
    (p : Cookie → Bool) (c : Cookie) (cs : CookieCollection)
    → IsFresh (key c) cs
    → is_removed (removed_keys p cs) c ≡ false
unfolding removed_keys
is_removed_fresh p c [] h = refl
is_removed_fresh p c (d ∷ cs) (h, hs) =
    ground (arith, is_removed_fresh p c cs hs, =?_comm (key d) (key c))

is_removed_tail :
    (p : Cookie → Bool) (c : Cookie) (cs ds : CookieCollection)
    → IsFresh (key c) ds
    → All (λ d. is_removed (removed_keys p cs) d ≡ not (p d)) ds
    → All (λ d. is_removed (removed_keys p (c ∷ cs)) d ≡ not (p d)) ds
unfolding removed_keys
is_removed_tail p c cs [] f h = tt
is_removed_tail p c cs (d ∷ ds) (e, f) (h, hs) = (ground arith, is_removed_tail p c cs ds f hs)

-- In a collection of distinct keys a cookie's key is removed exactly if the cookie is.
is_removed_lem :
    (p : Cookie → Bool) (cs : CookieCollection)
    → IsDistinct cs
    → All (λ d. is_removed (removed_keys p cs) d ≡ not (p d)) cs
is_removed_lem p [] d = tt
is_removed_lem p (c ∷ cs) (f, d) = (
  unfold removed_keys in ground (arith, is_removed_fresh p c cs f, =?_refl (key c)),
  is_removed_tail p c cs cs f (is_removed_lem p cs d),
)

filter_ext :
    (p q : Cookie → Bool) (cs : CookieCollection)
    → All (λ c. p c ≡ not (q c)) cs
    → filter (λ c. not (p c)) cs ≡ filter q cs
filter_ext p q [] h = refl
filter_ext p q (c ∷ cs) (h, hs) = ground (arith, filter_ext p q cs hs)

-- `retain` on a working copy of distinct keys keeps exactly the cookies that satisfy the
-- predicate, in their order, and returns how many it drops.
pub transaction_retain_lem :
    (t : CookieTransaction) (predicate : Cookie → Bool)
    → IsDistinct t.working
    → ((transaction_retain t predicate).0.working ≡ filter predicate t.working)
      × ((transaction_retain t predicate).1
          ≡ length t.working - length (filter predicate t.working))
unfolding transaction_retain
transaction_retain_lem t predicate d =
    let e : filter (λ c. not (is_removed (removed_keys predicate t.working) c)) t.working
        ≡ filter predicate t.working =
      filter_ext _ predicate t.working (is_removed_lem predicate t.working d) in
    unfold removed_keys in (e, ap (λ x. length t.working - length x) e)

find_last-snoc :
    (k : CookieKey) (acc : Option Cookie) (cs : CookieCollection) (c : Cookie)
    → find_last k acc (cs ++ (c ∷ [])) ≡ (if k =? key c then some c else find_last k acc cs)
unfolding find_last
find_last-snoc k acc [] c = refl
find_last-snoc k acc (x ∷ cs) c = find_last-snoc k (if k =? key x then some x else acc) cs c

find_last-remove_first :
    (k j : CookieKey) (acc : Option Cookie) (cs : CookieCollection)
    → (k =? j) ≡ false
    → find_last k acc (remove_first j cs) ≡ find_last k acc cs
unfolding find_last remove_first
find_last-remove_first k j acc [] h = refl
find_last-remove_first k j acc (c ∷ cs) h =
    ground
      (arith, find_last-remove_first k j (if k =? key c then some c else acc) cs h, =?_eq (key c) j)

-- A transaction begun on a valid store, with one cookie inserted, once committed makes the store
-- read that cookie at its key and every other key as before.
pub store_get-insert :
    (s s' : CookieStore) (c : Cookie) (m : CommitMetadata) (r : CommitRecord) (k : CookieKey)
    → IsValid s
    → commit s (transaction_insert (begin s) c).0 m ≡ ok (s', r)
    → store_get s' k ≡ (if k =? key c then some c else store_get s k)
unfolding store_get transaction_insert begin collection
store_get-insert s s' c m r k v h =
    let (closed, current, e, f) = commit-ok s s' (transaction_insert (begin s) c).0 m r h in
    let w : CookieCollection = remove_first (key c) (values s.cookies) ++ (c ∷ []) in
    ap (λ x. lookup k x.cookies) e
    ∙ lookup-collection_map k w
    ∙ find_last-snoc k none (remove_first (key c) (values s.cookies)) c
    ∙ ground (
      arith,
      find_last-remove_first k (key c) none (values s.cookies),
      find_last-values k s.cookies v.keyed v.ordered,
    )
