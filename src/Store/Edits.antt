-- ===== src/Store/Edits.antt =====
-- Edits of a transaction's working copy, and what a commit makes of them.
pub mod Reads
use luck_editor.Prelude.{
  ℕ, ◌+◌, ◌-◌, List, [], ◌∷◌, ◌++◌, Bool, true, false, not, Option, none, some, ◌≡◌, refl, arith,
  All, All-imp, All-append, All-filter, subst, sym, ◌∙◌, ap, find, filter, any, map, length, ◌=?◌,
  =?_refl, =?_eq, =?_comm, if◌then◌else◌, is_some, Bool-cases, inl, inr,
}
use luck_editor.OrdMap.{lookup, values}
use luck_editor.Model.{Cookie, CookieKey, CookieCollection, key_ord, key}
use luck_editor.Diff.Maps.{
  IsFresh, IsDistinct, find_last, find_last-IsFresh, values-IsDistinct, find_last-values,
}
use luck_editor.Store.Transaction.{
  CookieTransaction, transaction_get, remove_first, transaction_insert, transaction_remove,
  transaction_retain, transaction_clear, replace_collection,
}
use luck_editor.Store.Defs.{CookieStore, collection, begin}
use luck_editor.Store.Commit.{IsValid}

remove_first-IsFresh :
    (k j : CookieKey) (cs : CookieCollection) → IsFresh k cs → IsFresh k (remove_first j cs)
unfolding remove_first
remove_first-IsFresh k j [] h = tt
remove_first-IsFresh k j (c ∷ cs) (h, hs) = ground (arith, remove_first-IsFresh k j cs hs)

remove_first-IsDistinct :
    (j : CookieKey) (cs : CookieCollection) → IsDistinct cs → IsDistinct (remove_first j cs)
unfolding remove_first
remove_first-IsDistinct j [] h = tt
remove_first-IsDistinct j (c ∷ cs) (h, hs) =
    ground (arith, remove_first-IsDistinct j cs hs, remove_first-IsFresh (key c) j cs h)

IsFresh-remove_first :
    (k : CookieKey) (cs : CookieCollection) → IsDistinct cs → IsFresh k (remove_first k cs)
unfolding remove_first
IsFresh-remove_first k [] h = tt
IsFresh-remove_first k (c ∷ cs) (h, hs) = elim (Bool-cases (key c =? k)) [
  | inl same ↦ rw same (subst (λ x. IsFresh x cs) (=?_eq (key c) k same) h)
  | inr other ↦ rw other ((=?_comm k (key c) ∙ other, IsFresh-remove_first k cs hs))
]

snoc-IsDistinct :
    (cs : CookieCollection) (c : Cookie)
    → IsDistinct cs
    → IsFresh (key c) cs
    → IsDistinct (cs ++ (c ∷ []))
snoc-IsDistinct [] c d f = (tt, tt)
snoc-IsDistinct (x ∷ cs) c (h, d) (e, f) = (
  All-append (λ y. (key x =? key y) ≡ false) cs (c ∷ []) h (=?_comm (key x) (key c) ∙ e, tt),
  snoc-IsDistinct cs c d f,
)

filter-IsDistinct :
    (p : Cookie → Bool) (cs : CookieCollection) → IsDistinct cs → IsDistinct (filter p cs)
filter-IsDistinct p [] d = tt
filter-IsDistinct p (c ∷ cs) (h, d) =
    ground (arith, filter-IsDistinct p cs d, All-filter (λ y. (key c =? key y) ≡ false) p cs h)

-- A transaction begun on a store, after any sequence of edits; a collection installed as a whole is
-- one of distinct keys.
pub data Edited (s : CookieStore) : CookieTransaction → Type 0 where
  begun : Edited s (begin s)
  inserted :
      {t : CookieTransaction} → Edited s t → (c : Cookie) → Edited s (transaction_insert t c).0
  removed :
      {t : CookieTransaction} → Edited s t → (k : CookieKey) → Edited s (transaction_remove t k).0
  retained :
      {t : CookieTransaction}
      → Edited s t
      → (predicate : Cookie → Bool) → Edited s (transaction_retain t predicate).0
  cleared : {t : CookieTransaction} → Edited s t → Edited s (transaction_clear t).0
  replaced :
      {t : CookieTransaction}
      → Edited s t
      → (cs : CookieCollection) → IsDistinct cs
      → Edited s (replace_collection t cs)

-- A transaction that still stands on the store it was begun on.
abbrev pub IsOpen : CookieStore → CookieTransaction → Type 0
IsOpen s t = (t.base ≡ collection s) × (t.base_revision ≡ s.revision) × (t.closed ≡ false)

remove-IsOpen :
    (s : CookieStore) (t : CookieTransaction) (k : CookieKey)
    → IsOpen s t
    → IsDistinct t.working
    → IsDistinct (transaction_remove t k).0.working × IsOpen s (transaction_remove t k).0
unfolding transaction_remove
remove-IsOpen s t k o d = ground (arith, remove_first-IsDistinct k t.working d)

-- A transaction begun on a valid store has distinct keys in its working copy after any sequence of
-- insertions, removals, retentions, clearings and replacements by a collection of distinct keys,
-- and it is still open, on the cookies and at the revision of that store.
pub Edited-IsDistinct :
    (s : CookieStore) (t : CookieTransaction)
    → IsValid s
    → Edited s t
    → IsDistinct t.working × IsOpen s t
unfolding begin collection transaction_insert transaction_retain transaction_clear
    replace_collection
Edited-IsDistinct s t v Edited.begun =
    (values-IsDistinct s.cookies v.keyed v.ordered, (refl, refl, refl))
Edited-IsDistinct s t v (Edited.inserted {t = u} e c) =
    let (d, o) = Edited-IsDistinct s u v e in
    (
      snoc-IsDistinct (remove_first (key c) u.working) c
          (remove_first-IsDistinct (key c) u.working d) (IsFresh-remove_first (key c) u.working d),
      o,
    )
Edited-IsDistinct s t v (Edited.removed {t = u} e k) =
    let (d, o) = Edited-IsDistinct s u v e in remove-IsOpen s u k o d
Edited-IsDistinct s t v (Edited.retained {t = u} e predicate) =
    let (d, o) = Edited-IsDistinct s u v e in (filter-IsDistinct _ u.working d, o)
Edited-IsDistinct s t v (Edited.cleared e) = (tt, (Edited-IsDistinct s _ v e).1)
Edited-IsDistinct s t v (Edited.replaced e cs d) = (d, (Edited-IsDistinct s _ v e).1)
