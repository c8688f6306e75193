-- ===== src/Store/Reach.antt =====
-- Every store that the methods can reach is valid.
use luck_editor.Prelude.{
  ℕ, List, [], ◌∷◌, false, Option, ◌≡◌, arith, subst, sym, Option-cases, ◌⊎◌, inl, inr, head?,
}
use luck_editor.Errors.{ok}
use luck_editor.Model.{CookieCollection}
use luck_editor.Diff.{CookieDiff, ConflictStrategy, ApplyDiffReport, apply_diff, invert}
use luck_editor.Store.Defs.{
  CookieStore, CommitRecord, CommitMetadata, StoreSnapshot, new_store, from_collection, commit,
  commit_record, collection, apply_external_diff, restore, rollback_last,
}
use luck_editor.Store.Transaction.{CookieTransaction, TransactionOperation}
use luck_editor.Store.Commit.{
  IsValid, committed, committed-IsValid, commit-IsValid, new_store-IsValid, from_collection-IsValid,
}

-- One call of a method that changes the store, with any arguments, that returns `Ok`.
pub data Step (s : CookieStore) : CookieStore → Type 0 where
  committing :
      {s' : CookieStore} (t : CookieTransaction) (m : CommitMetadata) (r : CommitRecord)
      → commit s t m ≡ ok (s', r)
      → Step s s'
  applying :
      {s' : CookieStore} (n : ℕ) (d : CookieDiff) (c : ConflictStrategy) (m : CommitMetadata)
      (report : ApplyDiffReport)
      → apply_external_diff s n d c m ≡ ok (s', report)
      → Step s s'
  restoring :
      {s' : CookieStore} (snap : StoreSnapshot) (m : CommitMetadata) (r : CommitRecord)
      → restore s snap m ≡ ok (s', r)
      → Step s s'
  rolling_back :
      {s' : CookieStore} (m : CommitMetadata) (r : Option CommitRecord)
      → rollback_last s m ≡ ok (s', r)
      → Step s s'

-- The stores behind any sequence of such calls, from a fresh store or one made from a collection.
pub data Reach : CookieStore → Type 0 where
  fresh : (history_limit : ℕ) → Reach (new_store history_limit)
  loaded : (cs : CookieCollection) (history_limit : ℕ) → Reach (from_collection cs history_limit)
  next : {s t : CookieStore} → Reach s → Step s t → Reach t

-- A transaction of the store itself, with another working copy.
abbrev pub own : CookieStore → CookieCollection → List TransactionOperation → CookieTransaction
own s working operations = record {
  base_revision = s.revision;
  base = collection s;
  working = working;
  operations = operations;
  closed = false;
}

-- It is always committed.
pub commit-own :
    (s : CookieStore) (working : CookieCollection) (ops : List TransactionOperation)
    (m : CommitMetadata)
    → commit s (own s working ops) m
      ≡ ok (committed s (own s working ops) m, commit_record s (own s working ops) m)
unfolding commit
commit-own s working ops m = ground arith

-- A successful call of `apply_external_diff` keeps the store or commits the report's collection.
applying-ok :
    (s s' : CookieStore) (n : ℕ) (d : CookieDiff) (c : ConflictStrategy) (m : CommitMetadata)
    (report : ApplyDiffReport)
    → apply_external_diff s n d c m ≡ ok (s', report)
    → (s' ≡ s) ⊎ (s' ≡ committed s (own s report.collection []) m)
unfolding apply_external_diff
applying-ok s s' n d c m report h =
    ground (arith, commit-own s (apply_diff (collection s) d c).collection [] m)

rolling_back-ok :
    (s s' : CookieStore) (m : CommitMetadata) (r : Option CommitRecord)
    → rollback_last s m ≡ ok (s', r)
    → (s' ≡ s) ⊎ ((working : CookieCollection) × (s' ≡ committed s (own s working []) m))
unfolding rollback_last
rolling_back-ok s s' m r h = elim (Option-cases (head? s.history)) [
  | inl none_ ↦ inl (ground arith)
  | inr (last, e) ↦
      let w = (apply_diff (collection s) (invert last.diff) ConflictStrategy.reject).collection in
      inr (w, ground (arith, commit-own s w [] m))
]

restoring-ok :
    (s s' : CookieStore) (snap : StoreSnapshot) (m : CommitMetadata) (r : CommitRecord)
    → restore s snap m ≡ ok (s', r)
    → s' ≡ committed s (own s snap.collection (TransactionOperation.clear ∷ [])) m
unfolding restore
restoring-ok s s' snap m r h =
    ground (arith, commit-own s snap.collection (TransactionOperation.clear ∷ []) m)

own-IsValid :
    (s s' : CookieStore) (w : CookieCollection) (ops : List TransactionOperation)
    (m : CommitMetadata)
    → IsValid s
    → s' ≡ committed s (own s w ops) m
    → IsValid s'
own-IsValid s s' w ops m v e = subst IsValid (sym e) (committed-IsValid s (own s w ops) m v)

Step-IsValid : {s s' : CookieStore} → IsValid s → Step s s' → IsValid s'
Step-IsValid {s} {s'} v (committing t m r h) = commit-IsValid s s' t m r v h
Step-IsValid {s} {s'} v (applying n d c m report h) = elim (applying-ok s s' n d c m report h) [
  | inl e ↦ subst IsValid (sym e) v
  | inr e ↦ own-IsValid s s' report.collection [] m v e
]
Step-IsValid {s} {s'} v (restoring snap m r h) =
    own-IsValid s s' snap.collection (TransactionOperation.clear ∷ []) m v
      (restoring-ok s s' snap m r h)
Step-IsValid {s} {s'} v (rolling_back m r h) = elim (rolling_back-ok s s' m r h) [
  | inl e ↦ subst IsValid (sym e) v
  | inr (w, e) ↦ own-IsValid s s' w [] m v e
]

-- In every store that a sequence of successful calls reaches, the cookies stand at their keys, in
-- order and each key once, the history is at most as long as its limit and leads back from the
-- current revision without a gap, and the revision is in the range of `u64`.
pub Reach-IsValid : {s : CookieStore} → Reach s → IsValid s
Reach-IsValid (fresh n) = new_store-IsValid n
Reach-IsValid (loaded cs n) = from_collection-IsValid cs n
Reach-IsValid (next r st) = Step-IsValid (Reach-IsValid r) st
