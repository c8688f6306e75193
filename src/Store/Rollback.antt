-- ===== src/Store/Rollback.antt =====
-- `rollback_last` takes back a commit; `apply_external_diff` on each of its branches.
use luck_editor.Prelude.{
  Bool-cases, inl, inr, if◌then◌else◌, ℕ, ◌+◌, ◌≤◌, min, ◌&&◌, List, [], ◌∷◌, not, some, ◌≡◌, refl,
  arith, All, ◌∙◌, ap, take, zero, suc, head?, is_empty,
}
use luck_editor.Prelude.Bounded.{truncate_back-take}
use luck_editor.OrdMap.{lookup, values}
use luck_editor.Errors.{ok}
use luck_editor.Model.{CookieKey, CookieCollection, key_ord}
use luck_editor.Diff.{
  CookieDiff, ConflictStrategy, ApplyDiffReport, apply_diff, collection_map, invert,
}
use luck_editor.Diff.Fields.{HasNumber}
use luck_editor.Diff.Maps.{collection_map-values, collection_map-IsKeyed, collection_map-IsSorted}
use luck_editor.Diff.Agree.{Unchanged}
use luck_editor.Diff.Inverse.{apply_diff-invert}
use luck_editor.Store.Defs.{
  CookieStore, CommitRecord, CommitMetadata, store_get, collection, commit, commit_record,
  apply_external_diff, rollback_last, is_reject, u64_max,
}
use luck_editor.Store.Transaction.{CookieTransaction}
use luck_editor.Store.Commit.{IsValid, committed, commit-ok}
use luck_editor.Store.Reach.{own, commit-own}

-- `apply_diff` reads its base only as a map.
apply_diff-values :
    (cs : CookieCollection) (d : CookieDiff) (strategy : ConflictStrategy)
    → apply_diff (values (collection_map cs)) d strategy ≡ apply_diff cs d strategy
unfolding apply_diff
apply_diff-values cs d strategy = rw (
    collection_map-values (collection_map cs) (collection_map-IsKeyed cs)
      (collection_map-IsSorted cs))

head-take :
    (n : ℕ) (r : CommitRecord) (rs : List CommitRecord) → 1 ≤ n → head? (take n (r ∷ rs)) ≡ some r
head-take (suc n) r rs h = refl
head-take zero r rs h = absurd (omega arith)

-- With a last commit and no conflict, a rollback commits the report's collection.
rollback_last-own :
    (s : CookieStore) (last : CommitRecord) (m : CommitMetadata)
    → head? s.history ≡ some last
    → let report = apply_diff (collection s) (invert last.diff) ConflictStrategy.reject in
      report.conflicts ≡ []
      → rollback_last s m
        ≡ ok (
          committed s (own s report.collection []) m,
          some (commit_record s (own s report.collection []) m),
        )
unfolding rollback_last
rollback_last-own s last m e none_ =
    let report = apply_diff (collection s) (invert last.diff) ConflictStrategy.reject in
    rw (e, rollback_last) (rw none_ (rw (commit-own s report.collection [] m)))

module _ (s : CookieStore) (t : CookieTransaction) (m n : CommitMetadata) (v : IsValid s)
    (base : t.base ≡ collection s) (number : All HasNumber t.working) where
  -- The store behind the commit, and what the rollback works out on it.
  abbrev s1 : CookieStore
  s1 = committed s t m

  abbrev undo : CookieDiff
  undo = invert (commit_record s t m).diff

  abbrev report : ApplyDiffReport
  report = apply_diff (collection s1) undo ConflictStrategy.reject

  report_lem :
      (report.conflicts ≡ [])
      × ((k : CookieKey)
          → Unchanged (lookup k (collection_map report.collection)) (lookup k s.cookies))
  unfolding collection commit_record
  report_lem =
      let (none_, reads) = apply_diff-invert ConflictStrategy.reject t.base t.working number in
      let e : collection_map t.base ≡ s.cookies =
        ap collection_map base ∙ collection_map-values s.cookies v.keyed v.ordered in
      rw (apply_diff-values t.working undo ConflictStrategy.reject) (none_, λ k. rw e at (reads k))

  rollback_committed :
      (s'' : CookieStore) × (r' : CommitRecord) × (rollback_last s1 n ≡ ok (s'', some r'))
      × (r'.parent_revision ≡ (commit_record s t m).revision)
      × ((k : CookieKey) → Unchanged (store_get s'' k) (store_get s k))
  unfolding store_get commit_record
  rollback_committed = (
    committed s1 (own s1 report.collection []) n,
    commit_record s1 (own s1 report.collection []) n,
    rollback_last-own s1 (commit_record s t m) n
        (ap head? (truncate_back-take s.history_limit _) ∙ head-take s.history_limit _ _ v.positive)
        report_lem.0,
    refl,
    report_lem.1,
  )

-- A commit of a transaction begun on a valid store, whose working copy has no NaN among its
-- expirations, can be rolled back at once: the rollback succeeds with a commit of its own, and
-- every key reads as before the commit: as nothing, or as a cookie with the same fields, where the
-- two zeros are one expiration, and an absent store identifier is as good as an empty one.
pub rollback_last-commit :
    (s s' : CookieStore) (t : CookieTransaction) (m n : CommitMetadata) (r : CommitRecord)
    → IsValid s
    → t.base ≡ collection s
    → All HasNumber t.working
    → commit s t m ≡ ok (s', r)
    → (s'' : CookieStore) × (r' : CommitRecord) × (rollback_last s' n ≡ ok (s'', some r'))
      × (r'.parent_revision ≡ r.revision)
      × ((k : CookieKey) → Unchanged (store_get s'' k) (store_get s k))
rollback_last-commit s s' t m n r v base number h =
    let (closed, current, e, f) = commit-ok s s' t m r h in
    rw (e, f) (rollback_committed s t m n v base number)

-- `apply_external_diff` at the store's revision succeeds with the report of `apply_diff`: a conflict
-- under `Reject` leaves the cookies and the revision as they are; in every other case the report's
-- collection is committed, and the revision grows by one up to the maximum of `u64`.
pub apply_external_diff_outcome :
    (s : CookieStore) (n : ℕ) (d : CookieDiff) (strategy : ConflictStrategy) (m : CommitMetadata)
    → n ≡ s.revision
    → let report = apply_diff (collection s) d strategy in
      let rejected = is_reject strategy && not (is_empty report.conflicts) in
      (s' : CookieStore) × (apply_external_diff s n d strategy m ≡ ok (s', report))
      × (s'.revision ≡ (if rejected then s.revision else min (s.revision + 1) u64_max))
      × (s'.cookies ≡ (if rejected then s.cookies else collection_map report.collection))
unfolding apply_external_diff
apply_external_diff_outcome s n d strategy m current =
    let report = apply_diff (collection s) d strategy in
    elim (Bool-cases (is_reject strategy && not (is_empty report.conflicts))) [
      | inl e ↦ (s, ground arith, ground arith, ground arith)
      | inr e ↦ (
        committed s (own s report.collection []) m,
        ground (arith, commit-own s report.collection [] m),
        ground arith,
        ground arith,
      )
    ]
