-- ===== src/Store/Commit.antt =====
-- Commits: the invariant of the store, the outcome of a commit, and the detection of stale
-- transactions.
use luck_editor.Prelude.{
  ℕ, ◌+◌, ◌≤◌, ◌<◌, List, [], ◌∷◌, false, none, ◌≡◌, refl, arith, length, take, length-take-le, ◌≢◌,
  min, zero, suc, ap, sym, subst, ◌∙◌,
}
use luck_editor.Prelude.Bounded.{truncate_back, truncate_back-take}
use luck_editor.OrdMap.Order.{IsSorted}
use luck_editor.Errors.{Result, ok, err, LuckError, lit, num}
use luck_editor.Model.{CookieKey, CookieCollection, key_ord}
use luck_editor.Diff.{collection_map}
use luck_editor.Diff.Maps.{
  IsKeyed, collection_map-IsSorted, collection_map-IsKeyed, find_last, lookup-collection_map,
}
use luck_editor.Store.Defs.{
  CookieStore, CommitRecord, CommitMetadata, u64_max, next_revision, new_store, from_collection,
  store_get, commit_record, commit,
}
use luck_editor.Store.Transaction.{CookieTransaction}

-- The history leads back from a revision, commit by commit.
abbrev pub IsChain : ℕ → List CommitRecord → Type 0
IsChain revision [] = Unit {0}
IsChain revision (r ∷ rs) =
    (r.revision ≡ revision)
    × (r.revision ≡ next_revision r.parent_revision)
    × IsChain r.parent_revision rs

pub record IsValid (s : CookieStore) : Type 0 where
  pub ordered : IsSorted s.cookies
  pub keyed : IsKeyed s.cookies
  pub positive : 1 ≤ s.history_limit
  pub limited : length s.history ≤ s.history_limit
  pub in_range : s.revision ≤ u64_max
  pub chained : IsChain s.revision s.history

take-IsChain :
    (n revision : ℕ) (rs : List CommitRecord) → IsChain revision rs → IsChain revision (take n rs)
take-IsChain zero revision rs h = tt
take-IsChain (suc n) revision [] h = tt
take-IsChain (suc n) revision (r ∷ rs) (e, f, h) = (e, f, take-IsChain n r.parent_revision rs h)

next_revision-le : (r : ℕ) → next_revision r ≤ u64_max
unfolding next_revision
next_revision-le r = omega arith

-- The store behind a commit that is let through.
abbrev pub committed : CookieStore → CookieTransaction → CommitMetadata → CookieStore
committed s t metadata = record s {
  revision = next_revision s.revision;
  cookies = collection_map t.working;
  history = truncate_back s.history_limit (commit_record s t metadata ∷ s.history);
}

pub committed-IsValid :
    (s : CookieStore) (t : CookieTransaction) (metadata : CommitMetadata)
    → IsValid s
    → IsValid (committed s t metadata)
unfolding commit_record
committed-IsValid s t metadata v =
    let history' = commit_record s t metadata ∷ s.history in
    let cut = truncate_back-take s.history_limit history' in
    record {
      ordered = collection_map-IsSorted t.working;
      keyed = collection_map-IsKeyed t.working;
      positive = v.positive;
      limited =
          subst (λ h. length h ≤ s.history_limit) (sym cut)
            (length-take-le s.history_limit history');
      in_range = next_revision-le s.revision;
      chained = subst (IsChain (next_revision s.revision)) (sym cut) (
          take-IsChain s.history_limit (next_revision s.revision) history' (refl, refl, v.chained));
    }

-- A fresh store is valid, with any limit of the history.
pub new_store-IsValid : (history_limit : ℕ) → IsValid (new_store history_limit)
unfolding new_store
new_store-IsValid n = record {
  ordered = tt;
  keyed = tt;
  positive = omega arith;
  limited = omega arith;
  in_range = omega arith;
  chained = tt;
}

pub from_collection-IsValid :
    (cs : CookieCollection) (history_limit : ℕ) → IsValid (from_collection cs history_limit)
unfolding from_collection
from_collection-IsValid cs n = record {
  ordered = collection_map-IsSorted cs;
  keyed = collection_map-IsKeyed cs;
  positive = omega arith;
  limited = omega arith;
  in_range = omega arith;
  chained = tt;
}

-- The error of a commit that comes too late.
abbrev pub stale_error : ℕ → ℕ → Result (CookieStore × CommitRecord)
stale_error base current = err (
    LuckError.validation (
      lit "stale transaction: base revision "
      ∷ num base
      ∷ lit " differs from store revision "
      ∷ num current
      ∷ []))

-- An open transaction begun at the store's revision is committed: the revision grows by one up to
-- the maximum of `u64`, a key reads as the last cookie of the working copy with it, and the record,
-- now in front of a history cut to its limit, leads from the old revision to the new one.
pub commit_outcome :
    (s : CookieStore) (t : CookieTransaction) (metadata : CommitMetadata)
    → t.closed ≡ false
    → t.base_revision ≡ s.revision
    → (s' : CookieStore) × (r : CommitRecord) × (commit s t metadata ≡ ok (s', r))
      × (s'.revision ≡ min (s.revision + 1) u64_max)
      × ((k : CookieKey) → store_get s' k ≡ find_last k none t.working)
      × (r.parent_revision ≡ s.revision)
      × (r.revision ≡ s'.revision)
      × (s'.history ≡ take s.history_limit (r ∷ s.history))
unfolding commit store_get
commit_outcome s t metadata open_ current = (
  committed s t metadata,
  commit_record s t metadata,
  ground arith,
  refl,
  λ k. lookup-collection_map k t.working,
  refl,
  refl,
  truncate_back-take s.history_limit (commit_record s t metadata ∷ s.history),
)

-- What a successful commit tells.
pub commit-ok :
    (s s' : CookieStore) (t : CookieTransaction) (metadata : CommitMetadata) (r : CommitRecord)
    → commit s t metadata ≡ ok (s', r)
    → (t.closed ≡ false)
      × (t.base_revision ≡ s.revision)
      × (s' ≡ committed s t metadata)
      × (r ≡ commit_record s t metadata)
unfolding commit
commit-ok s s' t metadata r h = ground arith

pub commit-IsValid :
    (s s' : CookieStore) (t : CookieTransaction) (metadata : CommitMetadata) (r : CommitRecord)
    → IsValid s
    → commit s t metadata ≡ ok (s', r)
    → IsValid s'
commit-IsValid s s' t metadata r v h =
    let (closed, current, e, f) = commit-ok s s' t metadata r h in
    subst IsValid (sym e) (committed-IsValid s t metadata v)

refused_open :
    (s : CookieStore) (t : CookieTransaction) (metadata : CommitMetadata)
    → t.closed ≡ false
    → t.base_revision ≢ s.revision
    → commit s t metadata ≡ stale_error t.base_revision s.revision
unfolding commit
refused_open s t metadata open_ stale = ground arith

-- Of two transactions begun at one revision below the maximum, the second is refused once the
-- first is committed: no update is lost.
pub commit_stale :
    (s s' : CookieStore) (t u : CookieTransaction) (m n : CommitMetadata) (r : CommitRecord)
    → s.revision < u64_max
    → t.base_revision ≡ u.base_revision
    → u.closed ≡ false
    → commit s t m ≡ ok (s', r)
    → commit s' u n ≡ stale_error u.base_revision (s.revision + 1)
unfolding next_revision
commit_stale s s' t u m n r below same open_ h =
    let (closed, current, e, f) = commit-ok s s' t m r h in
    let next : s'.revision ≡ s.revision + 1 = ap (λ x. x.revision) e ∙ omega arith in
    refused_open s' u n open_ (omega arith) ∙ ap (stale_error u.base_revision) next
