-- ===== src/Store/Restore.antt =====
-- `snapshot` and `restore`.
use luck_editor.Prelude.{◌+◌, min, take, [], ◌∷◌, ◌≡◌, refl}
use luck_editor.Prelude.Bounded.{truncate_back-take}
use luck_editor.Errors.{ok}
use luck_editor.Diff.Maps.{collection_map-values}
use luck_editor.Store.Defs.{
  CookieStore, CommitRecord, CommitMetadata, u64_max, snapshot, restore, collection, commit_record,
  next_revision,
}
use luck_editor.Store.Transaction.{CookieTransaction, TransactionOperation}
use luck_editor.Store.Commit.{IsValid, committed}
use luck_editor.Store.Reach.{own, commit-own}

-- The transaction that a restoration commits.
abbrev restoring : CookieStore → CookieStore → CookieTransaction
restoring s later = own later (collection s) (TransactionOperation.clear ∷ [])

-- The snapshot of a valid store can be restored over any other store, however that one has changed:
-- the cookies are exactly those of the snapshot's store, the revision does not go back but grows by
-- one up to the maximum of `u64`, and the restoration stands as a commit in front of the history.
pub restore-snapshot :
    (s later : CookieStore) (m : CommitMetadata)
    → IsValid s
    → (s' : CookieStore) × (r : CommitRecord) × (restore later (snapshot s) m ≡ ok (s', r))
      × (s'.cookies ≡ s.cookies)
      × (s'.revision ≡ min (later.revision + 1) u64_max)
      × (r.parent_revision ≡ later.revision)
      × (s'.history ≡ take later.history_limit (r ∷ later.history))
unfolding restore snapshot collection next_revision commit_record
restore-snapshot s later m v = (
  committed later (restoring s later) m,
  commit_record later (restoring s later) m,
  commit-own later (collection s) (TransactionOperation.clear ∷ []) m,
  collection_map-values s.cookies v.keyed v.ordered,
  refl,
  refl,
  truncate_back-take later.history_limit
      (commit_record later (restoring s later) m ∷ later.history),
)
