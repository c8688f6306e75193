-- ===== src/Tests/Stores.antt =====
-- Stores and transactions at concrete inputs.
use luck_editor.Prelude.{
  ◌+◌, ◌-◌, ◌<◌, min, take, [], ◌∷◌, not, ◌&&◌, if◌then◌else◌, none, some, ◌≡◌, refl, arith, length,
  filter, is_empty, ◌=?◌, cmp_list,
}
use luck_editor.Errors.{ok}
use luck_editor.Model.{CookieKey, key_ord, key}
use luck_editor.Diff.{ConflictStrategy, apply_diff, collection_map, diff_collections}
use luck_editor.Diff.Maps.{find_last, IsDistinct}
use luck_editor.Diff.Agree.{Unchanged}
use luck_editor.Store.{
  CookieStore, CommitRecord, CookieTransaction, u64_max, new_store, from_collection, store_get,
  collection, begin, commit, commit_record, rollback_last, snapshot, restore, apply_external_diff,
  is_reject, transaction_insert, transaction_remove, transaction_retain, transaction_clear,
  replace_collection,
}
use luck_editor.Store.Commit.{
  IsValid, committed, stale_error, commit_outcome, commit_stale, from_collection-IsValid,
}
use luck_editor.Store.Reach.{Step, Reach, Reach-IsValid, commit-own, own}
use luck_editor.Store.Rollback.{rollback_last-commit, apply_external_diff_outcome}
use luck_editor.Store.Restore.{restore-snapshot}
use luck_editor.Store.Edits.{Edited, IsOpen, Edited-IsDistinct}
use luck_editor.Store.Edits.Reads.{transaction_retain_lem, store_get-insert}
use luck_editor.Tests.Data.{sid, sid2, lang, metadata}

abbrev store : CookieStore
store = from_collection (sid ∷ []) 3

abbrev edit : CookieTransaction
edit = own store (sid2 ∷ lang ∷ []) []

abbrev after : CookieStore
after = committed store edit metadata

abbrev entry : CommitRecord
entry = commit_record store edit metadata

done : commit store edit metadata ≡ ok (after, entry)
done = commit-own store (sid2 ∷ lang ∷ []) [] metadata

valid : IsValid store
valid = from_collection-IsValid (sid ∷ []) 3

commit_outcome_example :
    (s' : CookieStore) × (r : CommitRecord) × (commit store edit metadata ≡ ok (s', r))
    × (s'.revision ≡ min (store.revision + 1) u64_max)
    × ((k : CookieKey) → store_get s' k ≡ find_last k none (sid2 ∷ lang ∷ []))
    × (r.parent_revision ≡ store.revision)
    × (r.revision ≡ s'.revision)
    × (s'.history ≡ take store.history_limit (r ∷ store.history))
commit_outcome_example = commit_outcome store edit metadata refl refl

below : store.revision < u64_max
unfolding from_collection new_store
below = omega arith

commit_stale_example :
    commit after edit metadata ≡ stale_error edit.base_revision (store.revision + 1)
commit_stale_example =
    commit_stale store after edit edit metadata metadata entry below refl refl done

Reach-IsValid_example : IsValid after
Reach-IsValid_example =
    Reach-IsValid
      (Reach.next (Reach.loaded (sid ∷ []) 3) (Step.committing edit metadata entry done))

rollback_last-commit_example :
    (s'' : CookieStore) × (r' : CommitRecord) × (rollback_last after metadata ≡ ok (s'', some r'))
    × (r'.parent_revision ≡ entry.revision)
    × ((k : CookieKey) → Unchanged (store_get s'' k) (store_get store k))
rollback_last-commit_example =
    rollback_last-commit store after edit metadata metadata entry valid refl (refl, (refl, tt)) done

-- The snapshot from before a commit, restored behind it.
restore-snapshot_example :
    (s' : CookieStore) × (r : CommitRecord) × (restore after (snapshot store) metadata ≡ ok (s', r))
    × (s'.cookies ≡ store.cookies)
    × (s'.revision ≡ min (after.revision + 1) u64_max)
    × (r.parent_revision ≡ after.revision)
    × (s'.history ≡ take after.history_limit (r ∷ after.history))
restore-snapshot_example = restore-snapshot store after metadata valid

at_zero : 0 ≡ store.revision
unfolding from_collection new_store
at_zero = refl

apply_external_diff_outcome_example :
    let report =
      apply_diff (collection store) (diff_collections (sid ∷ []) []) ConflictStrategy.reject in
    let rejected = is_reject ConflictStrategy.reject && not (is_empty report.conflicts) in
    (s' : CookieStore) × (apply_external_diff store 0
        (diff_collections (sid ∷ []) [])
        ConflictStrategy.reject
        metadata
      ≡ ok (s', report))
    × (s'.revision ≡ (if rejected then store.revision else min (store.revision + 1) u64_max))
    × (s'.cookies ≡ (if rejected then store.cookies else collection_map report.collection))
apply_external_diff_outcome_example =
    apply_external_diff_outcome store 0 (diff_collections (sid ∷ []) []) ConflictStrategy.reject
      metadata at_zero

distinct : IsDistinct (sid ∷ lang ∷ [])
unfolding key cmp_list
distinct = ((refl, tt), (tt, tt))

abbrev work : CookieTransaction
work = own store (sid ∷ lang ∷ []) []

-- One edit of each kind, one after the other.
abbrev retained : CookieTransaction
retained = (transaction_retain (transaction_insert (begin store) lang).0 (λ c. c.secure)).0

abbrev refilled : CookieTransaction
refilled = replace_collection (transaction_clear retained).0 (sid ∷ lang ∷ [])

abbrev edited : CookieTransaction
edited = (transaction_remove (transaction_insert refilled sid2).0 (key lang)).0

Edited-IsDistinct_example : IsDistinct edited.working × IsOpen store edited
Edited-IsDistinct_example = Edited-IsDistinct store edited valid (
    Edited.removed
      (Edited.inserted
        (Edited.replaced
          (Edited.cleared (Edited.retained (Edited.inserted Edited.begun lang) (λ c. c.secure)))
          (sid ∷ lang ∷ []) distinct)
        sid2)
      (key lang))

transaction_retain_lem_example :
    ((transaction_retain work (λ c. c.secure)).0.working ≡ filter (λ c. c.secure) work.working)
    × ((transaction_retain work (λ c. c.secure)).1
        ≡ length work.working - length (filter (λ c. c.secure) work.working))
transaction_retain_lem_example = transaction_retain_lem work (λ c. c.secure) distinct

-- One cookie inserted through a transaction.
abbrev inserting : CookieTransaction
inserting = (transaction_insert (begin store) lang).0

inserted :
    commit store inserting metadata
    ≡ ok (committed store inserting metadata, commit_record store inserting metadata)
unfolding commit transaction_insert begin
inserted = ground arith

store_get-insert_example :
    store_get (committed store inserting metadata) (key lang)
    ≡ (if key lang =? key lang then some lang else store_get store (key lang))
store_get-insert_example =
    store_get-insert store (committed store inserting metadata) lang metadata
      (commit_record store inserting metadata) (key lang) valid inserted
