-- ===== src/Store/Defs.antt =====
-- `CookieStore`: the committed cookies by key, the revision, and a bounded history of commits.
-- A method that may fail returns a `Result` with the new store; on an error the store stays.
use luck_editor.Prelude.{
  ℕ, ◌+◌, ◌==◌, List, [], ◌∷◌, Bool, true, false, not, ◌&&◌, if◌then◌else◌, Option, none, some,
  length, is_empty, head?, min, max,
}
use luck_editor.Prelude.Bounded.{truncate_back}
use luck_editor.OrdMap.{OrdMap, lookup, contains_key, values}
use luck_editor.Text.{Text}
use luck_editor.Errors.{Result, ok, err, ◌>>=◌, LuckError, lit, num, msg}
use luck_editor.Model.{Cookie, CookieKey, CookieCollection, key_ord}
use luck_editor.Diff.{
  CookieDiff, collection_map, diff_collections, invert, ConflictStrategy, ApplyDiffReport,
  apply_diff,
}
use luck_editor.Store.Transaction.{CookieTransaction, TransactionOperation}

abbrev pub u64_max : ℕ
u64_max = 0xffff_ffff_ffff_ffff

-- `saturating_add(1)` on `u64`
unfoldable pub next_revision : ℕ → ℕ
next_revision r = min (r + 1) u64_max

pub record StoreSnapshot : Type 0 where
  pub revision : ℕ
  pub collection : CookieCollection

-- `CommitMetadata`; `CommitMetadata::new` takes the clock's reading as its last argument.
pub record CommitMetadata : Type 0 where
  pub actor : Text
  pub reason : Text
  pub timestamp_millis : ℕ

pub record CommitRecord : Type 0 where
  pub revision : ℕ
  pub parent_revision : ℕ
  pub metadata : CommitMetadata
  pub diff : CookieDiff

pub record CookieStore : Type 0 where
  pub revision : ℕ
  pub cookies : OrdMap CookieKey Cookie
  pub history_limit : ℕ
  pub history : List CommitRecord

unfoldable pub new_store : ℕ → CookieStore
new_store history_limit = record {
  revision = 0;
  cookies = [];
  history_limit = max history_limit 1;
  history = [];
}

unfoldable pub from_collection : CookieCollection → ℕ → CookieStore
unfolding new_store
from_collection collection history_limit = record (new_store history_limit) {
  cookies = collection_map collection;
}

unfoldable pub store_len : CookieStore → ℕ
store_len s = length s.cookies

unfoldable pub store_get : CookieStore → CookieKey → Option Cookie
store_get s k = lookup k s.cookies

unfoldable pub store_contains : CookieStore → CookieKey → Bool
store_contains s k = contains_key k s.cookies

-- `collection`
unfoldable pub collection : CookieStore → CookieCollection
collection s = values s.cookies

unfoldable pub snapshot : CookieStore → StoreSnapshot
unfolding collection
snapshot s = record { revision = s.revision; collection = collection s }

unfoldable pub begin : CookieStore → CookieTransaction
unfolding collection
begin s = record {
  base_revision = s.revision;
  base = collection s;
  working = collection s;
  operations = [];
  closed = false;
}

-- The record of a commit, and the store behind it: `push_front`, then `pop_back` down to the limit.
unfoldable pub commit_record : CookieStore → CookieTransaction → CommitMetadata → CommitRecord
unfolding next_revision
commit_record s t metadata = record {
  revision = next_revision s.revision;
  parent_revision = s.revision;
  metadata = metadata;
  diff = diff_collections t.base t.working;
}

unfoldable pub commit :
    CookieStore → CookieTransaction → CommitMetadata → Result (CookieStore × CommitRecord)
unfolding commit_record
commit s t metadata =
    if t.closed
    then err (LuckError.invalid_argument (msg "transaction is already closed"))
    else if not (t.base_revision == s.revision)
    then err (
        LuckError.validation (
          lit "stale transaction: base revision "
          ∷ num t.base_revision
          ∷ lit " differs from store revision "
          ∷ num s.revision
          ∷ []))
    else (let r = commit_record s t metadata in
        ok (
          record s {
            revision = r.revision;
            cookies = collection_map t.working;
            history = truncate_back s.history_limit (r ∷ s.history);
          },
          r,
        ))

abbrev pub is_reject : ConflictStrategy → Bool
is_reject ConflictStrategy.reject = true
is_reject _ = false

unfoldable pub apply_external_diff :
    CookieStore
    → ℕ
    → CookieDiff
    → ConflictStrategy
    → CommitMetadata
    → Result (CookieStore × ApplyDiffReport)
unfolding commit begin
apply_external_diff s expected_revision diff strategy metadata =
    if not (expected_revision == s.revision)
    then err (
        LuckError.validation (
          lit "expected revision "
          ∷ num expected_revision
          ∷ lit ", current revision is "
          ∷ num s.revision
          ∷ []))
    else (let report = apply_diff (collection s) diff strategy in
        if is_reject strategy && not (is_empty report.conflicts)
        then ok (s, report)
        else (commit s (record (begin s) { working = report.collection }) metadata >>= λ done.
            ok (done.0, report)))

unfoldable pub restore :
    CookieStore → StoreSnapshot → CommitMetadata → Result (CookieStore × CommitRecord)
unfolding commit begin
restore s snap metadata =
    commit s
      (record (begin s) { working = snap.collection; operations = TransactionOperation.clear ∷ [] })
      metadata

unfoldable pub rollback_last :
    CookieStore → CommitMetadata → Result (CookieStore × Option CommitRecord)
unfolding commit begin
rollback_last s metadata = elim (head? s.history) [
  | none ↦ ok (s, none)
  | some last ↦
      let report = apply_diff (collection s) (invert last.diff) ConflictStrategy.reject in
      if not (is_empty report.conflicts)
      then err (
          LuckError.validation
            (msg "cannot rollback because current data conflicts with last commit"))
      else (commit s (record (begin s) { working = report.collection }) metadata >>= λ done.
          ok (done.0, some done.1))
]
