-- ===== src/Tests/Diffs.antt =====
-- Diffs at concrete collections.
use luck_editor.Float64.{is_nan}
use luck_editor.Prelude.Sort.{sort_by, insert_by}
use luck_editor.Prelude.{cmp_list, [], ◌∷◌, true, false, some, ◌≡◌, refl, length, All, ◌↔◌}
use luck_editor.OrdMap.{lookup, insert, values, remove}
use luck_editor.Model.{
  Cookie, CookieKey, CookieCollection, key_ord, key, cookie_eq, expiration_eq, cmp_option,
  metadata_eq,
}
use luck_editor.Diff.{
  ConflictStrategy, apply_diff, diff_collections, invert, collection_map, changed_fields,
  is_empty_diff,
}
use luck_editor.Diff.Fields.{has_nan, HasNumber}
use luck_editor.Diff.Agree.{Unchanged}
use luck_editor.Diff.RoundTrip.{apply_diff-diff_collections}
use luck_editor.Diff.Inverse.{apply_diff-invert}
use luck_editor.Diff.Empty.{is_empty_diff-diff_collections}
use luck_editor.Diff.Nan.{apply_diff_nan}
use luck_editor.Tests.Data.{sid, sid2, lang}

abbrev before : CookieCollection
before = sid ∷ lang ∷ []

abbrev after : CookieCollection
after = sid2 ∷ []

numbers : All HasNumber before
numbers = (refl, (refl, tt))

number : All HasNumber after
number = (refl, tt)

apply_diff-diff_collections_example :
    let d = diff_collections before after in
    let report = apply_diff before d ConflictStrategy.prefer_diff in
    (report.conflicts ≡ [])
    × (report.added ≡ length d.added)
    × (report.removed ≡ length d.removed)
    × (report.modified ≡ length d.modified)
    × ((k : CookieKey)
        → Unchanged (lookup k (collection_map report.collection)) (lookup k (collection_map after)))
apply_diff-diff_collections_example =
    apply_diff-diff_collections ConflictStrategy.prefer_diff before after numbers

apply_diff-invert_example :
    let report =
      apply_diff after (invert (diff_collections before after)) ConflictStrategy.reject in
    (report.conflicts ≡ [])
    × ((k : CookieKey)
        → Unchanged
            (lookup k (collection_map report.collection))
            (lookup k (collection_map before)))
apply_diff-invert_example = apply_diff-invert ConflictStrategy.reject before after number

is_empty_diff-diff_collections_example : is_empty_diff (diff_collections before after) ≡ true ↔ (
    (k : CookieKey)
    → Unchanged (lookup k (collection_map before)) (lookup k (collection_map after)))
is_empty_diff-diff_collections_example = is_empty_diff-diff_collections before after numbers

-- An expiration with the bits of a NaN.
abbrev undated : Cookie
undated = record sid { expiration_date = some 0x7ff8_0000_0000_0000; session = false }

undated_nan : has_nan undated ≡ true
unfolding is_nan
undated_nan = refl

apply_diff_nan_example :
    let report =
      apply_diff (undated ∷ []) (diff_collections (undated ∷ []) []) ConflictStrategy.reject in
    (report.collection ≡ undated ∷ []) × (report.removed ≡ 0) × (length report.conflicts ≡ 1)
apply_diff_nan_example = apply_diff_nan undated undated_nan

-- One cookie changes and one goes.
counts :
    ((apply_diff before (diff_collections before after) ConflictStrategy.reject).removed ≡ 1)
    × ((apply_diff before (diff_collections before after) ConflictStrategy.reject).modified ≡ 1)
unfolding apply_diff diff_collections cmp_list lookup insert values sort_by insert_by key
    changed_fields cookie_eq remove
counts = (refl, refl)

-- An empty store identifier in place of none is no change.
store_id_unseen : changed_fields sid (record sid { store_id = some [] }) ≡ []
unfolding changed_fields expiration_eq cmp_option metadata_eq cmp_list
store_id_unseen = refl
