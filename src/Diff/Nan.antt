-- ===== src/Diff/Nan.antt =====
-- A cookie whose expiration is a NaN is unequal to itself, so its removal meets a conflict.
use luck_editor.Prelude.{[], ◌∷◌, true, ◌≡◌, refl, length, =?_refl, some}
use luck_editor.Prelude.Sort.{sort_by, insert_by}
use luck_editor.OrdMap.{lookup, insert, values}
use luck_editor.Errors.{msg}
use luck_editor.Model.{Cookie, key, key_ord, sort_stable}
use luck_editor.Diff.Compute.{diff_collections, collection_map}
use luck_editor.Diff.Apply.{ConflictStrategy, ApplyState, apply_diff, remove_step}
use luck_editor.Diff.Fields.{has_nan, cookie_eq_nan}
use luck_editor.Diff.Scan.{diff_collections-map_diff, removed_of, added_of, modified_of}

abbrev alone : Cookie → ApplyState
alone c = record { map = (key c, c) ∷ []; added = 0; removed = 0; modified = 0; conflicts = [] }

lookup_alone : (c : Cookie) → lookup (key c) ((key c, c) ∷ []) ≡ some c
unfolding lookup
lookup_alone c = rw (=?_refl (key c))

remove_step_nan :
    (c : Cookie)
    → has_nan c ≡ true
    → remove_step ConflictStrategy.reject (alone c) c ≡ record (alone c) {
      conflicts =
          record { key = key c; message = msg "remove precondition does not match base cookie" }
          ∷ [];
    }
unfolding remove_step
remove_step_nan c h = rw (lookup_alone c, remove_step) (rw (cookie_eq_nan c c h))

-- If the expiration of a cookie is a NaN, then the diff from the collection of that one cookie to
-- the empty collection, applied to the collection that it was computed from and rejecting
-- conflicts, reports one conflict, removes nothing and keeps the cookie.
pub apply_diff_nan :
    (c : Cookie)
    → has_nan c ≡ true
    → let report = apply_diff (c ∷ []) (diff_collections (c ∷ []) []) ConflictStrategy.reject in
      (report.collection ≡ c ∷ []) × (report.removed ≡ 0) × (length report.conflicts ≡ 1)
unfolding apply_diff collection_map removed_of added_of modified_of sort_stable lookup insert values
    sort_by insert_by
apply_diff_nan c h =
    rw (diff_collections-map_diff (c ∷ []) [], remove_step_nan c h) (refl, refl, refl)
