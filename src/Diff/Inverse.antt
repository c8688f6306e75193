-- ===== src/Diff/Inverse.antt =====
-- Applying the inverse of a diff to the collection that the diff leads to.
use luck_editor.Prelude.{
  ◌+◌, List, [], ◌∷◌, true, if◌then◌else◌, Option, none, some, length, is_some, is_empty, ◌≡◌, refl,
  arith, All, foldl, =?_eq, ◌∙◌, sym, ap, map, inl, inr, ≺_ne_sym, Option-cases, Bool-cases,
}
use luck_editor.OrdMap.{lookup, insert}
use luck_editor.OrdMap.Laws.{lookup-insert, lookup-All}
use luck_editor.OrdMap.Order.{IsSorted, Above, lookup-Above}
use luck_editor.Model.{Cookie, CookieKey, CookieCollection, key_ord, key}
use luck_editor.Diff.Compute.{
  CookieModification, changed_fields, collection_map, diff_collections, invert, invert_change,
}
use luck_editor.Diff.Apply.{
  ConflictStrategy, ApplyState, do_modify, modify_step, run_steps, apply_diff,
}
use luck_editor.Diff.Fields.{HasNumber, changed_fields_comm}
use luck_editor.Diff.Agree.{Unchanged, HasKey, SameFields-refl, lookup-HasKey, if_changed-Unchanged}
use luck_editor.Diff.Maps.{
  IsKeyed, collection_map-IsKeyed, collection_map-IsSorted, collection_map-sort_stable,
}
use luck_editor.Diff.Scan.{
  added_of, modified_of, removed_of, change_of, map_diff, diff_collections-map_diff,
  removed_of-added_of,
}
use luck_editor.Diff.Loops.{
  CookieMap, remove_all, modify_all, add_all, IsSelfEqual, AbsentAt, remove_loop, modify_step_lem,
  add_loop,
}
use luck_editor.Diff.Reads.{
  after_removals, after_additions, lookup-remove_all, lookup-add_all, remove_all-IsSorted,
  modify_all-IsSorted, add_all-IsSorted, remove_all-IsKeyed, modify_all-IsKeyed, add_all-IsKeyed,
}
use luck_editor.Diff.RoundTrip.{StandIn-self, start, collection_map-IsSelfEqual}

-- The changes of the inverse.
abbrev undo_of : CookieMap → CookieMap → List CookieModification
undo_of bm m = map invert_change (modified_of bm m)

-- The entries of `m` whose keys `bm` has stand in `n`.
abbrev StandWhere : CookieMap → CookieMap → CookieMap → Type 0
StandWhere bm n = All (λ e. is_some (lookup e.0 bm) ≡ true → lookup e.0 n ≡ some e.1)

StandWhere-insert :
    (k : CookieKey) (c : Cookie) (bm n m : CookieMap)
    → Above k m
    → StandWhere bm n m
    → StandWhere bm (insert k c n) m
StandWhere-insert k c bm n [] a h = tt
StandWhere-insert k c bm n ((j, d) ∷ m) (b, a) (h, hs) =
    (λ e. rw (lookup-insert, ≺_ne_sym k j b) (h e), StandWhere-insert k c bm n m a hs)

undo_loop :
    (strategy : ConflictStrategy) (bm m : CookieMap) (s : ApplyState)
    → IsSorted m
    → IsSelfEqual m
    → StandWhere bm s.map m
    → foldl (modify_step strategy) s (undo_of bm m) ≡ record s {
      map = modify_all (undo_of bm m) s.map;
      modified = s.modified + length (undo_of bm m);
    }
unfolding modified_of modify_all do_modify invert_change
undo_loop strategy bm [] s o e h = ground arith
undo_loop strategy bm ((j, c) ∷ m) s (a, o) (e, es) (h, hs) = elim (Option-cases (lookup j bm)) [
  | inl miss ↦ rw (miss, modified_of) (undo_loop strategy bm m s o es hs)
  | inr (b, hit) ↦ elim (Bool-cases (is_empty (changed_fields b c))) [
    | inl same ↦ ground (arith, undo_loop strategy bm m s o es hs)
    | inr changed ↦ ground (
      arith,
      modify_step_lem strategy s (invert_change (change_of j b c)) (h (ground arith)) e,
      undo_loop strategy bm m (do_modify (invert_change (change_of j b c)) s) o es
          (StandWhere-insert j b bm s.map m a hs),
    )
  ]
]

abbrev changes_back : Option Cookie → Option Cookie → Option Cookie → Option Cookie
changes_back none after old = old
changes_back (some b) none old = old
changes_back (some b) (some a) old = if is_empty (changed_fields b a) then old else some b

lookup-undo_all :
    (k : CookieKey) (bm m n : CookieMap)
    → IsSorted m
    → lookup k (modify_all (undo_of bm m) n) ≡ changes_back (lookup k bm) (lookup k m) (lookup k n)
unfolding lookup modified_of modify_all change_of invert_change
lookup-undo_all k bm [] n s = ground arith
lookup-undo_all k bm ((j, c) ∷ m) n (a, s) = elim (Option-cases (lookup j bm)) [
  | inl miss ↦ ground (arith, lookup-undo_all k bm m n s, lookup-Above j m a, =?_eq k j)
  | inr (b, hit) ↦ ground (
    arith,
    lookup-undo_all k bm m n s,
    lookup-undo_all k bm m (insert j b n) s,
    lookup-insert k j b n,
    lookup-Above j m a,
    =?_eq k j,
  )
]

undo_of-keys :
    (bm m : CookieMap)
    → ((k : CookieKey) (b : Cookie) → lookup k bm ≡ some b → key b ≡ k)
    → All (λ d. key d.after ≡ d.key) (undo_of bm m)
unfolding modified_of invert_change change_of
undo_of-keys bm [] h = tt
undo_of-keys bm ((j, c) ∷ m) h = elim (Option-cases (lookup j bm)) [
  | inl miss ↦ ground (arith, undo_of-keys bm m h)
  | inr (b, hit) ↦ ground (arith, undo_of-keys bm m h, h j b hit)
]

-- The map and the counts after the inverse.
abbrev undone_map : CookieMap → CookieMap → CookieMap
undone_map bm am =
    add_all (added_of am bm) (modify_all (undo_of bm am) (remove_all (removed_of bm am) am))

abbrev pub undone_state : CookieMap → CookieMap → ApplyState
undone_state bm am = record {
  map = undone_map bm am;
  added = 0 + length (added_of am bm);
  removed = 0 + length (removed_of bm am);
  modified = 0 + length (undo_of bm am);
  conflicts = [];
}

StandWhere-remove_all :
    (bm am : CookieMap)
    → IsKeyed am
    → (m : CookieMap) → All (λ e. lookup e.0 am ≡ some e.1) m
    → StandWhere bm (remove_all (removed_of bm am) am) m
StandWhere-remove_all bm am ka [] h = tt
StandWhere-remove_all bm am ka ((j, c) ∷ m) (h, hs) = (
  λ e. lookup-remove_all j bm am am ka ∙ ground (arith, Option-cases (lookup j bm)),
  StandWhere-remove_all bm am ka m hs,
)

AbsentAt-undone :
    (bm am : CookieMap)
    → IsKeyed am
    → IsSorted am
    → (m : CookieMap)
    → AbsentAt (modify_all (undo_of bm am) (remove_all (removed_of bm am) am)) am m
AbsentAt-undone bm am ka sa [] = tt
AbsentAt-undone bm am ka sa ((j, c) ∷ m) = (
  λ e.
      lookup-undo_all j bm am (remove_all (removed_of bm am) am) sa
      ∙ ground (arith, lookup-remove_all j bm am am ka, Option-cases (lookup j bm)),
  AbsentAt-undone bm am ka sa m,
)

run_steps-undo :
    (strategy : ConflictStrategy) (bm am : CookieMap)
    → IsKeyed bm
    → IsSorted bm
    → IsKeyed am
    → IsSorted am
    → IsSelfEqual am
    → run_steps strategy (invert (map_diff bm am)) (start am) ≡ undone_state bm am
unfolding run_steps invert
run_steps-undo strategy bm am kb sb ka sa e = rw (
  ← removed_of-added_of bm am,
  removed_of-added_of am bm,
  remove_loop strategy bm am (start am) ka sa e (StandIn-self am sa),
  undo_loop strategy bm am
      (record (start (remove_all (removed_of bm am) am)) {
        removed = 0 + length (removed_of bm am);
      })
      sa e (StandWhere-remove_all bm am ka am (StandIn-self am sa)),
  add_loop strategy am bm
      (record (undone_state bm am) {
        map = modify_all (undo_of bm am) (remove_all (removed_of bm am) am);
        added = 0;
      })
      kb sb (AbsentAt-undone bm am ka sa bm),
)

merged_back : Option Cookie → Option Cookie → Option Cookie
merged_back b a = after_additions a b (changes_back b a (after_removals a b a))

merged_back-Unchanged :
    (k : CookieKey) (b a : Option Cookie) → HasKey k b → HasKey k a → Unchanged (merged_back b a) b
unfolding merged_back
merged_back-Unchanged k none none h g = tt
merged_back-Unchanged k none (some a) h g = tt
merged_back-Unchanged k (some b) none h g = SameFields-refl b
merged_back-Unchanged k (some b) (some a) h g =
    if_changed-Unchanged (changed_fields b a) a b (changed_fields_comm a b) (g ∙ sym h)

module _ (bm am : CookieMap) (kb : IsKeyed bm) (sb : IsSorted bm) (ka : IsKeyed am)
    (sa : IsSorted am) where
  undone_map-IsSorted : IsSorted (undone_map bm am)
  undone_map-IsSorted =
      add_all-IsSorted (added_of am bm) _
        (modify_all-IsSorted (undo_of bm am) _ (remove_all-IsSorted (removed_of bm am) am sa))

  undone_map-IsKeyed : IsKeyed (undone_map bm am)
  undone_map-IsKeyed = add_all-IsKeyed (added_of am bm) _ (
      modify_all-IsKeyed (undo_of bm am) _
        (undo_of-keys bm am (λ k b. lookup-All (λ e. key e.1 ≡ e.0) k b bm kb))
        (remove_all-IsKeyed (removed_of bm am) am ka))

  lookup-undone_map :
      (k : CookieKey) → lookup k (undone_map bm am) ≡ merged_back (lookup k bm) (lookup k am)
  unfolding merged_back
  lookup-undone_map k =
      lookup-add_all k am bm (modify_all (undo_of bm am) (remove_all (removed_of bm am) am)) kb sb
      ∙ ap (after_additions (lookup k am) (lookup k bm)) (
          lookup-undo_all k bm am (remove_all (removed_of bm am) am) sa
          ∙ ap (changes_back (lookup k bm) (lookup k am)) (lookup-remove_all k bm am am ka))

-- Applying the inverse of the diff from one collection to another to the second of them, if no
-- cookie of that one has a NaN for its expiration: under every strategy there is no conflict, and
-- each key reads as in the first collection: both find nothing, or cookies with the same fields,
-- where the two zeros are one expiration, and an absent store identifier is as good as an empty
-- one.
pub apply_diff-invert :
    (strategy : ConflictStrategy) (before after : CookieCollection)
    → All HasNumber after
    → let report = apply_diff after (invert (diff_collections before after)) strategy in
      (report.conflicts ≡ [])
      × ((k : CookieKey)
          → Unchanged
              (lookup k (collection_map report.collection))
              (lookup k (collection_map before)))
unfolding apply_diff
apply_diff-invert strategy before after h =
    let bm = collection_map before in
    let am = collection_map after in
    let kb = collection_map-IsKeyed before in
    let sb = collection_map-IsSorted before in
    let ka = collection_map-IsKeyed after in
    let sa = collection_map-IsSorted after in
    rw
      (
        diff_collections-map_diff before after,
        run_steps-undo strategy bm am kb sb ka sa (collection_map-IsSelfEqual after h),
      )
      (
        refl,
        λ k.
            rw
              (
                collection_map-sort_stable (undone_map bm am) (undone_map-IsKeyed bm am kb sb ka sa)
                    (undone_map-IsSorted bm am kb sb ka sa),
                lookup-undone_map bm am kb sb ka sa k,
              )
              (merged_back-Unchanged k (lookup k bm) (lookup k am) (lookup-HasKey k bm kb)
                (lookup-HasKey k am ka)),
      )
