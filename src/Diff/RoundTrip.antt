-- ===== src/Diff/RoundTrip.antt =====
-- Applying a diff to the collection that it was computed from.
use luck_editor.Prelude.{
  ◌+◌, [], ◌∷◌, true, Option, none, some, length, ◌≡◌, refl, arith, All, All-imp, =?_refl, ◌∙◌, sym,
  ap, ≺_ne_sym, Option-cases,
}
use luck_editor.OrdMap.{lookup, insert, values}
use luck_editor.OrdMap.Laws.{All-insert, lookup-All}
use luck_editor.OrdMap.Order.{IsSorted, Above}
use luck_editor.Model.{Cookie, CookieKey, CookieCollection, key_ord, key, cookie_eq, sort_stable}
use luck_editor.Diff.Compute.{changed_fields, collect_into, collection_map, diff_collections}
use luck_editor.Diff.Apply.{ConflictStrategy, ApplyState, ApplyDiffReport, run_steps, apply_diff}
use luck_editor.Diff.Fields.{HasNumber, cookie_eq_refl}
use luck_editor.Diff.Agree.{Unchanged, HasKey, SameFields-refl, lookup-HasKey, if_changed-Unchanged}
use luck_editor.Diff.Maps.{
  IsKeyed, collection_map-IsKeyed, collection_map-IsSorted, collection_map-sort_stable,
}
use luck_editor.Diff.Scan.{added_of, modified_of, removed_of, map_diff, diff_collections-map_diff}
use luck_editor.Diff.Loops.{
  CookieMap, remove_all, modify_all, add_all, IsSelfEqual, StandIn, AgreeAt, AbsentAt, remove_loop,
  modify_loop, add_loop,
}
use luck_editor.Diff.Reads.{
  after_removals, after_changes, after_additions, lookup-remove_all, lookup-modify_all,
  lookup-add_all, remove_all-IsSorted, modify_all-IsSorted, add_all-IsSorted, remove_all-IsKeyed,
  modify_all-IsKeyed, add_all-IsKeyed, modified_of-keys,
}

pub collect_into-All {μ} :
    (P : Cookie → Type μ) (m : CookieMap) (cs : CookieCollection)
    → All (λ e. P e.1) m
    → All P cs
    → All (λ e. P e.1) (collect_into m cs)
unfolding collect_into
collect_into-All P m [] h k = h
collect_into-All P m (c ∷ cs) h (k, ks) =
    collect_into-All P (insert (key c) c m) cs (All-insert (λ e. P e.1) (key c) c m k h) ks

pub collection_map-All {μ} :
    (P : Cookie → Type μ) (cs : CookieCollection) → All P cs → All (λ e. P e.1) (collection_map cs)
unfolding collection_map
collection_map-All P cs h = collect_into-All P [] cs tt h

StandIn-Above :
    (j : CookieKey) (c : Cookie) (n m : CookieMap)
    → Above j m
    → StandIn n m
    → StandIn ((j, c) ∷ n) m
unfolding lookup
StandIn-Above j c n [] a h = tt
StandIn-Above j c n ((i, d) ∷ m) (b, a) (h, hs) =
    (rw (≺_ne_sym j i b) h, StandIn-Above j c n m a hs)

-- A map in order reads as its entries.
pub StandIn-self : (m : CookieMap) → IsSorted m → StandIn m m
StandIn-self [] s = tt
StandIn-self ((j, c) ∷ m) (a, s) =
    ((unfold lookup in rw (=?_refl j)), StandIn-Above j c m m a (StandIn-self m s))

-- The lookup of a key after all three loops.
pub merged : Option Cookie → Option Cookie → Option Cookie
merged before after =
    after_additions before after (after_changes before after (after_removals before after before))

-- The map after the three loops.
abbrev final_map : CookieMap → CookieMap → CookieMap
final_map bm am =
    add_all (added_of bm am) (modify_all (modified_of bm am) (remove_all (removed_of am bm) bm))

abbrev pub start : CookieMap → ApplyState
start m = record { map = m; added = 0; removed = 0; modified = 0; conflicts = [] }

AgreeAt-remove_all :
    (bm am : CookieMap)
    → IsKeyed bm
    → (m : CookieMap) → StandIn am m
    → AgreeAt (remove_all (removed_of am bm) bm) bm m
AgreeAt-remove_all bm am kb [] h = tt
AgreeAt-remove_all bm am kb ((j, c) ∷ m) (h, hs) = (
  lookup-remove_all j am bm bm kb ∙ ground (arith, Option-cases (lookup j bm)),
  AgreeAt-remove_all bm am kb m hs,
)

AbsentAt-after :
    (bm am : CookieMap)
    → IsKeyed bm
    → IsSorted am
    → (m : CookieMap)
    → AbsentAt (modify_all (modified_of bm am) (remove_all (removed_of am bm) bm)) bm m
AbsentAt-after bm am kb sa [] = tt
AbsentAt-after bm am kb sa ((j, c) ∷ m) = (
  λ e.
      lookup-modify_all j bm am (remove_all (removed_of am bm) bm) sa
      ∙ ground (arith, lookup-remove_all j am bm bm kb),
  AbsentAt-after bm am kb sa m,
)

abbrev removed_state : CookieMap → CookieMap → ApplyState
removed_state bm am = record (start (remove_all (removed_of am bm) bm)) {
  removed = 0 + length (removed_of am bm);
}

abbrev modified_state : CookieMap → CookieMap → ApplyState
modified_state bm am = record (removed_state bm am) {
  map = modify_all (modified_of bm am) (remove_all (removed_of am bm) bm);
  modified = 0 + length (modified_of bm am);
}

abbrev pub added_state : CookieMap → CookieMap → ApplyState
added_state bm am = record (modified_state bm am) {
  map = final_map bm am;
  added = 0 + length (added_of bm am);
}

pub self_equal_at :
    (m : CookieMap)
    → IsSelfEqual m
    → (k : CookieKey) (b : Cookie) → lookup k m ≡ some b
    → cookie_eq b b ≡ true
self_equal_at m h k b e = lookup-All (λ e. cookie_eq e.1 e.1 ≡ true) k b m h e

-- Over the map that the diff was computed from, the loops meet no conflict.
pub run_steps-map_diff :
    (strategy : ConflictStrategy) (bm am : CookieMap)
    → IsKeyed bm
    → IsSorted bm
    → IsKeyed am
    → IsSorted am
    → IsSelfEqual bm
    → run_steps strategy (map_diff bm am) (start bm) ≡ added_state bm am
unfolding run_steps
run_steps-map_diff strategy bm am kb sb ka sa e = rw (
  remove_loop strategy am bm (start bm) kb sb e (StandIn-self bm sb),
  modify_loop strategy bm am (removed_state bm am) sa (self_equal_at bm e)
      (AgreeAt-remove_all bm am kb am (StandIn-self am sa)),
  add_loop strategy bm am (modified_state bm am) ka sa (AbsentAt-after bm am kb sa am),
)

pub lookup-final_map :
    (k : CookieKey) (bm am : CookieMap)
    → IsKeyed bm
    → IsKeyed am
    → IsSorted am
    → lookup k (final_map bm am) ≡ merged (lookup k bm) (lookup k am)
unfolding merged
lookup-final_map k bm am kb ka sa =
    lookup-add_all k bm am (modify_all (modified_of bm am) (remove_all (removed_of am bm) bm)) ka sa
    ∙ ap (after_additions (lookup k bm) (lookup k am)) (
        lookup-modify_all k bm am (remove_all (removed_of am bm) bm) sa
        ∙ ap (after_changes (lookup k bm) (lookup k am)) (lookup-remove_all k am bm bm kb))

pub merged-Unchanged :
    (k : CookieKey) (b a : Option Cookie) → HasKey k b → HasKey k a → Unchanged (merged b a) a
unfolding merged
merged-Unchanged k none none h g = tt
merged-Unchanged k none (some a) h g = SameFields-refl a
merged-Unchanged k (some b) none h g = tt
merged-Unchanged k (some b) (some a) h g =
    if_changed-Unchanged (changed_fields b a) b a refl (h ∙ sym g)

module _ (bm am : CookieMap) (kb : IsKeyed bm) (sb : IsSorted bm) (ka : IsKeyed am) where
  final_map-IsSorted : IsSorted (final_map bm am)
  final_map-IsSorted =
      add_all-IsSorted (added_of bm am) _
        (modify_all-IsSorted (modified_of bm am) _ (remove_all-IsSorted (removed_of am bm) bm sb))

  final_map-IsKeyed : IsKeyed (final_map bm am)
  final_map-IsKeyed = add_all-IsKeyed (added_of bm am) _ (
      modify_all-IsKeyed (modified_of bm am) _ (modified_of-keys bm am ka)
        (remove_all-IsKeyed (removed_of am bm) bm kb))

abbrev pub report_of : ApplyState → ApplyDiffReport
report_of s = record {
  collection = sort_stable (values s.map);
  added = s.added;
  removed = s.removed;
  modified = s.modified;
  conflicts = s.conflicts;
}

pub collection_map-IsSelfEqual :
    (cs : CookieCollection) → All HasNumber cs → IsSelfEqual (collection_map cs)
collection_map-IsSelfEqual cs h =
    collection_map-All (λ c. cookie_eq c c ≡ true) cs (All-imp cookie_eq_refl cs h)

-- `apply_diff` over the collection of the diff, with the loops resolved.
apply_diff_lem :
    (strategy : ConflictStrategy) (before after : CookieCollection)
    → All HasNumber before
    → apply_diff before (diff_collections before after) strategy
      ≡ report_of (added_state (collection_map before) (collection_map after))
unfolding apply_diff
apply_diff_lem strategy before after h = rw (
  diff_collections-map_diff before after,
  run_steps-map_diff strategy (collection_map before) (collection_map after)
      (collection_map-IsKeyed before) (collection_map-IsSorted before)
      (collection_map-IsKeyed after) (collection_map-IsSorted after)
      (collection_map-IsSelfEqual before h),
)

-- The report of applying the diff from one collection to another to the first of them, if no
-- cookie of that one has a NaN for its expiration: under every strategy there is no conflict, the
-- counts are those of the diff, and each key reads as in the second collection: both find nothing,
-- or cookies with the same fields, where the two zeros are one expiration, and an absent store
-- identifier is as good as an empty one.
pub apply_diff-diff_collections :
    (strategy : ConflictStrategy) (before after : CookieCollection)
    → All HasNumber before
    → let d = diff_collections before after in
      let report = apply_diff before d strategy in
      (report.conflicts ≡ [])
      × (report.added ≡ length d.added)
      × (report.removed ≡ length d.removed)
      × (report.modified ≡ length d.modified)
      × ((k : CookieKey)
          → Unchanged
              (lookup k (collection_map report.collection))
              (lookup k (collection_map after)))
apply_diff-diff_collections strategy before after h =
    let bm = collection_map before in
    let am = collection_map after in
    let kb = collection_map-IsKeyed before in
    let sb = collection_map-IsSorted before in
    let ka = collection_map-IsKeyed after in
    let sa = collection_map-IsSorted after in
    rw (apply_diff_lem strategy before after h, diff_collections-map_diff before after)
      (
        refl,
        omega arith,
        omega arith,
        omega arith,
        λ k.
            rw
              (
                collection_map-sort_stable (final_map bm am) (final_map-IsKeyed bm am kb sb ka)
                    (final_map-IsSorted bm am kb sb ka),
                lookup-final_map k bm am kb ka sa,
              )
              (merged-Unchanged k (lookup k bm) (lookup k am) (lookup-HasKey k bm kb)
                (lookup-HasKey k am ka)),
      )
