-- ===== src/Diff/Scan.antt =====
-- What `diff_collections` finds, read off the two maps: the sorts at its end change nothing.
use luck_editor.Prelude.{
  List, [], ◌∷◌, ◌++◌, if◌then◌else◌, none, some, ordering, Option-cases, inl, inr, is_empty,
  is_some, ◌≡◌, refl, arith, All, append-nil, append_assoc, ◌≺◌, ◌≢◌, gt, Ordering, sym, subst,
}
use luck_editor.Prelude.Sort.{Sorted, sort_by-Sorted}
use luck_editor.OrdMap.{OrdMap, lookup}
use luck_editor.OrdMap.Order.{IsSorted, Above}
use luck_editor.Model.{Cookie, CookieKey, CookieCollection, key_ord, key}
use luck_editor.Diff.Compute.{
  CookieModification, CookieDiff, empty_diff, changed_fields, note_after, scan_after, scan_before,
  collection_map, diff_collections,
}
use luck_editor.Diff.Maps.{IsKeyed, collection_map-IsKeyed, collection_map-IsSorted}

-- The new cookies, the changed ones and the old ones that are gone, in the order of the keys.
unfoldable pub added_of : OrdMap CookieKey Cookie → OrdMap CookieKey Cookie → List Cookie
added_of before [] = []
added_of before ((k, a) ∷ m) =
    if is_some (lookup k before) then added_of before m else a ∷ added_of before m

unfoldable pub change_of : CookieKey → Cookie → Cookie → CookieModification
change_of k b a = record { key = k; before = b; after = a; fields = changed_fields b a }

unfoldable pub modified_of :
    OrdMap CookieKey Cookie → OrdMap CookieKey Cookie → List CookieModification
unfolding change_of
modified_of before [] = []
modified_of before ((k, a) ∷ m) = elim (lookup k before) [
  | none ↦ modified_of before m
  | some b ↦
      if is_empty (changed_fields b a)
      then modified_of before m
      else (change_of k b a ∷ modified_of before m)
]

unfoldable pub removed_of : OrdMap CookieKey Cookie → OrdMap CookieKey Cookie → List Cookie
removed_of after [] = []
removed_of after ((k, b) ∷ m) =
    if is_some (lookup k after) then removed_of after m else b ∷ removed_of after m

scan_after_lem :
    (before : OrdMap CookieKey Cookie) (d : CookieDiff) (m : OrdMap CookieKey Cookie)
    → scan_after before d m ≡ record d {
      added = d.added ++ added_of before m;
      modified = d.modified ++ modified_of before m;
    }
unfolding scan_after added_of modified_of
scan_after_lem before d [] = ground (arith, append-nil d.added, append-nil d.modified)
scan_after_lem before d ((k, a) ∷ m) = elim (Option-cases (lookup k before)) [
  | inl miss ↦ ground (
    arith,
    scan_after_lem before (note_after before d k a) m,
    append_assoc d.added (a ∷ []) (added_of before m),
  )
  | inr (b, hit) ↦ ground (
    arith,
    scan_after_lem before (note_after before d k a) m,
    append_assoc d.modified (change_of k b a ∷ []) (modified_of before m),
  )
]

scan_before_lem :
    (after : OrdMap CookieKey Cookie) (d : CookieDiff) (m : OrdMap CookieKey Cookie)
    → scan_before after d m ≡ record d { removed = d.removed ++ removed_of after m }
unfolding scan_before removed_of
scan_before_lem after d [] = ground (arith, append-nil d.removed)
scan_before_lem after d ((k, b) ∷ m) = ground (
  arith,
  scan_before_lem after d m,
  scan_before_lem after (record d { removed = d.removed ++ (b ∷ []) }) m,
  append_assoc d.removed (b ∷ []) (removed_of after m),
)

abbrev by_key : Cookie → Cookie → Ordering
by_key l r = ordering (key l) (key r)

abbrev by_change : CookieModification → CookieModification → Ordering
by_change l r = ordering l.key r.key

ne_gt_of_lt : (j k : CookieKey) → j ≺ k → ordering j k ≢ gt
ne_gt_of_lt j k h = ground arith

-- All listed cookies stand above a key that all entries stand above.
added_of-Above :
    (before : OrdMap CookieKey Cookie) (c : Cookie) (m : OrdMap CookieKey Cookie)
    → IsKeyed m
    → Above (key c) m
    → All (λ a. by_key c a ≢ gt) (added_of before m)
unfolding added_of
added_of-Above before c [] h a = tt
added_of-Above before c ((k, x) ∷ m) (h, hs) (l, a) =
    ground (arith, added_of-Above before c m hs a, ne_gt_of_lt (key c) (key x))

added_of-Sorted :
    (before m : OrdMap CookieKey Cookie)
    → IsKeyed m
    → IsSorted m
    → Sorted by_key (added_of before m)
unfolding added_of
added_of-Sorted before [] h s = tt
added_of-Sorted before ((k, x) ∷ m) (h, hs) (a, s) = ground (
  arith,
  added_of-Sorted before m hs s,
  added_of-Above before x m hs (subst (λ j. Above j m) (sym h) a),
)

pub removed_of-added_of :
    (after m : OrdMap CookieKey Cookie) → removed_of after m ≡ added_of after m
unfolding removed_of added_of
removed_of-added_of after [] = refl
removed_of-added_of after ((k, x) ∷ m) = rw (removed_of-added_of after m)

modified_of-Above :
    (before : OrdMap CookieKey Cookie) (c : CookieModification) (m : OrdMap CookieKey Cookie)
    → Above c.key m
    → All (λ a. by_change c a ≢ gt) (modified_of before m)
unfolding modified_of
modified_of-Above before c [] a = tt
modified_of-Above before c ((k, x) ∷ m) (l, a) =
    ground (arith, modified_of-Above before c m a, ne_gt_of_lt c.key k)

modified_of-Sorted :
    (before m : OrdMap CookieKey Cookie) → IsSorted m → Sorted by_change (modified_of before m)
unfolding modified_of
modified_of-Sorted before [] s = tt
modified_of-Sorted before ((k, x) ∷ m) (a, s) = elim (Option-cases (lookup k before)) [
  | inl miss ↦ ground (arith, modified_of-Sorted before m s)
  | inr (b, hit) ↦
      ground (arith, modified_of-Sorted before m s, modified_of-Above before (change_of k b x) m a)
]

-- The difference of two maps, with no sort.
abbrev pub map_diff : OrdMap CookieKey Cookie → OrdMap CookieKey Cookie → CookieDiff
map_diff before after = record {
  added = added_of before after;
  removed = removed_of after before;
  modified = modified_of before after;
}

pub diff_collections-map_diff :
    (before after : CookieCollection)
    → diff_collections before after ≡ map_diff (collection_map before) (collection_map after)
unfolding diff_collections
diff_collections-map_diff before after =
    let bm = collection_map before in
    let am = collection_map after in
    ground (
      arith,
      scan_after_lem bm empty_diff am,
      scan_before_lem am (map_diff [] []) bm,
      scan_before_lem am (record (map_diff bm am) { removed = [] }) bm,
      removed_of-added_of am bm,
      sort_by-Sorted by_key (added_of bm am)
          (added_of-Sorted bm am (collection_map-IsKeyed after) (collection_map-IsSorted after)),
      sort_by-Sorted by_key (added_of am bm)
          (added_of-Sorted am bm (collection_map-IsKeyed before) (collection_map-IsSorted before)),
      sort_by-Sorted by_change (modified_of bm am)
          (modified_of-Sorted bm am (collection_map-IsSorted after)),
    )
