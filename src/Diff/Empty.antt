-- ===== src/Diff/Empty.antt =====
-- `CookieDiff::is_empty` on a diff of two collections.
use luck_editor.Prelude.{
  ℕ, List, [], ◌∷◌, true, false, Option, none, some, is_some, is_empty, ◌≡◌, ◌↔◌, refl, sym, subst,
  arith, All, Option-cases, inl, inr, =?_refl, list_ord, nat_ord,
}
use luck_editor.Float64.{is_nan, f64_eq}
use luck_editor.OrdMap.{lookup}
use luck_editor.OrdMap.Order.{IsSorted}
use luck_editor.OrdMap.Laws.{lookup-All}
use luck_editor.Model.{Cookie, CookieKey, CookieCollection, key_ord, expiration_eq}
use luck_editor.Diff.Compute.{
  CookieDiff, is_empty_diff, changed_fields, collection_map, diff_collections,
}
use luck_editor.Diff.Fields.{
  HasNumber, bool_eq_refl, same_site_eq_refl, cmp_option_refl, metadata_eq_refl,
}
use luck_editor.Diff.Agree.{SameExpiration, SameFields, Unchanged, lookup-HasKey}
use luck_editor.Diff.Maps.{IsKeyed, collection_map-IsKeyed, collection_map-IsSorted}
use luck_editor.Diff.Scan.{added_of, modified_of, removed_of, map_diff, diff_collections-map_diff}
use luck_editor.Diff.Loops.{CookieMap, StandIn, remove_all, modify_all, add_all}
use luck_editor.Diff.RoundTrip.{
  collection_map-All, StandIn-self, merged-Unchanged, lookup-final_map,
}

SameExpiration-expiration_eq :
    (b a : Option ℕ)
    → (elim b [ none ↦ false | some x ↦ is_nan x ]) ≡ false
    → SameExpiration b a
    → expiration_eq b a ≡ true
unfolding expiration_eq f64_eq is_nan
SameExpiration-expiration_eq none none n h = refl
SameExpiration-expiration_eq none (some y) n h = absurd h
SameExpiration-expiration_eq (some x) none n h = absurd h
SameExpiration-expiration_eq (some x) (some y) n (inl e) = ground arith
SameExpiration-expiration_eq (some x) (some y) n (inr (e, f)) = ground arith

-- Cookies that agree have no changed field, unless the expiration is a NaN.
SameFields-changed_fields : (b a : Cookie) → HasNumber b → SameFields b a → changed_fields b a ≡ []
unfolding changed_fields
SameFields-changed_fields b a n s =
    rw
      (
        s.value,
        =?_refl a.value,
        s.secure,
        bool_eq_refl a.secure,
        s.http_only,
        bool_eq_refl a.http_only,
        s.same_site,
        same_site_eq_refl a.same_site,
        SameExpiration-expiration_eq b.expiration_date a.expiration_date n s.expiration_date,
        s.session,
        bool_eq_refl a.session,
        s.host_only,
        bool_eq_refl a.host_only,
        s.partition_site,
        cmp_option_refl a.partition_site,
        s.metadata,
        metadata_eq_refl a.metadata,
      )
      refl

found_before : (o : Option Cookie) (a : Cookie) → Unchanged o (some a) → is_some o ≡ true
found_before none a h = absurd h
found_before (some b) a h = refl

found_after : (b : Cookie) (o : Option Cookie) → Unchanged (some b) o → is_some o ≡ true
found_after b none h = absurd h
found_after b (some a) h = refl

module _ (bm am : CookieMap) (same : (k : CookieKey) → Unchanged (lookup k bm) (lookup k am)) where
  added_of-nil : (m : CookieMap) → StandIn am m → added_of bm m ≡ []
  unfolding added_of
  added_of-nil [] h = refl
  added_of-nil ((j, a) ∷ m) (h, hs) =
      rw (found_before (lookup j bm) a (subst (Unchanged (lookup j bm)) h (same j)))
        (added_of-nil m hs)

  removed_of-nil : (m : CookieMap) → StandIn bm m → removed_of am m ≡ []
  unfolding removed_of
  removed_of-nil [] h = refl
  removed_of-nil ((j, b) ∷ m) (h, hs) =
      rw (found_after b (lookup j am) (subst (λ o. Unchanged o (lookup j am)) h (same j)))
        (removed_of-nil m hs)

  modified_of-nil :
      ((k : CookieKey) (b : Cookie) → lookup k bm ≡ some b → HasNumber b)
      → (m : CookieMap) → StandIn am m
      → modified_of bm m ≡ []
  unfolding modified_of
  modified_of-nil number [] h = refl
  modified_of-nil number ((j, a) ∷ m) (h, hs) = elim (Option-cases (lookup j bm)) [
    | inl miss ↦ rw (miss, modified_of) (modified_of-nil number m hs)
    | inr (b, hit) ↦
        let agree : SameFields b a =
          subst (λ o. Unchanged o (some a)) hit (subst (Unchanged (lookup j bm)) h (same j)) in
        rw (hit, modified_of, SameFields-changed_fields b a (number j b hit) agree)
          (modified_of-nil number m hs)
  ]

nil_of_empty {ℓ} : {A : Type ℓ} (xs : List A) → is_empty xs ≡ true → xs ≡ []
nil_of_empty [] h = refl
nil_of_empty (x ∷ xs) h = absurd cc

empty_parts :
    (d : CookieDiff)
    → is_empty_diff d ≡ true
    → (d.added ≡ []) × (d.removed ≡ []) × (d.modified ≡ [])
unfolding is_empty_diff
empty_parts d h = (
  nil_of_empty d.added (ground arith),
  nil_of_empty d.removed (ground arith),
  nil_of_empty d.modified (ground arith),
)

map_diff-Unchanged :
    (bm am : CookieMap)
    → IsKeyed bm
    → IsKeyed am
    → IsSorted am
    → is_empty_diff (map_diff bm am) ≡ true
    → (k : CookieKey) → Unchanged (lookup k bm) (lookup k am)
unfolding remove_all modify_all add_all
map_diff-Unchanged bm am kb ka sa h k =
    let (added, removed, modified) = empty_parts (map_diff bm am) h in
    subst (λ o. Unchanged o (lookup k am))
      (sym (rw (added, removed, modified) at (lookup-final_map k bm am kb ka sa)))
      (merged-Unchanged k (lookup k bm) (lookup k am) (lookup-HasKey k bm kb)
        (lookup-HasKey k am ka))

-- The diff between two collections, if no cookie of the first has a NaN for its expiration, is
-- empty exactly if every key reads alike in both: as nothing, or as cookies with the same fields,
-- where the two zeros are one expiration, and an absent store identifier is as good as an empty one.
pub is_empty_diff-diff_collections :
    (before after : CookieCollection)
    → All HasNumber before
    → is_empty_diff (diff_collections before after) ≡ true ↔ (
        (k : CookieKey)
        → Unchanged (lookup k (collection_map before)) (lookup k (collection_map after)))
is_empty_diff-diff_collections before after number =
    let bm = collection_map before in
    let am = collection_map after in
    let kb = collection_map-IsKeyed before in
    let sb = collection_map-IsSorted before in
    let ka = collection_map-IsKeyed after in
    let sa = collection_map-IsSorted after in
    rw (diff_collections-map_diff before after) (
      map_diff-Unchanged bm am kb ka sa,
      λ same.
          rw
            (
              added_of-nil bm am same am (StandIn-self am sa),
              removed_of-nil bm am same bm (StandIn-self bm sb),
              modified_of-nil bm am same
                  (λ k b.
                    lookup-All (λ e. HasNumber e.1) k b bm
                      (collection_map-All HasNumber before number))
                  am (StandIn-self am sa),
            )
            (unfold is_empty_diff in refl),
    )
