-- ===== src/Diff/Compute.antt =====
-- `CookieDiff`, `diff_collections` and `invert`.
use luck_editor.Prelude.{
  ℕ, ◌+◌, List, [], ◌∷◌, ◌++◌, Bool, ◌&&◌, if◌then◌else◌, map, none, some, ordering, is_eq, length,
  not, is_empty, list_ord, nat_ord, ◌=?◌,
}
use luck_editor.Prelude.Sort.{sort_by}
use luck_editor.OrdMap.{OrdMap, lookup, insert, contains_key}
use luck_editor.Model.{
  Cookie, CookieKey, CookieCollection, key_ord, key, expiration_eq, cmp_option, metadata_eq,
  bool_eq, same_site_eq,
}

pub data CookieField : Type 0 where
  value secure http_only same_site expiration_date session host_only partition_site metadata :
      CookieField

pub record CookieModification : Type 0 where
  pub key : CookieKey
  pub before : Cookie
  pub after : Cookie
  pub fields : List CookieField

pub record CookieDiff : Type 0 where
  pub added : List Cookie
  pub removed : List Cookie
  pub modified : List CookieModification

abbrev pub empty_diff : CookieDiff
empty_diff = record { added = []; removed = []; modified = [] }

-- `CookieDiff::is_empty`
unfoldable pub is_empty_diff : CookieDiff → Bool
is_empty_diff d = is_empty d.added && is_empty d.removed && is_empty d.modified

unfoldable pub total_changes : CookieDiff → ℕ
total_changes d = length d.added + length d.removed + length d.modified

unfoldable pub invert_change : CookieModification → CookieModification
invert_change change = record {
  key = change.key;
  before = change.after;
  after = change.before;
  fields = change.fields;
}

unfoldable pub invert : CookieDiff → CookieDiff
unfolding invert_change
invert d = record { added = d.removed; removed = d.added; modified = map invert_change d.modified }

-- `collect` into a map: a later cookie replaces an earlier one with its key.
unfoldable pub collect_into : OrdMap CookieKey Cookie → CookieCollection → OrdMap CookieKey Cookie
collect_into m [] = m
collect_into m (c ∷ cs) = collect_into (insert (key c) c m) cs

unfoldable pub collection_map : CookieCollection → OrdMap CookieKey Cookie
unfolding collect_into
collection_map cs = collect_into [] cs

-- Each `if` of `changed_fields` pushes its field where the values differ.
abbrev pub push_unless : Bool → CookieField → List CookieField → List CookieField
push_unless same f rest = if same then rest else f ∷ rest

unfoldable pub changed_fields : Cookie → Cookie → List CookieField
changed_fields b a = push_unless (b.value =? a.value) CookieField.value (
    push_unless (bool_eq b.secure a.secure) CookieField.secure (
      push_unless (bool_eq b.http_only a.http_only) CookieField.http_only (
        push_unless (same_site_eq b.same_site a.same_site) CookieField.same_site (
          push_unless (expiration_eq b.expiration_date a.expiration_date)
            CookieField.expiration_date
            (push_unless (bool_eq b.session a.session) CookieField.session (
              push_unless (bool_eq b.host_only a.host_only) CookieField.host_only (
                push_unless (is_eq (cmp_option b.partition_site a.partition_site))
                  CookieField.partition_site
                  (push_unless (metadata_eq b.metadata a.metadata) CookieField.metadata []))))))))

-- One round of the loop over the new map.
unfoldable pub note_after : OrdMap CookieKey Cookie → CookieDiff → CookieKey → Cookie → CookieDiff
note_after before d k a = elim (lookup k before) [
  | none ↦ record d { added = d.added ++ (a ∷ []) }
  | some b ↦ if is_empty (changed_fields b a) then d else (record d {
    modified =
        d.modified ++ (record { key = k; before = b; after = a; fields = changed_fields b a } ∷ []);
  })
]

unfoldable pub scan_after :
    OrdMap CookieKey Cookie → CookieDiff → OrdMap CookieKey Cookie → CookieDiff
unfolding note_after
scan_after before d [] = d
scan_after before d ((k, a) ∷ m) = scan_after before (note_after before d k a) m

-- The loop over the old map.
unfoldable pub scan_before :
    OrdMap CookieKey Cookie → CookieDiff → OrdMap CookieKey Cookie → CookieDiff
scan_before after d [] = d
scan_before after d ((k, b) ∷ m) =
    scan_before after
      (if not (contains_key k after) then record d { removed = d.removed ++ (b ∷ []) } else d) m

unfoldable pub sort_diff : CookieDiff → CookieDiff
sort_diff d = record {
  added = sort_by (λ l r. ordering (key l) (key r)) d.added;
  removed = sort_by (λ l r. ordering (key l) (key r)) d.removed;
  modified = sort_by (λ l r. ordering (l.key) (r.key)) d.modified;
}

unfoldable pub diff_collections : CookieCollection → CookieCollection → CookieDiff
unfolding collection_map scan_after scan_before sort_diff
diff_collections before after =
    let before_map = collection_map before in
    let after_map = collection_map after in
    sort_diff (scan_before after_map (scan_after before_map empty_diff after_map) before_map)

-- `dedup`: of a run of equal keys one stays.
unfoldable pub dedup : List CookieKey → List CookieKey
dedup [] = []
dedup (k ∷ []) = k ∷ []
dedup (j ∷ k ∷ ks) = let rest = dedup (k ∷ ks) in if j =? k then rest else j ∷ rest

unfoldable pub affected_keys : CookieDiff → List CookieKey
unfolding dedup
affected_keys d =
    dedup (sort_by ordering (map key d.added ++ (map key d.removed ++ map (λ c. c.key) d.modified)))
