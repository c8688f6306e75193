-- ===== src/Query/Execute.antt =====
-- What a query returns: the matching cookies, in the order of the field, cut to the page.
use luck_editor.Prelude.{
  ℕ, [], ◌∷◌, ◌≡◌, ◌≢◌, refl, sym, ◌∙◌, ap, Ordering, lt, eq, gt, Ord, ordering, then_with, filter,
  reverse, drop, if◌then◌else◌, list_ord, nat_ord, cmp_list,
}
use luck_editor.Prelude.Sort.{sort_by, Sorted}
use luck_editor.Prelude.Sorting.{Perm-sort_by, sort_by-IsSorted, ordering_total, ordering_trans}
use mathlib.Core.List.{Perm}
use luck_editor.Text.{Text}
use luck_editor.Model.{Cookie, CookieCollection, estimated_bytes}
use luck_editor.Query.{
  SortField, CookieQuery, matches, compare_by, is_descending, take_limit, ordered_matches, execute,
}

-- A comparison that compares keys.
ByKey : {K : Type 0} ⦃o : Ord K⦄ (f : Cookie → K) (cmp : Cookie → Cookie → Ordering) → Type 0
ByKey f cmp = (a b : Cookie) → cmp a b ≡ ordering (f a) (f b)

sort_by-ByKey :
    {K : Type 0} ⦃o : Ord K⦄ (f : Cookie → K) (cmp : Cookie → Cookie → Ordering)
    → ByKey f cmp
    → (cs : CookieCollection) → Sorted cmp (sort_by cmp cs)
unfolding ByKey
sort_by-ByKey f cmp h =
    sort_by-IsSorted cmp (λ a b g. rw (h b a) (ordering_total (f a) (f b) (sym (h a b) ∙ g)))
      (λ a b c m n.
        rw (h a c) (ordering_trans (f a) (f b) (f c) (λ x. m (h a b ∙ x)) (λ x. n (h b c ∙ x))))

then_with-eq : (o : Ordering) → then_with o eq ≡ o
then_with-eq lt = refl
then_with-eq eq = refl
then_with-eq gt = refl

-- Two texts one behind the other compare as a list of both.
ordering_pair :
    (a b c d : Text) → then_with (ordering a b) (ordering c d) ≡ ordering (a ∷ c ∷ []) (b ∷ d ∷ [])
unfolding cmp_list
ordering_pair a b c d = ap (then_with (ordering a b)) (sym (then_with-eq (ordering c d)))

sort_by-compare_by :
    (field : SortField)
    → field ≢ SortField.expiration
    → (cs : CookieCollection) → Sorted (compare_by field) (sort_by (compare_by field) cs)
unfolding compare_by ByKey
sort_by-compare_by SortField.name n = sort_by-ByKey (λ c. c.name) _ (λ a b. refl)
sort_by-compare_by SortField.domain n =
    sort_by-ByKey (λ c. c.domain ∷ c.name ∷ []) _
      (λ a b. ordering_pair a.domain b.domain a.name b.name)
sort_by-compare_by SortField.path n =
    sort_by-ByKey (λ c. c.path ∷ c.name ∷ []) _ (λ a b. ordering_pair a.path b.path a.name b.name)
sort_by-compare_by SortField.expiration n = absurd (n refl)
sort_by-compare_by SortField.size n = sort_by-ByKey (λ c. estimated_bytes c) _ (λ a b. refl)

-- Executing a query by any field but the expiration: some list holds exactly the cookies that match
-- the expression, is ordered by the field, and the result is the page of it from the offset on, up
-- to the limit, of the list or, where the query is descending, of its reverse.
pub execute_lem :
    (now : ℕ) (q : CookieQuery) (cs : CookieCollection)
    → q.sort_field ≢ SortField.expiration
    → (sorted : CookieCollection) × Perm sorted (filter (λ c. matches now c q.expression) cs)
      × Sorted (compare_by q.sort_field) sorted
      × (execute now q cs
          ≡ take_limit q.limit
              (drop q.offset (if is_descending q.sort_order then reverse sorted else sorted)))
unfolding execute ordered_matches
execute_lem now q cs n =
    let found = filter (λ c. matches now c q.expression) cs in
    (
      sort_by (compare_by q.sort_field) found,
      Perm-sort_by (compare_by q.sort_field) found,
      sort_by-compare_by q.sort_field n found,
      refl,
    )
