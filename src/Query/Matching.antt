-- ===== src/Query/Matching.antt =====
-- `QueryExpr::matches` and `CookieQuery::execute`. The reading of the clock, for all the tests of
-- one call, is an argument.
use luck_editor.Prelude.{
  ℕ, Bool, true, false, not, ◌&&◌, ◌||◌, if◌then◌else◌, List, Option, none, some, filter, reverse,
  take, drop, Ordering, lt, eq, gt, ordering, then_with, list_ord, nat_ord,
}
use luck_editor.Prelude.Sort.{sort_by}
use luck_editor.Text.{Text, to_ascii_lowercase, contains, starts_with}
use luck_editor.Float64.{f64_lt}
use luck_editor.Model.{
  Cookie, CookieCollection, SameSite, same_site_eq, bool_eq, effective_session, is_expired_at,
  estimated_bytes,
}
use luck_editor.Model
use luck_editor.Store.{CookieStore, collection}
use luck_editor.Query.Syntax.{SortField, SortOrder, QueryExpr, Exprs, CookieQuery, nil, cons}

unfoldable pub contains_case_insensitive : Text → Text → Bool
contains_case_insensitive haystack needle =
    contains (to_ascii_lowercase needle) (to_ascii_lowercase haystack)

unfoldable mutual
  pub matches : ℕ → Cookie → QueryExpr → Bool
  matches now c QueryExpr.true_ = true
  matches now c (QueryExpr.name_contains value) = contains_case_insensitive c.name value
  matches now c (QueryExpr.value_contains value) = contains_case_insensitive c.value value
  matches now c (QueryExpr.domain_matches value) = Model.domain_matches c value
  matches now c (QueryExpr.path_prefix value) = starts_with value c.path
  matches now c (QueryExpr.secure value) = bool_eq c.secure value
  matches now c (QueryExpr.http_only value) = bool_eq c.http_only value
  matches now c (QueryExpr.session value) = bool_eq (effective_session c) value
  matches now c (QueryExpr.same_site value) = same_site_eq c.same_site value
  matches now c (QueryExpr.expired value) = bool_eq (is_expired_at c now) value
  matches now c (QueryExpr.and_ es) = matches_all now c es
  matches now c (QueryExpr.or_ es) = matches_any now c es
  matches now c (QueryExpr.not_ e) = not (matches now c e)

  -- `expressions.iter().all` and `any`
  pub matches_all : ℕ → Cookie → Exprs → Bool
  matches_all now c nil = true
  matches_all now c (cons e es) = matches now c e && matches_all now c es

  pub matches_any : ℕ → Cookie → Exprs → Bool
  matches_any now c nil = false
  matches_any now c (cons e es) = matches now c e || matches_any now c es

-- `partial_cmp` of `Option<f64>`, with a NaN equal to every number.
unfoldable pub cmp_expiration : Option ℕ → Option ℕ → Ordering
cmp_expiration none none = eq
cmp_expiration none (some y) = lt
cmp_expiration (some x) none = gt
cmp_expiration (some x) (some y) = if f64_lt x y then lt else if f64_lt y x then gt else eq

unfoldable pub compare_by : SortField → Cookie → Cookie → Ordering
unfolding cmp_expiration
compare_by SortField.name l r = ordering l.name r.name
compare_by SortField.domain l r = then_with (ordering l.domain r.domain) (ordering l.name r.name)
compare_by SortField.path l r = then_with (ordering l.path r.path) (ordering l.name r.name)
compare_by SortField.expiration l r = cmp_expiration l.expiration_date r.expiration_date
compare_by SortField.size l r = ordering (estimated_bytes l) (estimated_bytes r)

abbrev pub is_descending : SortOrder → Bool
is_descending SortOrder.ascending = false
is_descending SortOrder.descending = true

-- `take(self.limit.unwrap_or(usize::MAX))`: no vector is longer than that.
abbrev pub take_limit {ℓ} : {A : Type ℓ} → Option ℕ → List A → List A
take_limit none xs = xs
take_limit (some n) xs = take n xs

-- The matching cookies in the order of the query, before it is cut to a page.
unfoldable pub ordered_matches : ℕ → CookieQuery → CookieCollection → CookieCollection
unfolding matches compare_by
ordered_matches now q cs =
    let sorted = sort_by (compare_by q.sort_field) (filter (λ c. matches now c q.expression) cs) in
    if is_descending q.sort_order then reverse sorted else sorted

unfoldable pub execute : ℕ → CookieQuery → CookieCollection → CookieCollection
unfolding ordered_matches
execute now q cs = take_limit q.limit (drop q.offset (ordered_matches now q cs))

-- `CookieStore::query`
unfoldable pub query : ℕ → CookieStore → CookieQuery → CookieCollection
unfolding execute
query now s q = execute now q (collection s)
