-- ===== src/Model/Collection.antt =====
-- `CookieCollection`: a vector of cookies. An operation that counts returns the count first.
use luck_editor.Prelude.{
  ℕ, ◌+◌, ◌-◌, List, [], ◌∷◌, not, if◌then◌else◌, reverse, filter, length, Ordering, then_with,
  ordering, list_ord, nat_ord,
}
use luck_editor.Prelude.Sort.{sort_by}
use luck_editor.OrdMap.{OrdSet, contains_key, add}
use luck_editor.Text.{Text}
use luck_editor.Model.Cookies.{
  Cookie, CookieKey, key_ord, key, is_expired_at, cmp_option, domain_matches, estimated_bytes,
}

abbrev pub CookieCollection : Type 0
CookieCollection = List Cookie

-- `retain(|cookie| seen.insert(cookie.key()))`: `insert` answers whether the key is new.
unfoldable pub retain_unseen : OrdSet CookieKey → CookieCollection → CookieCollection
retain_unseen seen [] = []
retain_unseen seen (c ∷ cs) =
    let rest = retain_unseen (add (key c) seen) cs in
    if contains_key (key c) seen then rest else c ∷ rest

unfoldable pub deduplicate_last_wins : CookieCollection → ℕ × CookieCollection
unfolding retain_unseen
deduplicate_last_wins cs =
    let kept = reverse (retain_unseen [] (reverse cs)) in (length cs - length kept, kept)

unfoldable pub remove_expired_at : CookieCollection → ℕ → ℕ × CookieCollection
remove_expired_at cs now =
    let kept = filter (λ c. not (is_expired_at c now)) cs in (length cs - length kept, kept)

unfoldable pub cmp_stable : Cookie → Cookie → Ordering
cmp_stable l r = then_with (ordering l.domain r.domain) (
    then_with (ordering l.path r.path)
      (then_with (ordering l.name r.name) (cmp_option l.store_id r.store_id)))

unfoldable pub sort_stable : CookieCollection → CookieCollection
sort_stable = sort_by cmp_stable

unfoldable pub by_domain : CookieCollection → Text → List Cookie
by_domain cs hostname = filter (λ c. domain_matches c hostname) cs

unfoldable pub total_estimated_bytes : CookieCollection → ℕ
total_estimated_bytes [] = 0
total_estimated_bytes (c ∷ cs) = estimated_bytes c + total_estimated_bytes cs
