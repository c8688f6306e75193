-- ===== src/DomainIndex.antt =====
-- rust/crates/luck-core/src/domain_index.rs: `DomainIndex`, the keys of cookies by domain and flag.
pub mod Build
pub mod Remove
use luck_editor.Prelude.{
  ℕ, zero, suc, ◌+◌, List, [], ◌∷◌, ◌++◌, Bool, true, false, not, ◌||◌, ◌&&◌, if◌then◌else◌, Option,
  none, some, unwrap_or, length, map, filter, is_empty, ◌=?◌, list_ord, nat_ord, ordering,
  then_with, take, Ordering,
}
use luck_editor.Prelude.Sort.{sort_by}
use luck_editor.OrdMap.{
  OrdMap, OrdSet, lookup, insert, remove, contains_key, add, extend, keys, set_eq,
}
use luck_editor.Text.{
  Text, txt, trim, trim_start_matches, trim_end_matches, to_ascii_lowercase, split, join, ends_with,
}
use luck_editor.Model.{Cookie, CookieKey, CookieCollection, key_ord, key, effective_session}

pub record DomainIndex : Type 0 where
  pub domains : OrdMap Text (OrdSet CookieKey)
  pub host_only : OrdSet CookieKey
  pub secure : OrdSet CookieKey
  pub http_only : OrdSet CookieKey
  pub session : OrdSet CookieKey

unfoldable pub normalize_domain : Text → Text
normalize_domain value =
    to_ascii_lowercase (trim_end_matches b'.' (trim_start_matches b'.' (trim value)))

unfoldable pub set_membership : OrdSet CookieKey → CookieKey → Bool → OrdSet CookieKey
set_membership set k included = if included then add k set else remove k set

-- `get(domain)`, with the empty set where there is none.
abbrev pub keys_at : OrdMap Text (OrdSet CookieKey) → Text → OrdSet CookieKey
keys_at domains d = unwrap_or (lookup d domains) []

abbrev pub empty_index : DomainIndex
empty_index = record { domains = []; host_only = []; secure = []; http_only = []; session = [] }

unfoldable pub insert_cookie : DomainIndex → Cookie → DomainIndex
unfolding set_membership
insert_cookie index c =
    let k = key c in
    let domain = normalize_domain c.domain in
    record {
      domains = insert domain (add k (keys_at index.domains domain)) index.domains;
      host_only = set_membership index.host_only k c.host_only;
      secure = set_membership index.secure k c.secure;
      http_only = set_membership index.http_only k c.http_only;
      session = set_membership index.session k (effective_session c);
    }

unfoldable pub insert_all : DomainIndex → CookieCollection → DomainIndex
unfolding insert_cookie
insert_all index [] = index
insert_all index (c ∷ cs) = insert_all (insert_cookie index c) cs

unfoldable pub build : CookieCollection → DomainIndex
unfolding insert_all
build cs = insert_all empty_index cs

-- The key is taken from the keys of the domain, and a domain that is left empty goes.
unfoldable pub remove_key :
    Text → CookieKey → OrdMap Text (OrdSet CookieKey) → Bool × OrdMap Text (OrdSet CookieKey)
remove_key domain k domains = elim (lookup domain domains) [
  | none ↦ (false, domains)
  | some found ↦
      let left = remove k found in
      (
        contains_key k found,
        if is_empty left then remove domain domains else insert domain left domains,
      )
]

-- Whether the key was there, and the index without it.
unfoldable pub remove_cookie : DomainIndex → Cookie → Bool × DomainIndex
unfolding remove_key
remove_cookie index c =
    let k = key c in
    let (removed, domains) = remove_key (normalize_domain c.domain) k index.domains in
    (
      removed,
      record {
        domains = domains;
        host_only = remove k index.host_only;
        secure = remove k index.secure;
        http_only = remove k index.http_only;
        session = remove k index.session;
      },
    )

unfoldable pub replace : DomainIndex → Cookie → Cookie → DomainIndex
unfolding remove_cookie insert_cookie
replace index before after = insert_cookie (remove_cookie index before).1 after

unfoldable pub exact_domain : DomainIndex → Text → List CookieKey
exact_domain index domain = keys (keys_at index.domains (normalize_domain domain))

-- The loop over the starts: the labels from there on, joined.
unfoldable pub collect_suffixes : DomainIndex → OrdSet CookieKey → List Text → OrdSet CookieKey
collect_suffixes index acc [] = acc
collect_suffixes index acc (l ∷ ls) =
    collect_suffixes index (extend acc (keys (keys_at index.domains (join (txt ".") (l ∷ ls))))) ls

unfoldable pub matching_host : DomainIndex → Text → List CookieKey
unfolding collect_suffixes
matching_host index hostname =
    let labels = filter (λ l. not (is_empty l)) (split b'.' (normalize_domain hostname)) in
    keys (collect_suffixes index [] labels)

unfoldable pub subdomains_of : DomainIndex → Text → List (Text × List CookieKey)
subdomains_of index parent =
    let p = normalize_domain parent in
    map (λ e. (e.0, keys e.1))
      (filter (λ e. e.0 =? p || ends_with (txt "." ++ p) e.0) index.domains)

unfoldable pub insecure_keys : DomainIndex → CookieCollection → List CookieKey
insecure_keys index cs = map key (filter (λ c. not (contains_key (key c) index.secure)) cs)

unfoldable pub persistent_keys : DomainIndex → CookieCollection → List CookieKey
persistent_keys index cs = map key (filter (λ c. not (contains_key (key c) index.session)) cs)

unfoldable pub domain_count : DomainIndex → ℕ
domain_count index = length index.domains

unfoldable pub sum_keys : OrdMap Text (OrdSet CookieKey) → ℕ
sum_keys [] = 0
sum_keys ((d, s) ∷ m) = length s + sum_keys m

unfoldable pub cookie_count : DomainIndex → ℕ
unfolding sum_keys
cookie_count index = sum_keys index.domains

unfoldable pub domain_sizes : DomainIndex → List (Text × ℕ)
domain_sizes index = map (λ e. (e.0, length e.1)) index.domains

abbrev pub larger_first : Text × ℕ → Text × ℕ → Ordering
larger_first l r = then_with (ordering r.1 l.1) (ordering l.0 r.0)

unfoldable pub largest_domains : DomainIndex → ℕ → List (Text × ℕ)
unfolding domain_sizes
largest_domains index limit = take limit (sort_by larger_first (domain_sizes index))

pub record IndexValidationReport : Type 0 where
  pub valid : Bool
  pub issues : List Text

-- `==` on the maps from domains to sets.
unfoldable pub domains_eq : OrdMap Text (OrdSet CookieKey) → OrdMap Text (OrdSet CookieKey) → Bool
domains_eq [] [] = true
domains_eq [] (e ∷ n) = false
domains_eq (e ∷ m) [] = false
domains_eq ((d, s) ∷ m) ((e, t) ∷ n) = d =? e && set_eq s t && domains_eq m n

abbrev pub issue_unless : Bool → Text → List Text
issue_unless b t = if b then [] else t ∷ []

unfoldable pub validate_against : DomainIndex → CookieCollection → IndexValidationReport
unfolding build domains_eq
validate_against index cs =
    let rebuilt = build cs in
    let issues =
      issue_unless (domains_eq index.domains rebuilt.domains)
        (txt "domain mapping differs from collection")
      ++ (issue_unless (set_eq index.host_only rebuilt.host_only)
            (txt "host-only membership differs from collection")
          ++ (issue_unless (set_eq index.secure rebuilt.secure)
                (txt "secure membership differs from collection")
              ++ (issue_unless (set_eq index.http_only rebuilt.http_only)
                    (txt "HttpOnly membership differs from collection")
                  ++ issue_unless (set_eq index.session rebuilt.session)
                      (txt "session membership differs from collection")))) in
    record { valid = is_empty issues; issues = issues }
