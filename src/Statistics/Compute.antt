-- ===== src/Statistics/Compute.antt =====
-- `CookieStatistics`, computed in one loop over the cookies.
use luck_editor.Prelude.{
  ℕ, ◌+◌, max, List, [], ◌∷◌, ◌++◌, Bool, true, false, not, ◌||◌, is_empty, is_some, length, foldl,
  Option, none, some, unwrap_or, list_ord, nat_ord,
}
use luck_editor.OrdMap.{OrdMap, OrdSet, lookup, insert, add, contains_key}
use luck_editor.Text.{Text, txt, len, to_ascii_lowercase}
use luck_editor.Model.{
  Cookie, CookieCollection, SameSite, normalized_domain, estimated_bytes, effective_session,
  is_expired_at, is_host_prefix, is_secure_prefix,
}
use luck_editor.Statistics.Arithmetic.{Floats}
use luck_editor.Statistics.Distribution.{
  LengthDistribution, LifetimeStatistics, empty_distribution, empty_lifetime, from_values,
  from_seconds, mean_usize, ratio, top_entries,
}

pub record SameSiteStatistics : Type 0 where
  pub none_site : ℕ
  pub lax : ℕ
  pub strict : ℕ
  pub unspecified : ℕ

unfoldable pub increment : SameSite → SameSiteStatistics → SameSiteStatistics
increment SameSite.none_site s = record s { none_site = s.none_site + 1 }
increment SameSite.lax s = record s { lax = s.lax + 1 }
increment SameSite.strict s = record s { strict = s.strict + 1 }
increment SameSite.unspecified s = record s { unspecified = s.unspecified + 1 }

pub record CookieStatistics : Type 0 where
  pub total : ℕ
  pub domains : ℕ
  pub names : ℕ
  pub total_estimated_bytes : ℕ
  pub average_estimated_bytes : ℕ
  pub maximum_estimated_bytes : ℕ
  pub secure : ℕ
  pub insecure : ℕ
  pub http_only : ℕ
  pub script_readable : ℕ
  pub session : ℕ
  pub persistent : ℕ
  pub expired : ℕ
  pub host_only : ℕ
  pub domain_scoped : ℕ
  pub prefixed_host : ℕ
  pub prefixed_secure : ℕ
  pub partitioned : ℕ
  pub empty_values : ℕ
  pub same_site : SameSiteStatistics
  pub by_domain : OrdMap Text ℕ
  pub by_path : OrdMap Text ℕ
  pub by_store : OrdMap Text ℕ
  pub value_length : LengthDistribution
  pub name_length : LengthDistribution
  pub lifetime : LifetimeStatistics

abbrev pub empty_statistics : CookieStatistics
empty_statistics = record {
  total = 0;
  domains = 0;
  names = 0;
  total_estimated_bytes = 0;
  average_estimated_bytes = 0;
  maximum_estimated_bytes = 0;
  secure = 0;
  insecure = 0;
  http_only = 0;
  script_readable = 0;
  session = 0;
  persistent = 0;
  expired = 0;
  host_only = 0;
  domain_scoped = 0;
  prefixed_host = 0;
  prefixed_secure = 0;
  partitioned = 0;
  empty_values = 0;
  same_site = record { none_site = 0; lax = 0; strict = 0; unspecified = 0 };
  by_domain = [];
  by_path = [];
  by_store = [];
  value_length = empty_distribution;
  name_length = empty_distribution;
  lifetime = empty_lifetime;
}

-- The variables of the loop.
pub record Counting : Type 0 where
  pub stats : CookieStatistics
  pub domains : OrdSet Text
  pub names : OrdSet Text
  pub sizes : List ℕ
  pub value_lengths : List ℕ
  pub name_lengths : List ℕ
  pub lifetimes : List ℕ

abbrev pub counting_start : Counting
counting_start = record {
  stats = empty_statistics;
  domains = [];
  names = [];
  sizes = [];
  value_lengths = [];
  name_lengths = [];
  lifetimes = [];
}

-- `usize::from` of a Boolean
abbrev pub to_usize : Bool → ℕ
to_usize true = 1
to_usize false = 0

-- `*map.entry(key).or_default() += 1`
abbrev pub count_key : Text → OrdMap Text ℕ → OrdMap Text ℕ
count_key key m = insert key (unwrap_or (lookup key m) 0 + 1) m

abbrev pub lifetime_left : Floats → ℕ → Option ℕ → List ℕ → List ℕ
lifetime_left floats now none lifetimes = lifetimes
lifetime_left floats now (some expiry) lifetimes =
    lifetimes ++ (floats.seconds_left expiry now ∷ [])

abbrev pub lowered_domain : Cookie → Text
lowered_domain c = to_ascii_lowercase (normalized_domain c)

-- The counters behind a cookie; `count_flag` adds to one of two.
unfoldable pub count_stats : ℕ → Cookie → CookieStatistics → CookieStatistics
unfolding increment
count_stats now c s = record s {
  total = s.total + 1;
  by_domain = count_key (lowered_domain c) s.by_domain;
  by_path = count_key c.path s.by_path;
  by_store = count_key (unwrap_or c.store_id []) s.by_store;
  total_estimated_bytes = s.total_estimated_bytes + estimated_bytes c;
  maximum_estimated_bytes = max s.maximum_estimated_bytes (estimated_bytes c);
  secure = s.secure + to_usize c.secure;
  insecure = s.insecure + to_usize (not c.secure);
  http_only = s.http_only + to_usize c.http_only;
  script_readable = s.script_readable + to_usize (not c.http_only);
  session = s.session + to_usize (effective_session c);
  persistent = s.persistent + to_usize (not (effective_session c));
  host_only = s.host_only + to_usize c.host_only;
  domain_scoped = s.domain_scoped + to_usize (not c.host_only);
  expired = s.expired + to_usize (is_expired_at c now);
  prefixed_host = s.prefixed_host + to_usize (is_host_prefix c);
  prefixed_secure = s.prefixed_secure + to_usize (is_secure_prefix c);
  partitioned =
      s.partitioned
      + to_usize (is_some c.partition_site || contains_key (txt "partitioned") c.metadata);
  empty_values = s.empty_values + to_usize (is_empty c.value);
  same_site = increment c.same_site s.same_site;
}

unfoldable pub count_cookie : Floats → ℕ → Counting → Cookie → Counting
unfolding count_stats
count_cookie floats now s c = record {
  stats = count_stats now c s.stats;
  domains = add (lowered_domain c) s.domains;
  names = add c.name s.names;
  sizes = s.sizes ++ (estimated_bytes c ∷ []);
  value_lengths = s.value_lengths ++ (len c.value ∷ []);
  name_lengths = s.name_lengths ++ (len c.name ∷ []);
  lifetimes = lifetime_left floats now c.expiration_date s.lifetimes;
}

-- What is computed behind the loop.
unfoldable pub summary : Floats → Counting → CookieStatistics
unfolding from_values from_seconds mean_usize
summary floats s = record s.stats {
  domains = length s.domains;
  names = length s.names;
  average_estimated_bytes = mean_usize floats s.sizes;
  value_length = from_values floats s.value_lengths;
  name_length = from_values floats s.name_lengths;
  lifetime = from_seconds floats s.lifetimes;
}

-- The clock's reading is an argument.
unfoldable pub compute : Floats → ℕ → CookieCollection → CookieStatistics
unfolding count_cookie summary
compute floats now cs = summary floats (foldl (count_cookie floats now) counting_start cs)

unfoldable pub secure_ratio : Floats → CookieStatistics → ℕ
unfolding ratio
secure_ratio floats s = ratio floats s.secure s.total

unfoldable pub http_only_ratio : Floats → CookieStatistics → ℕ
unfolding ratio
http_only_ratio floats s = ratio floats s.http_only s.total

unfoldable pub session_ratio : Floats → CookieStatistics → ℕ
unfolding ratio
session_ratio floats s = ratio floats s.session s.total

unfoldable pub expired_ratio : Floats → CookieStatistics → ℕ
unfolding ratio
expired_ratio floats s = ratio floats s.expired s.total

unfoldable pub top_domains : CookieStatistics → ℕ → List (Text × ℕ)
unfolding top_entries
top_domains s limit = top_entries s.by_domain limit

unfoldable pub top_paths : CookieStatistics → ℕ → List (Text × ℕ)
unfolding top_entries
top_paths s limit = top_entries s.by_path limit
