-- ===== src/Statistics/Balance.antt =====
-- The counters of the statistics add up.
use luck_editor.Prelude.{
  ℕ, ◌+◌, ◌≤◌, [], ◌∷◌, Bool, true, false, not, length, foldl, ◌≡◌, refl, subst, arith,
}
use luck_editor.Model.{
  Cookie, CookieCollection, SameSite, estimated_bytes, effective_session, is_expired_at,
  total_estimated_bytes,
}
use luck_editor.Statistics.{
  Floats, SameSiteStatistics, CookieStatistics, Counting, counting_start, empty_statistics,
  increment, to_usize, count_stats, count_cookie, summary, compute,
}

-- The counters behind `n` cookies of so many bytes.
pub record IsBalanced (n bytes : ℕ) (s : CookieStatistics) : Type 0 where
  pub total : s.total ≡ n
  pub total_bytes : s.total_estimated_bytes ≡ bytes
  pub secure : s.secure + s.insecure ≡ n
  pub http_only : s.http_only + s.script_readable ≡ n
  pub session : s.session + s.persistent ≡ n
  pub host_only : s.host_only + s.domain_scoped ≡ n
  pub same_site :
      s.same_site.none_site + s.same_site.lax + s.same_site.strict + s.same_site.unspecified ≡ n
  pub expired : s.expired ≤ n
  pub largest : s.maximum_estimated_bytes ≤ bytes

to_usize-not : (b : Bool) → to_usize b + to_usize (not b) ≡ 1
to_usize-not true = omega arith
to_usize-not false = omega arith

to_usize-le : (b : Bool) → to_usize b ≤ 1
to_usize-le true = omega arith
to_usize-le false = omega arith

increment_lem :
    (v : SameSite) (s : SameSiteStatistics)
    → (increment v s).none_site
        + (increment v s).lax
        + (increment v s).strict
        + (increment v s).unspecified
      ≡ s.none_site + s.lax + s.strict + s.unspecified + 1
unfolding increment
increment_lem SameSite.none_site s = omega arith
increment_lem SameSite.lax s = omega arith
increment_lem SameSite.strict s = omega arith
increment_lem SameSite.unspecified s = omega arith

count_stats-IsBalanced :
    (now n bytes : ℕ) (c : Cookie) (s : CookieStatistics)
    → IsBalanced n bytes s
    → IsBalanced (n + 1) (bytes + estimated_bytes c) (count_stats now c s)
unfolding count_stats
count_stats-IsBalanced now n bytes c s b = record {
  total = omega (arith, b.total);
  total_bytes = omega (arith, b.total_bytes);
  secure = omega (arith, b.secure, to_usize-not c.secure);
  http_only = omega (arith, b.http_only, to_usize-not c.http_only);
  session = omega (arith, b.session, to_usize-not (effective_session c));
  host_only = omega (arith, b.host_only, to_usize-not c.host_only);
  same_site = omega (arith, b.same_site, increment_lem c.same_site s.same_site);
  expired = omega (arith, b.expired, to_usize-le (is_expired_at c now));
  largest = omega (arith, b.largest);
}

-- The same of equal numbers.
moved : (n m b d : ℕ) (s : CookieStatistics) → n ≡ m → b ≡ d → IsBalanced n b s → IsBalanced m d s
moved n m b d s e f h = subst (λ x. IsBalanced m x s) f (subst (λ x. IsBalanced x b s) e h)

foldl-IsBalanced :
    (floats : Floats) (now n bytes : ℕ) (cs : CookieCollection) (s : Counting)
    → IsBalanced n bytes s.stats
    → IsBalanced
        (n + length cs)
        (bytes + total_estimated_bytes cs)
        (foldl (count_cookie floats now) s cs).stats
unfolding count_cookie total_estimated_bytes
foldl-IsBalanced floats now n bytes [] s b =
    moved n (n + 0) bytes (bytes + 0) s.stats (omega arith) (omega arith) b
foldl-IsBalanced floats now n bytes (c ∷ cs) s b =
    moved (n + 1 + length cs) (n + length (c ∷ cs))
      (bytes + estimated_bytes c + total_estimated_bytes cs)
      (bytes + total_estimated_bytes (c ∷ cs)) _ (omega arith) (omega arith)
      (foldl-IsBalanced floats now (n + 1) (bytes + estimated_bytes c) cs
        (count_cookie floats now s c) (count_stats-IsBalanced now n bytes c s.stats b))

empty_IsBalanced : IsBalanced 0 0 empty_statistics
empty_IsBalanced = record {
  total = refl;
  total_bytes = refl;
  secure = omega arith;
  http_only = omega arith;
  session = omega arith;
  host_only = omega arith;
  same_site = omega arith;
  expired = omega arith;
  largest = omega arith;
}

-- The statistics of a collection are balanced: the total is the number of the cookies, each pair of
-- counters adds up to it, and so do the four counters of same-site values; no more are expired; and
-- the bytes are those of the collection, with the largest cookie among them.
pub compute-IsBalanced :
    (floats : Floats) (now : ℕ) (cs : CookieCollection)
    → IsBalanced (length cs) (total_estimated_bytes cs) (compute floats now cs)
unfolding compute summary
compute-IsBalanced floats now cs =
    let b =
      moved (0 + length cs) (length cs) (0 + total_estimated_bytes cs) (total_estimated_bytes cs) _
        (omega arith) (omega arith)
        (foldl-IsBalanced floats now 0 0 cs counting_start empty_IsBalanced) in
    record {
      total = b.total;
      total_bytes = b.total_bytes;
      secure = b.secure;
      http_only = b.http_only;
      session = b.session;
      host_only = b.host_only;
      same_site = b.same_site;
      expired = b.expired;
      largest = b.largest;
    }
