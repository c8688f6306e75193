-- ===== src/Canonical/Steps.antt =====
-- `CookieCanonicalizer`: each step changes the cookie and notes the change in the report.
use luck_editor.Prelude.{
  ℕ, ◌+◌, List, [], ◌∷◌, Bool, true, false, not, ◌&&◌, ◌||◌, if◌then◌else◌, is_some, length, ◌=?◌,
  list_ord, nat_ord,
}
use luck_editor.Text.{
  txt, trim, to_ascii_lowercase, trim_end_matches, trim_start_matches, starts_with,
}
use luck_editor.Model.{
  Cookie, CookieCollection, SameSite, same_site_eq, is_host_prefix, is_secure_prefix,
  deduplicate_last_wins, sort_stable,
}
use luck_editor.Canonical.Paths.{normalize_path}
use luck_editor.Canonical.Changes.{
  CanonicalizationConfig, CanonicalizationChange, CanonicalizationReport, empty_report, note,
}

abbrev pub Noted : Type 0
Noted = Cookie × CanonicalizationReport

-- Where the test holds, the cookie is replaced and the change noted.
abbrev pub change_if : Bool → Cookie → CanonicalizationChange → Noted → Noted
change_if b c' change (c, r) = if b then (c', note change r) else (c, r)

unfoldable pub canonicalize_name : CanonicalizationConfig → Noted → Noted
canonicalize_name config (c, r) =
    let trimmed = trim c.name in
    change_if (config.trim_names && not (trimmed =? c.name)) (record c { name = trimmed })
      CanonicalizationChange.trimmed_name (c, r)

unfoldable pub trim_domain_step : CanonicalizationConfig → Noted → Noted
trim_domain_step config (c, r) =
    let trimmed = trim c.domain in
    change_if (config.trim_domains && not (trimmed =? c.domain)) (record c { domain = trimmed })
      CanonicalizationChange.trimmed_domain (c, r)

unfoldable pub lowercase_domain_step : CanonicalizationConfig → Noted → Noted
lowercase_domain_step config (c, r) =
    let lowered = to_ascii_lowercase c.domain in
    change_if (config.lowercase_domains && not (lowered =? c.domain))
      (record c { domain = lowered }) CanonicalizationChange.lowercased_domain (c, r)

unfoldable pub trailing_dot_step : CanonicalizationConfig → Noted → Noted
trailing_dot_step config (c, r) =
    let trimmed = trim_end_matches b'.' c.domain in
    change_if (config.remove_trailing_domain_dot && not (trimmed =? c.domain))
      (record c { domain = trimmed }) CanonicalizationChange.removed_trailing_domain_dot (c, r)

abbrev pub set_host_only : Noted → Noted
set_host_only (c, r) = (record c { host_only = not (starts_with (txt ".") c.domain) }, r)

unfoldable pub canonicalize_domain : CanonicalizationConfig → Noted → Noted
unfolding trim_domain_step lowercase_domain_step trailing_dot_step
canonicalize_domain config n =
    set_host_only
      (trailing_dot_step config (lowercase_domain_step config (trim_domain_step config n)))

unfoldable pub canonicalize_path : CanonicalizationConfig → Noted → Noted
unfolding normalize_path
canonicalize_path config (c, r) =
    let normalized = normalize_path c.path config.maximum_path_segments in
    change_if (config.normalize_paths && not (normalized =? c.path))
      (record c { path = normalized }) CanonicalizationChange.normalized_path (c, r)

unfoldable pub same_site_step : CanonicalizationConfig → Noted → Noted
same_site_step config (c, r) =
    change_if
      (config.secure_same_site_none && same_site_eq c.same_site SameSite.none_site && not c.secure)
      (record c { secure = true }) CanonicalizationChange.enabled_secure_for_same_site_none (c, r)

unfoldable pub secure_prefix_step : Noted → Noted
unfolding is_secure_prefix
secure_prefix_step (c, r) =
    change_if (is_secure_prefix c && not c.secure) (record c { secure = true })
      CanonicalizationChange.enabled_secure_for_secure_prefix (c, r)

-- The three changes to a cookie with the host prefix.
unfoldable pub host_secure_step : Noted → Noted
host_secure_step (c, r) =
    change_if (not c.secure) (record c { secure = true })
      CanonicalizationChange.enabled_secure_for_host_prefix (c, r)

unfoldable pub host_path_step : Noted → Noted
host_path_step (c, r) =
    change_if (not (c.path =? txt "/")) (record c { path = txt "/" })
      CanonicalizationChange.set_host_prefix_path (c, r)

unfoldable pub host_domain_step : Noted → Noted
host_domain_step (c, r) =
    change_if (not c.host_only || starts_with (txt ".") c.domain)
      (record c { domain = trim_start_matches b'.' c.domain; host_only = true })
      CanonicalizationChange.set_host_only_for_host_prefix (c, r)

unfoldable pub host_prefix_step : Noted → Noted
unfolding is_host_prefix host_secure_step host_path_step host_domain_step
host_prefix_step n =
    if is_host_prefix n.0 then host_domain_step (host_path_step (host_secure_step n)) else n

unfoldable pub canonicalize_security : CanonicalizationConfig → Noted → Noted
unfolding same_site_step secure_prefix_step host_prefix_step
canonicalize_security config n =
    let after = same_site_step config n in
    if not config.enforce_prefix_rules then after else host_prefix_step (secure_prefix_step after)

unfoldable pub canonicalize_lifetime : CanonicalizationConfig → Noted → Noted
canonicalize_lifetime config (c, r) =
    let should_be_session = not (is_some c.expiration_date) in
    if not config.infer_session_flag
    then (c, r)
    else if should_be_session && not c.session
    then (record c { session = true }, note CanonicalizationChange.inferred_session r)
    else if not should_be_session && c.session
    then (record c { session = false }, note CanonicalizationChange.inferred_persistent r)
    else (c, r)

unfoldable pub canonicalize : CanonicalizationConfig → Cookie → Noted
unfolding canonicalize_name canonicalize_domain canonicalize_path canonicalize_security
    canonicalize_lifetime
canonicalize config c = canonicalize_lifetime config (
    canonicalize_security config (
      canonicalize_path config
        (canonicalize_domain config (canonicalize_name config (c, empty_report)))))

pub record CollectionCanonicalizationReport : Type 0 where
  pub cookie_reports : List CanonicalizationReport
  pub duplicates_removed : ℕ
  pub total_changes : ℕ

-- The loop over the cookies: the cookies changed, their reports, and the changes counted.
unfoldable pub canonicalize_each :
    CanonicalizationConfig → CookieCollection → CookieCollection × List CanonicalizationReport × ℕ
unfolding canonicalize
canonicalize_each config [] = ([], [], 0)
canonicalize_each config (c ∷ cs) =
    let (c', report) = canonicalize config c in
    let (cs', reports, total) = canonicalize_each config cs in
    (c' ∷ cs', report ∷ reports, length report.changes + total)

unfoldable pub canonicalize_collection :
    CanonicalizationConfig → CookieCollection → CookieCollection × CollectionCanonicalizationReport
unfolding canonicalize_each deduplicate_last_wins sort_stable
canonicalize_collection config cs =
    let (changed_, reports, total) = canonicalize_each config cs in
    let (removed, kept) = deduplicate_last_wins changed_ in
    (
      sort_stable kept,
      record { cookie_reports = reports; duplicates_removed = removed; total_changes = total },
    )
