-- ===== src/Policy.antt =====
-- rust/crates/luck-core/src/policy.rs: `CookiePolicy`, which allows or denies a cookie.
pub mod Decision
use Prim.Native.String.{String}
use luck_editor.Prelude.{
  ℕ, List, [], ◌∷◌, ◌++◌, Bool, true, false, not, ◌&&◌, ◌||◌, ltb, if◌then◌else◌, any, map, foldl,
  is_empty, Option, none, some, ◌=?◌, list_ord, nat_ord,
}
use luck_editor.Text.{
  Text, txt, to_ascii_lowercase, trim_start_matches, starts_with, ends_with, contains,
}
use luck_editor.Errors.{Message, lit, num, debug, msg}
use luck_editor.Float64.{f64_lt}
use luck_editor.Model.{
  Cookie, SameSite, same_site_eq, effective_session, normalized_domain, estimated_bytes,
}
use luck_editor.Platform.{Platform}
use luck_editor.Validation.{
  ValidationConfig, ValidationIssue, IssueSeverity, is_error, validate_cookie, default_config, when,
}

pub data RiskLevel : Type 0 where
  informational low medium high critical : RiskLevel

-- `risk >= RiskLevel::High` in the derived order.
abbrev pub at_least_high : RiskLevel → Bool
at_least_high RiskLevel.high = true
at_least_high RiskLevel.critical = true
at_least_high _ = false

pub record PolicyViolation : Type 0 where
  pub rule : Text
  pub message : Message
  pub risk : RiskLevel

pub data PolicyDecision : Type 0 where
  allow : PolicyDecision
  allow_with_warnings deny : List PolicyViolation → PolicyDecision

unfoldable pub is_allowed : PolicyDecision → Bool
is_allowed (PolicyDecision.deny violations) = false
is_allowed _ = true

unfoldable pub violations_of : PolicyDecision → List PolicyViolation
violations_of PolicyDecision.allow = []
violations_of (PolicyDecision.allow_with_warnings violations) = violations
violations_of (PolicyDecision.deny violations) = violations

pub record CookiePolicy : Type 0 where
  pub validation : ValidationConfig
  pub require_secure : Bool
  pub require_http_only_for_names : List Text
  pub deny_name_prefixes : List Text
  pub deny_domain_suffixes : List Text
  pub allow_domains : List Text
  pub maximum_lifetime_days : Option ℕ
  pub maximum_total_bytes : Option ℕ
  pub deny_same_site_none : Bool
  pub deny_session_cookies : Bool
  pub deny_empty_values : Bool

abbrev pub default_policy : CookiePolicy
default_policy = record {
  validation = default_config;
  require_secure = false;
  require_http_only_for_names = txt "session" ∷ txt "auth" ∷ txt "token" ∷ [];
  deny_name_prefixes = [];
  deny_domain_suffixes = [];
  allow_domains = [];
  maximum_lifetime_days = some 400;
  maximum_total_bytes = some 4352;
  deny_same_site_none = false;
  deny_session_cookies = false;
  deny_empty_values = false;
}

-- The vector that `evaluate` pushes to.
abbrev pub Violations : Type 0
Violations = List PolicyViolation

-- `violations.push(violation(..))`
unfoldable pub push : String → Message → RiskLevel → Violations → Violations
push rule message risk violations =
    violations ++ (record { rule = txt rule; message = message; risk = risk } ∷ [])

abbrev pub issue_risk : ValidationIssue → RiskLevel
issue_risk issue = if is_error issue then RiskLevel.high else RiskLevel.low

-- The loop over the issues of the validation.
unfoldable pub of_issues : List ValidationIssue → Violations
of_issues issues =
    map (λ issue. record { rule = issue.code; message = issue.message; risk = issue_risk issue })
      issues

unfoldable pub flag_rules : CookiePolicy → Cookie → Violations → Violations
flag_rules p c violations =
    when (p.deny_empty_values && is_empty c.value)
      (push "policy.empty" (msg "empty cookie values are denied") RiskLevel.medium)
      (when (p.deny_session_cookies && effective_session c)
        (push "policy.session" (msg "session cookies are denied") RiskLevel.medium)
        (when (p.deny_same_site_none && same_site_eq c.same_site SameSite.none_site)
          (push "policy.same_site_none" (msg "SameSite=None is denied") RiskLevel.high)
          (when (p.require_secure && not c.secure)
            (push "policy.require_secure" (msg "policy requires Secure") RiskLevel.high)
            violations)))

abbrev pub seems_sensitive : CookiePolicy → Cookie → Bool
seems_sensitive p c =
    any (λ needle. contains (to_ascii_lowercase needle) (to_ascii_lowercase c.name))
      p.require_http_only_for_names

unfoldable pub sensitive_rule : CookiePolicy → Cookie → Violations → Violations
sensitive_rule p c violations =
    when (seems_sensitive p c && not c.http_only)
      (push "policy.sensitive_http_only"
        (msg "cookie name appears sensitive but HttpOnly is disabled") RiskLevel.high)
      violations

unfoldable pub prefix_rule : Text → Violations → Text → Violations
prefix_rule name violations prefix =
    when (starts_with prefix name)
      (push "policy.name_prefix" (lit "cookie name prefix " ∷ debug prefix ∷ lit " is denied" ∷ [])
        RiskLevel.high)
      violations

abbrev pub lowered_suffix : Text → Text
lowered_suffix suffix = to_ascii_lowercase (trim_start_matches b'.' suffix)

-- The module's own `domain_matches`, and the test of the denied suffixes.
unfoldable pub domain_matches : Text → Text → Bool
domain_matches domain allowed =
    domain =? lowered_suffix allowed || ends_with (txt "." ++ lowered_suffix allowed) domain

unfoldable pub suffix_rule : Text → Violations → Text → Violations
unfolding domain_matches
suffix_rule domain violations suffix =
    when (domain_matches domain suffix)
      (push "policy.domain_suffix"
        (lit "domain suffix " ∷ debug (lowered_suffix suffix) ∷ lit " is denied" ∷ [])
        RiskLevel.critical)
      violations

abbrev pub lowered_domain : Cookie → Text
lowered_domain c = to_ascii_lowercase (normalized_domain c)

unfoldable pub domain_rules : CookiePolicy → Cookie → Violations → Violations
unfolding suffix_rule
domain_rules p c violations =
    when
      (not (is_empty p.allow_domains)
        && not (any (λ allowed. domain_matches (lowered_domain c) allowed) p.allow_domains))
      (push "policy.domain_allowlist" (msg "domain is not in the allowlist") RiskLevel.critical)
      (foldl (suffix_rule (lowered_domain c)) violations p.deny_domain_suffixes)

unfoldable pub size_rule : Option ℕ → Cookie → Violations → Violations
size_rule none c violations = violations
size_rule (some maximum) c violations =
    when (ltb maximum (estimated_bytes c))
      (push "policy.size"
        (lit "estimated cookie size "
          ∷ num (estimated_bytes c)
          ∷ lit " exceeds "
          ∷ num maximum
          ∷ [])
        RiskLevel.high)
      violations

-- Both options are there, and the expiration is too far off.
unfoldable pub lifetime_rule : Platform → ℕ → Option ℕ → Option ℕ → Violations → Violations
lifetime_rule platform now (some days) (some expiration) violations =
    when (f64_lt (platform.add_days now days) expiration)
      (push "policy.lifetime" (lit "cookie lifetime exceeds " ∷ num days ∷ lit " days" ∷ [])
        RiskLevel.medium)
      violations
lifetime_rule platform now _ _ violations = violations

-- The violations that `evaluate` collects, one rule after the other.
unfoldable pub violations_found : Platform → ℕ → CookiePolicy → Cookie → Violations
unfolding of_issues flag_rules sensitive_rule prefix_rule domain_rules size_rule lifetime_rule
violations_found platform now p c =
    lifetime_rule platform now p.maximum_lifetime_days c.expiration_date (
      size_rule p.maximum_total_bytes c (
        domain_rules p c (
          foldl (prefix_rule c.name)
            (sensitive_rule p c
              (flag_rules p c (of_issues (validate_cookie platform now c p.validation).issues)))
            p.deny_name_prefixes)))

unfoldable pub is_denied : Violations → Bool
is_denied violations = any (λ v. at_least_high v.risk) violations

unfoldable pub decide : Violations → PolicyDecision
unfolding is_denied
decide violations =
    if is_empty violations
    then PolicyDecision.allow
    else if is_denied violations
    then PolicyDecision.deny violations
    else PolicyDecision.allow_with_warnings violations

unfoldable pub evaluate : Platform → ℕ → CookiePolicy → Cookie → PolicyDecision
unfolding violations_found decide
evaluate platform now p c = decide (violations_found platform now p c)
