-- ===== src/Policy/Decision.antt =====
-- When a policy allows a cookie, and what its decision carries.
use Prim.Native.String.{String}
use mathlib.Core.Bool.{and-true, and-false}
use luck_editor.Prelude.{
  ℕ, List, [], ◌∷◌, ◌++◌, Bool, true, false, not, ◌&&◌, ◌||◌, leb, ltb, if◌then◌else◌, any, foldl,
  is_empty, Option, none, some, ◌≡◌, refl, sym, ◌∙◌, arith,
}
use luck_editor.Text.{Text, starts_with}
use luck_editor.Errors.{Message}
use luck_editor.Model.{Cookie, SameSite, same_site_eq, estimated_bytes}
use luck_editor.Platform.{Platform}
use luck_editor.Validation.{
  ValidationIssue, is_error, is_valid, validate_cookie, when, ValidationConfig,
}
use luck_editor.Validation.Conforming.{conforms}
use luck_editor.Validation.Conform.{validate_cookie-conforms}
use luck_editor.Policy.{
  RiskLevel, at_least_high, PolicyViolation, PolicyDecision, is_allowed, violations_of,
  CookiePolicy, Violations, push, of_issues, flag_rules, seems_sensitive, sensitive_rule,
  prefix_rule, lowered_domain, domain_matches, suffix_rule, domain_rules, size_rule, lifetime_rule,
  violations_found, is_denied, decide, evaluate,
}

-- No violation is high or critical.
mild : Violations → Bool
mild violations = not (is_denied violations)

is_denied-append :
    (vs : Violations) (v : PolicyViolation)
    → not (is_denied (vs ++ (v ∷ []))) ≡ (not (is_denied vs) && not (at_least_high v.risk))
unfolding is_denied
is_denied-append [] v = ground arith
is_denied-append (w ∷ vs) v = ground (arith, is_denied-append vs v)

mild-when-push :
    (b : Bool) (rule : String) (message : Message) (risk : RiskLevel) (vs : Violations)
    → mild (when b (push rule message risk) vs) ≡ (mild vs && not (b && at_least_high risk))
unfolding mild when push
mild-when-push true rule message risk vs = is_denied-append vs _
mild-when-push false rule message risk vs = sym (and-true _)

at_least_high-if : (b : Bool) → at_least_high (if b then RiskLevel.high else RiskLevel.low) ≡ b
at_least_high-if true = refl
at_least_high-if false = refl

or_rest : (a b d : Bool) → not b ≡ not d → not (a || b) ≡ not (a || d)
or_rest true b d h = refl
or_rest false b d h = h

mild-of_issues :
    (issues : List ValidationIssue) → mild (of_issues issues) ≡ not (any is_error issues)
unfolding mild is_denied of_issues
mild-of_issues [] = refl
mild-of_issues (i ∷ is) =
    rw (at_least_high-if (is_error i)) (or_rest (is_error i) _ _ (mild-of_issues is))

mild-validation :
    (platform : Platform) (now : ℕ) (c : Cookie) (config : ValidationConfig)
    → mild (of_issues (validate_cookie platform now c config).issues) ≡ conforms platform c config
unfolding is_valid
mild-validation platform now c config =
    mild-of_issues (validate_cookie platform now c config).issues
    ∙ validate_cookie-conforms platform now c config

neither : (a b : Bool) → not (not a && not b) ≡ (a || b)
neither a b = ground arith

not_or : (a b c : Bool) → (a && not b && not c) ≡ (a && not (b || c))
not_or a b c = ground arith

mild-prefix_rules :
    (name : Text) (prefixes : List Text) (vs : Violations)
    → mild (foldl (prefix_rule name) vs prefixes)
      ≡ (mild vs && not (any (λ prefix. starts_with prefix name) prefixes))
unfolding prefix_rule
mild-prefix_rules name [] vs = sym (and-true _)
mild-prefix_rules name (x ∷ xs) vs =
    mild-prefix_rules name xs _ ∙ simp (mild-when-push, and-true, not_or)

mild-suffix_rules :
    (domain : Text) (suffixes : List Text) (vs : Violations)
    → mild (foldl (suffix_rule domain) vs suffixes)
      ≡ (mild vs && not (any (λ suffix. domain_matches domain suffix) suffixes))
unfolding suffix_rule
mild-suffix_rules domain [] vs = sym (and-true _)
mild-suffix_rules domain (x ∷ xs) vs =
    mild-suffix_rules domain xs _ ∙ simp (mild-when-push, and-true, not_or)

abbrev pub fits : Option ℕ → Cookie → Bool
fits none c = true
fits (some maximum) c = leb (estimated_bytes c) maximum

not_ltb : (a b : ℕ) → not (ltb b a) ≡ leb a b
not_ltb a b = ground arith

mild-size_rule :
    (limit : Option ℕ) (c : Cookie) (vs : Violations)
    → mild (size_rule limit c vs) ≡ (mild vs && fits limit c)
unfolding size_rule
mild-size_rule none c vs = sym (and-true _)
mild-size_rule (some maximum) c vs = simp (mild-when-push, and-true, not_ltb)

-- A long lifetime is a medium risk.
mild-lifetime_rule :
    (platform : Platform) (now : ℕ) (days expiration : Option ℕ) (vs : Violations)
    → mild (lifetime_rule platform now days expiration vs) ≡ mild vs
unfolding lifetime_rule
mild-lifetime_rule platform now none expiration vs = refl
mild-lifetime_rule platform now (some days) none vs = refl
mild-lifetime_rule platform now (some days) (some expiration) vs =
    simp (mild-when-push, and-true, and-false)

-- What a cookie needs to be allowed.
unfoldable pub acceptable : Platform → CookiePolicy → Cookie → Bool
acceptable platform p c =
    conforms platform c p.validation
    && not (p.require_secure && not c.secure)
    && not (p.deny_same_site_none && same_site_eq c.same_site SameSite.none_site)
    && not (seems_sensitive p c && not c.http_only)
    && not (any (λ prefix. starts_with prefix c.name) p.deny_name_prefixes)
    && not (any (λ suffix. domain_matches (lowered_domain c) suffix) p.deny_domain_suffixes)
    && (is_empty p.allow_domains
        || any (λ allowed. domain_matches (lowered_domain c) allowed) p.allow_domains)
    && fits p.maximum_total_bytes c

mild-violations_found :
    (platform : Platform) (now : ℕ) (p : CookiePolicy) (c : Cookie)
    → mild (violations_found platform now p c) ≡ acceptable platform p c
unfolding violations_found flag_rules sensitive_rule domain_rules acceptable
mild-violations_found platform now p c = simp (
  mild-lifetime_rule, mild-size_rule, mild-prefix_rules, mild-suffix_rules, mild-when-push,
  mild-validation, neither, and-true, and-false,
)

is_allowed-decide : (vs : Violations) → is_allowed (decide vs) ≡ mild vs
unfolding is_allowed decide mild is_denied
is_allowed-decide [] = refl
is_allowed-decide (v ∷ vs) = go (is_denied (v ∷ vs))
  where
    go :
        (b : Bool)
        → is_allowed (
            if b then PolicyDecision.deny (v ∷ vs) else PolicyDecision.allow_with_warnings (v ∷ vs))
          ≡ not b
    go true = refl
    go false = refl

violations_of-decide : (vs : Violations) → violations_of (decide vs) ≡ vs
unfolding violations_of decide is_denied
violations_of-decide [] = refl
violations_of-decide (v ∷ vs) = go (is_denied (v ∷ vs))
  where
    go :
        (b : Bool)
        → violations_of (
            if b then PolicyDecision.deny (v ∷ vs) else PolicyDecision.allow_with_warnings (v ∷ vs))
          ≡ v ∷ vs
    go true = refl
    go false = refl

-- A policy allows a cookie exactly if the cookie conforms to the rules of validation and breaks no
-- high or critical rule: secure and same-site as required, HttpOnly where its name seems sensitive,
-- no denied prefix or suffix, a listed domain where there is a list, and within the size. Session,
-- empty-value and lifetime rules never deny. The decision carries all the violations found.
pub evaluate-is_allowed :
    (platform : Platform) (now : ℕ) (p : CookiePolicy) (c : Cookie)
    → (is_allowed (evaluate platform now p c) ≡ acceptable platform p c)
      × (violations_of (evaluate platform now p c) ≡ violations_found platform now p c)
unfolding evaluate
evaluate-is_allowed platform now p c = (
  is_allowed-decide (violations_found platform now p c) ∙ mild-violations_found platform now p c,
  violations_of-decide (violations_found platform now p c),
)
