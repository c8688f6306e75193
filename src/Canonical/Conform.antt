-- ===== src/Canonical/Conform.antt =====
-- What the rules of the security and lifetime steps leave behind.
use luck_editor.Prelude.{
  [], ◌∷◌, Bool, true, false, not, ◌&&◌, ◌||◌, if◌then◌else◌, is_some, ◌=?◌, list_ord, nat_ord, ◌≡◌,
  refl, arith, ap, ◌∙◌, Bool-cases, inl, inr, =?_eq, =?_refl,
}
use luck_editor.Text.{Text, txt, trim_start_matches, starts_with, strip_prefix, drop_while}
use luck_editor.Model.{Cookie, SameSite, same_site_eq, is_host_prefix, is_secure_prefix}
use luck_editor.Canonical.Changes.{CanonicalizationConfig, CanonicalizationReport, empty_report}
use luck_editor.Canonical.Steps.{
  Noted, same_site_step, secure_prefix_step, host_secure_step, host_path_step, host_domain_step,
  host_prefix_step, canonicalize_name, canonicalize_domain, canonicalize_path,
  canonicalize_security, canonicalize_lifetime, canonicalize,
}

-- The rules: `SameSite=None` needs `Secure`, and so does the secure prefix; the host prefix needs
-- `Secure`, the path "/" and a domain of the host alone; a session is what has no expiration.
unfoldable pub conforms : Cookie → Bool
conforms c =
    (not (same_site_eq c.same_site SameSite.none_site) || c.secure)
    && (not (is_secure_prefix c) || c.secure)
    && (not (is_host_prefix c)
        || (c.secure && c.path =? txt "/" && c.host_only && not (starts_with (txt ".") c.domain)))
    && (if is_some c.expiration_date then not c.session else c.session)

no_dot : (t : Text) → starts_with (txt ".") (trim_start_matches b'.' t) ≡ false
unfolding starts_with strip_prefix drop_while
no_dot [] = refl
no_dot (c ∷ t) = ground (arith, no_dot t)

same_site-secure :
    (config : CanonicalizationConfig) (c : Cookie) (r : CanonicalizationReport)
    → config.secure_same_site_none ≡ true
    → (same_site_step config (c, r)).0
      ≡ record c { secure = c.secure || same_site_eq c.same_site SameSite.none_site }
unfolding same_site_step
same_site-secure config c r h = ground arith

secure_prefix-secure :
    (c : Cookie) (r : CanonicalizationReport)
    → (secure_prefix_step (c, r)).0 ≡ record c { secure = c.secure || is_secure_prefix c }
unfolding secure_prefix_step
secure_prefix-secure c r = ground arith

host_secure-secure : (n : Noted) → (host_secure_step n).0 ≡ record n.0 { secure = true }
unfolding host_secure_step
host_secure-secure (c, r) = ground arith

host_path-path : (n : Noted) → (host_path_step n).0 ≡ record n.0 { path = txt "/" }
unfolding host_path_step
host_path-path (c, r) = ground (arith, =?_eq c.path (txt "/"))

-- The domain behind the step.
bare : Cookie → Text
bare c =
    if not c.host_only || starts_with (txt ".") c.domain
    then trim_start_matches b'.' c.domain
    else c.domain

host_domain-domain :
    (n : Noted) → (host_domain_step n).0 ≡ record n.0 { domain = bare n.0; host_only = true }
unfolding host_domain_step bare
host_domain-domain (c, r) = ground arith

bare-no_dot : (c : Cookie) → starts_with (txt ".") (bare c) ≡ false
unfolding bare
bare-no_dot c = ground (arith, no_dot c.domain)

-- The cookie behind the changes for the host prefix.
abbrev hosted : Cookie → Cookie
hosted c = record c { secure = true; path = txt "/"; domain = bare c; host_only = true }

host_prefix-hosted :
    (n : Noted) → (host_prefix_step n).0 ≡ (if is_host_prefix n.0 then hosted n.0 else n.0)
unfolding host_prefix_step bare
host_prefix-hosted n = elim (Bool-cases (is_host_prefix n.0)) [
  | inl e ↦ rw e (
      host_domain-domain (host_path_step (host_secure_step n))
      ∙ ap {A = Cookie} (λ c. record c { domain = bare c; host_only = true })
          (host_path-path (host_secure_step n)
            ∙ ap {A = Cookie} (λ c. record c { path = txt "/" }) (host_secure-secure n)))
  | inr e ↦ rw e refl
]

-- The cookie that the security step starts its prefix rules with.
abbrev secured : Cookie → Cookie
secured c = record c {
  secure = (c.secure || same_site_eq c.same_site SameSite.none_site) || is_secure_prefix c;
}

security-secured :
    (config : CanonicalizationConfig) (c : Cookie) (r : CanonicalizationReport)
    → config.secure_same_site_none ≡ true
    → config.enforce_prefix_rules ≡ true
    → (canonicalize_security config (c, r)).0
      ≡ (if is_host_prefix (secured c) then hosted (secured c) else secured c)
unfolding canonicalize_security is_secure_prefix
security-secured config c r h g =
    let n = same_site_step config (c, r) in
    let e : (secure_prefix_step n).0 ≡ secured c =
      secure_prefix-secure n.0 n.1
      ∙ ap {A = Cookie} (λ d. record d { secure = d.secure || is_secure_prefix d })
          (same_site-secure config c r h) in
    rw g (
      host_prefix-hosted (secure_prefix_step n)
      ∙ ap (λ d. if is_host_prefix d then hosted d else d) e)

lifetime-session :
    (config : CanonicalizationConfig) (n : Noted)
    → config.infer_session_flag ≡ true
    → (canonicalize_lifetime config n).0
      ≡ record n.0 { session = not (is_some n.0.expiration_date) }
unfolding canonicalize_lifetime
lifetime-session config (c, r) h = ground arith

abbrev timed : Cookie → Cookie
timed c = record c { session = not (is_some c.expiration_date) }

conforms-hosted :
    (c : Cookie) → is_host_prefix c ≡ true → conforms (timed (hosted (secured c))) ≡ true
unfolding conforms is_host_prefix is_secure_prefix
conforms-hosted c h = ground (arith, bare-no_dot (secured c), =?_refl (txt "/"))

conforms-secured : (c : Cookie) → is_host_prefix c ≡ false → conforms (timed (secured c)) ≡ true
unfolding conforms is_host_prefix is_secure_prefix
conforms-secured c h = ground arith

conforms-timed :
    (c : Cookie)
    → conforms (timed (if is_host_prefix (secured c) then hosted (secured c) else secured c)) ≡ true
unfolding is_host_prefix is_secure_prefix
conforms-timed c = elim (Bool-cases (is_host_prefix c)) [
  | inl e ↦ rw e (conforms-hosted c e)
  | inr e ↦ rw e (conforms-secured c e)
]

-- With the rules for security and lifetime on, as they are by default, `canonicalize` returns a
-- cookie that conforms to them all, whatever the other settings and the cookie are.
pub canonicalize-conforms :
    (config : CanonicalizationConfig) (c : Cookie)
    → config.secure_same_site_none ≡ true
    → config.enforce_prefix_rules ≡ true
    → config.infer_session_flag ≡ true
    → conforms (canonicalize config c).0 ≡ true
unfolding canonicalize
canonicalize-conforms config c h g s =
    let n =
      canonicalize_path config
        (canonicalize_domain config (canonicalize_name config (c, empty_report))) in
    ap conforms (
      lifetime-session config (canonicalize_security config n) s
      ∙ ap timed (security-secured config n.0 n.1 h g))
    ∙ conforms-timed n.0
