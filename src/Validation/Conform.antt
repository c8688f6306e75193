-- ===== src/Validation/Conform.antt =====
-- The agreement of the report with the rules as one test.
use luck_editor.Prelude.{
  ℕ, List, [], ◌∷◌, Bool, true, false, not, ◌&&◌, ◌||◌, leb, ltb, if◌then◌else◌, any, all, foldl,
  is_empty, is_some, Option, none, some, ◌≡◌, refl, sym, ◌∙◌, arith, Bool-cases, inl, inr, list_ord,
  nat_ord, Option-cases,
}
use mathlib.Core.Bool.{and_assoc, and-true, and-false, not-not}
use luck_editor.Text.{Text, txt, contains, split}
use luck_editor.Text.Utf8.{as_bytes}
use luck_editor.Model.{Cookie, SameSite, same_site_eq, is_host_prefix, is_secure_prefix}
use luck_editor.Platform.{Platform}
use luck_editor.Validation.{
  ValidationReport, ValidationConfig, is_valid, is_line_break, name_byte, value_byte, is_positive,
  lifetime_warning, validate_name, validate_value, validate_label, validate_host_name,
  validate_domain, validate_path, validate_security_flags, validate_expiration, validate_prefixes,
  validate_cookie,
}
use luck_editor.Validation.Spec.{
  is_printable, is_label, all-is_token_byte, all-is_control, label_bytes-as_bytes,
  is_positive-is_time,
}
use luck_editor.Validation.Equations.{
  is_valid-push_error, is_valid-when_error, is_valid-when_warning, find_byte-all,
  line_break-control, contains-split,
}
use luck_editor.Validation.Conforming.{
  name_conforms, value_conforms, domain_conforms, path_conforms, crosses_sites, flags_conform,
  expiration_conforms, prefix_conforms, conforms,
}

not_ltb : (a b : ℕ) → not (ltb b a) ≡ leb a b
not_ltb a b = ground arith

not_any : (p : ℕ → Bool) (bs : List ℕ) → not (any p bs) ≡ all (λ b. not (p b)) bs
not_any p [] = refl
not_any p (b ∷ bs) = ground (arith, not_any p bs)

validate_path_lem :
    (c : Cookie) (config : ValidationConfig) (r : ValidationReport)
    → is_valid (validate_path c config r) ≡ (is_valid r && path_conforms c config)
unfolding validate_path
validate_path_lem c config r =
    simp (is_valid-when_error, not_ltb, not_any, all-is_control, and_assoc, not-not)

name_byte_lem :
    (o : Option (ℕ × ℕ)) (r : ValidationReport)
    → is_valid (name_byte o r) ≡ (is_valid r && not (is_some o))
unfolding name_byte
name_byte_lem none r = sym (and-true (is_valid r))
name_byte_lem (some found) r = simp (is_valid-push_error, and-false)

value_byte_lem :
    (o : Option (ℕ × ℕ)) (r : ValidationReport)
    → is_valid (value_byte o r) ≡ (is_valid r && not (is_some o))
unfolding value_byte
value_byte_lem none r = sym (and-true (is_valid r))
value_byte_lem (some found) r = simp (is_valid-push_error, and-false)

validate_name_lem :
    (c : Cookie) (config : ValidationConfig) (r : ValidationReport)
    → is_valid (validate_name c config r) ≡ (is_valid r && name_conforms c config)
unfolding validate_name
validate_name_lem c config r = elim (Bool-cases (is_empty c.name)) [
  | inl e ↦ rw e (simp (is_valid-push_error, and-false))
  | inr e ↦ rw e (
      simp (
        name_byte_lem, find_byte-all, not-not, all-is_token_byte, is_valid-when_error, not_ltb,
        and_assoc,
      ))
]

-- The line breaks among the control characters.
value_lem :
    (v : Text)
    → (all is_printable (as_bytes v) && not (any is_line_break v)) ≡ all is_printable (as_bytes v)
value_lem v = elim (Bool-cases (any is_line_break v)) [
  | inl e ↦ rw (← all-is_control (as_bytes v), line_break-control v e) refl
  | inr e ↦ rw e (and-true (all is_printable (as_bytes v)))
]

validate_value_lem :
    (c : Cookie) (config : ValidationConfig) (r : ValidationReport)
    → is_valid (validate_value c config r) ≡ (is_valid r && value_conforms c config)
unfolding validate_value
validate_value_lem c config r = simp (
  is_valid-when_error, value_byte_lem, find_byte-all, not_ltb, value_lem, all-is_control, and_assoc,
)

flags_rules :
    (r s n q p : Bool)
    → (r && not (q && n && not s) && not (p && not s)) ≡ (r && (s || (not (q && n) && not p)))
flags_rules r s n q p = ground arith

same_site_eq-crosses_sites : (s : SameSite) → same_site_eq s SameSite.none_site ≡ crosses_sites s
same_site_eq-crosses_sites s = ground arith

validate_security_flags_lem :
    (c : Cookie) (config : ValidationConfig) (r : ValidationReport)
    → is_valid (validate_security_flags c config r) ≡ (is_valid r && flags_conform c config)
unfolding validate_security_flags
validate_security_flags_lem c config r =
    simp (is_valid-when_error, is_valid-when_warning, flags_rules, same_site_eq-crosses_sites)

lifetime_lem :
    (platform : Platform) (now expiry : ℕ) (days : Option ℕ) (r : ValidationReport)
    → is_valid (lifetime_warning platform now expiry days r) ≡ is_valid r
lifetime_lem platform now expiry none r = refl
lifetime_lem platform now expiry (some days) r = simp (is_valid-when_warning)

validate_expiration_lem :
    (platform : Platform) (now : ℕ) (c : Cookie) (config : ValidationConfig) (r : ValidationReport)
    → is_valid (validate_expiration platform now c config r)
      ≡ (is_valid r && expiration_conforms c.expiration_date)
unfolding validate_expiration
validate_expiration_lem platform now c config r = elim (Option-cases c.expiration_date) [
  | inl e ↦ rw e (sym (and-true (is_valid r)))
  | inr (expiry, e) ↦
      rw (e, ← is_positive-is_time expiry)
        (elim (Bool-cases (is_positive expiry)) [
          | inl p ↦ rw p (simp (lifetime_lem, is_valid-when_warning, is_valid-when_error))
          | inr p ↦ rw p (simp (is_valid-push_error, and-false))
        ])
]

prefix_rules :
    (r h s p d o w : Bool)
    → ((if h then r && not (not s) && not (not p) && not (d || not o) else r) && not (w && not s))
      ≡ (r && ((not h || (s && p && not d && o)) && (not w || s)))
prefix_rules r true s p d o w = ground arith
prefix_rules r false s p d o w = ground arith

if_valid :
    (b : Bool) (x y : ValidationReport)
    → is_valid (if b then x else y) ≡ (if b then is_valid x else is_valid y)
if_valid true x y = refl
if_valid false x y = refl

validate_prefixes_lem :
    (c : Cookie) (r : ValidationReport)
    → is_valid (validate_prefixes c r) ≡ (is_valid r && prefix_conforms c)
unfolding validate_prefixes is_host_prefix is_secure_prefix
validate_prefixes_lem c r = simp (is_valid-when_error, if_valid, prefix_rules)

label_rules :
    (r e b : Bool) (n : ℕ)
    → (if e || ltb 63 n then false else (r && b)) ≡ (r && (not e && leb n 63 && b))
label_rules r true b n = ground arith
label_rules r false b n = ground arith

validate_label_lem :
    (label : Text) (r : ValidationReport)
    → is_valid (validate_label r label) ≡ (is_valid r && is_label label)
unfolding validate_label is_label
validate_label_lem label r =
    simp (
      if_valid, is_valid-push_error, is_valid-when_error, not-not, label_bytes-as_bytes,
      label_rules,
    )

labels_lem :
    (labels : List Text) (r : ValidationReport)
    → is_valid (foldl validate_label r labels) ≡ (is_valid r && all is_label labels)
labels_lem [] r = sym (and-true (is_valid r))
labels_lem (l ∷ ls) r = labels_lem ls (validate_label r l) ∙ simp (validate_label_lem, and_assoc)

host_name_rules :
    (domain : Text) (r : Bool)
    → (r && not (contains (txt "..") domain) && all is_label (split b'.' domain))
      ≡ (r && all is_label (split b'.' domain))
unfolding split is_label
host_name_rules domain r = elim (Bool-cases (contains (txt "..") domain)) [
  | inl e ↦ rw (contains-split is_label domain refl e) (simp (and-false))
  | inr e ↦ rw e (simp (and-true))
]

validate_host_name_lem :
    (domain : Text) (config : ValidationConfig) (r : ValidationReport)
    → is_valid (validate_host_name domain config r)
      ≡ (is_valid r && all is_label (split b'.' domain))
unfolding validate_host_name
validate_host_name_lem domain config r =
    simp (is_valid-when_warning, labels_lem, is_valid-when_error, host_name_rules)

domain_rules :
    (r e q l t x a : Bool)
    → (if e then r && q else if t then false else if x then (r && l) else (r && l && a))
      ≡ (r && (if e then q else (l && (not t && (x || a)))))
domain_rules r true q l t x a = refl
domain_rules r false q l true x a = ground arith
domain_rules r false q l false true a = ground arith
domain_rules r false q l false false a = ground arith

validate_domain_lem :
    (platform : Platform) (c : Cookie) (config : ValidationConfig) (r : ValidationReport)
    → is_valid (validate_domain platform c config r)
      ≡ (is_valid r && domain_conforms platform c config)
unfolding validate_domain
validate_domain_lem platform c config r = simp (
  if_valid, is_valid-push_error, is_valid-when_error, validate_host_name_lem, not_ltb, domain_rules,
)

-- The report of a cookie has no error exactly if the cookie passes the one test: a name that is a
-- token of visible ASCII without separators, a value and a path without control characters, a domain
-- that is an address, the local host or of labels of letters, digits and inner dashes, lengths within
-- the configured maxima, the rules on Secure, an expiration above 0 and up to the year 9999, and the
-- prefix rules. The rules on line breaks and on two dots in a row add nothing, and a warning changes
-- nothing.
pub validate_cookie-conforms :
    (platform : Platform) (now : ℕ) (c : Cookie) (config : ValidationConfig)
    → is_valid (validate_cookie platform now c config) ≡ conforms platform c config
unfolding validate_cookie conforms is_valid
validate_cookie-conforms platform now c config = simp (
  validate_prefixes_lem, validate_expiration_lem, validate_security_flags_lem, validate_path_lem,
  validate_domain_lem, validate_value_lem, validate_name_lem,
)
