-- ===== src/Validation/Rules.antt =====
-- The rules, one function each. A function takes the report and returns it with its issues behind.
use Prim.Native.String.{String}
use luck_editor.Prelude.{
  ℕ, ◌+◌, List, [], ◌∷◌, Bool, true, not, ◌&&◌, ◌||◌, ◌==◌, leb, ltb, if◌then◌else◌, any, foldl,
  is_empty, is_some, Option, none, some, ◌=?◌, list_ord, nat_ord,
}
use luck_editor.Text.{
  Text, txt, len, to_ascii_lowercase, trim_start_matches, trim_end_matches, starts_with, contains,
  split,
}
use luck_editor.Text.Utf8.{as_bytes}
use luck_editor.Errors.{Message, lit, num, text, debug, msg}
use luck_editor.Float64.{is_finite, f64_le, f64_lt}
use luck_editor.Model.{Cookie, SameSite, same_site_eq, is_host_prefix, is_secure_prefix}
use luck_editor.Redact.{hex}
use luck_editor.Platform.{Platform}
use luck_editor.Validation.Report.{
  ValidationReport, ValidationConfig, push_error, push_warning, when,
}

abbrev pub is_digit : ℕ → Bool
is_digit b = leb b'0' b && leb b b'9'

abbrev pub is_letter : ℕ → Bool
is_letter b = (leb b'A' b && leb b b'Z') || (leb b'a' b && leb b b'z')

-- `is_ascii_alphanumeric`
abbrev pub is_ascii_alphanumeric : ℕ → Bool
is_ascii_alphanumeric b = is_digit b || is_letter b

unfoldable pub is_token_byte : ℕ → Bool
is_token_byte b = any (λ x. b == x) (txt "!#$%&'*+-.^_`|~") || is_ascii_alphanumeric b

abbrev pub is_control : ℕ → Bool
is_control b = ltb b 0x20 || b == 0x7f

-- `enumerate().find(..)`: the first byte that passes the test, and its offset.
unfoldable pub find_byte : (ℕ → Bool) → ℕ → List ℕ → Option (ℕ × ℕ)
find_byte p offset [] = none
find_byte p offset (b ∷ bs) = if p b then some (offset, b) else find_byte p (offset + 1) bs

-- `{byte:02x}` and the offset
abbrev pub byte_message : String → ℕ × ℕ → Message
byte_message start (offset, b) = lit start ∷ text (hex 2 b) ∷ lit " at offset " ∷ num offset ∷ []

abbrev pub too_long : String → ℕ → ℕ → Message
too_long start actual maximum =
    lit start ∷ num actual ∷ lit " bytes; maximum is " ∷ num maximum ∷ []

unfoldable pub name_byte : Option (ℕ × ℕ) → ValidationReport → ValidationReport
unfolding hex
name_byte none report = report
name_byte (some found) report =
    push_error "name.invalid_character" "name"
      (byte_message "cookie name contains forbidden byte 0x" found) report

unfoldable pub validate_name : Cookie → ValidationConfig → ValidationReport → ValidationReport
unfolding is_token_byte find_byte name_byte
validate_name c config report =
    if is_empty c.name
    then push_error "name.empty" "name" (msg "cookie name is required") report
    else name_byte (find_byte (λ b. not (is_token_byte b)) 0 (as_bytes c.name)) (
        when (ltb config.maximum_name_bytes (len c.name))
          (push_error "name.too_long" "name"
            (too_long "cookie name is " (len c.name) config.maximum_name_bytes))
          report)

unfoldable pub value_byte : Option (ℕ × ℕ) → ValidationReport → ValidationReport
unfolding hex
value_byte none report = report
value_byte (some found) report =
    push_error "value.control_character" "value"
      (byte_message "cookie value contains control byte 0x" found) report

abbrev pub is_line_break : ℕ → Bool
is_line_break c = c == 0x0d || c == 0x0a

unfoldable pub validate_value : Cookie → ValidationConfig → ValidationReport → ValidationReport
unfolding find_byte value_byte
validate_value c config report =
    when (any is_line_break c.value)
      (push_error "value.header_injection" "value" (msg "cookie value contains a line break"))
      (value_byte (find_byte is_control 0 (as_bytes c.value)) (
        when (ltb config.maximum_value_bytes (len c.value))
          (push_error "value.too_long" "value"
            (too_long "cookie value is " (len c.value) config.maximum_value_bytes))
          report))

-- The bytes of a label from an index on.
unfoldable pub label_bytes : ℕ → ℕ → List ℕ → Bool
label_bytes total index [] = true
label_bytes total index (b ∷ bs) =
    (is_ascii_alphanumeric b || (b == b'-' && ltb 0 index && ltb (index + 1) total))
    && label_bytes total (index + 1) bs

unfoldable pub validate_label : ValidationReport → Text → ValidationReport
unfolding label_bytes
validate_label report label =
    if is_empty label || ltb 63 (len label)
    then push_error "domain.label_length" "domain"
        (lit "invalid domain label length for " ∷ debug label ∷ []) report
    else when (not (label_bytes (len label) 0 (as_bytes label)))
        (push_error "domain.label_character" "domain"
          (lit "domain label " ∷ debug label ∷ lit " contains an invalid character" ∷ []))
        report

abbrev pub is_localhost : Text → Bool
is_localhost domain = to_ascii_lowercase domain =? txt "localhost"

-- The rules on a domain that is no address and not the local host.
unfoldable pub validate_host_name : Text → ValidationConfig → ValidationReport → ValidationReport
unfolding validate_label
validate_host_name domain config report =
    when
      (config.reject_public_suffix_like_domains
        && not (any (λ x. x == b'.') domain)
        && not (is_localhost domain))
      (push_warning "domain.single_label" "domain"
        (msg "single-label domains may not work outside local development"))
      (foldl validate_label
        (when (contains (txt "..") domain)
          (push_error "domain.empty_label" "domain" (msg "cookie domain contains an empty label"))
          report)
        (split b'.' domain))

abbrev pub trimmed_domain : Text → Text
trimmed_domain domain = trim_end_matches b'.' (trim_start_matches b'.' domain)

abbrev pub is_exempt : Platform → Text → Bool
is_exempt platform domain =
    platform.is_ipv4 domain || platform.is_ipv6 domain || is_localhost domain

unfoldable pub validate_domain :
    Platform → Cookie → ValidationConfig → ValidationReport → ValidationReport
unfolding validate_host_name
validate_domain platform c config report =
    let domain = trimmed_domain c.domain in
    let measured =
      when (ltb config.maximum_domain_bytes (len c.domain))
        (push_error "domain.too_long" "domain"
          (too_long "cookie domain is " (len c.domain) config.maximum_domain_bytes))
        report in
    if is_empty c.domain
    then when config.require_domain
        (push_error "domain.empty" "domain" (msg "cookie domain is required")) report
    else if is_empty domain
    then push_error "domain.invalid" "domain" (msg "cookie domain is empty after normalization")
        measured
    else if is_exempt platform domain
    then measured
    else validate_host_name domain config measured

unfoldable pub validate_path : Cookie → ValidationConfig → ValidationReport → ValidationReport
validate_path c config report =
    when (any is_control (as_bytes c.path))
      (push_error "path.control_character" "path" (msg "cookie path contains a control character"))
      (when (any (λ x. x == b';') c.path)
        (push_error "path.semicolon" "path" (msg "cookie path cannot contain ';'"))
        (when (ltb config.maximum_path_bytes (len c.path))
          (push_error "path.too_long" "path"
            (too_long "cookie path is " (len c.path) config.maximum_path_bytes))
          (when (not (starts_with (txt "/") c.path))
            (push_error "path.slash" "path" (msg "cookie path must start with '/'")) report)))

unfoldable pub validate_security_flags :
    Cookie → ValidationConfig → ValidationReport → ValidationReport
validate_security_flags c config report =
    when (is_some c.partition_site && not c.secure)
      (push_error "partitioned.not_secure" "secure" (msg "partitioned cookies must be Secure"))
      (when (c.http_only && is_empty c.value)
        (push_warning "http_only.empty" "value" (msg "HttpOnly cookie has an empty value"))
        (when
          (config.require_secure_for_none
            && same_site_eq c.same_site SameSite.none_site
            && not c.secure)
          (push_error "same_site.none_without_secure" "same_site"
            (msg "SameSite=None requires Secure"))
          report))

-- 253_402_300_799.0
abbrev pub year_9999 : ℕ
year_9999 = 0x424d_7ffa_20bf_8000

abbrev pub lifetime_warning : Platform → ℕ → ℕ → Option ℕ → ValidationReport → ValidationReport
lifetime_warning platform now expiry none report = report
lifetime_warning platform now expiry (some days) report =
    when (f64_lt (platform.add_days now days) expiry)
      (push_warning "expiration.long_lifetime" "expiration_date"
        (lit "cookie lifetime is longer than " ∷ num days ∷ lit " days" ∷ []))
      report

abbrev pub is_positive : ℕ → Bool
is_positive expiry = is_finite expiry && not (f64_le expiry 0)

-- The clock's reading is an argument.
unfoldable pub validate_expiration :
    Platform → ℕ → Cookie → ValidationConfig → ValidationReport → ValidationReport
validate_expiration platform now c config report = elim (c.expiration_date) [
  | none ↦ report
  | some expiry ↦
      if not (is_positive expiry)
      then push_error "expiration.invalid" "expiration_date"
          (msg "expiration must be a positive finite Unix timestamp") report
      else lifetime_warning platform now expiry config.warn_on_long_lifetime_days (
          when c.session
            (push_warning "expiration.session_conflict" "session"
              (msg "session is true while expiration is present"))
            (when (f64_lt year_9999 expiry)
              (push_error "expiration.range" "expiration_date" (msg "expiration exceeds year 9999"))
              report))
]

unfoldable pub validate_prefixes : Cookie → ValidationReport → ValidationReport
validate_prefixes c report =
    let host =
      when (starts_with (txt ".") c.domain || not c.host_only)
        (push_error "prefix.host.domain" "domain"
          (msg "__Host- cookie must be host-only and omit Domain"))
        (when (not (c.path =? txt "/"))
          (push_error "prefix.host.path" "path" (msg "__Host- cookie must use path '/'"))
          (when (not c.secure)
            (push_error "prefix.host.secure" "secure" (msg "__Host- cookie must be Secure"))
            report)) in
    when (is_secure_prefix c && not c.secure)
      (push_error "prefix.secure" "secure" (msg "__Secure- cookie must be Secure"))
      (if is_host_prefix c then host else report)

unfoldable pub validate_cookie : Platform → ℕ → Cookie → ValidationConfig → ValidationReport
unfolding validate_name validate_value validate_domain validate_path validate_security_flags
    validate_expiration validate_prefixes
validate_cookie platform now c config = validate_prefixes c (
    validate_expiration platform now c config (
      validate_security_flags c config (
        validate_path c config (
          validate_domain platform c config
            (validate_value c config (validate_name c config (record { issues = [] })))))))
