-- ===== src/Validation/Report.antt =====
-- Issues, reports and the configuration.
use Prim.Native.String.{String}
use luck_editor.Prelude.{
  ℕ, List, [], ◌∷◌, ◌++◌, Bool, true, false, not, if◌then◌else◌, any, filter, Option, some,
}
use luck_editor.Text.{Text, txt}
use luck_editor.Errors.{Message}

pub data IssueSeverity : Type 0 where
  warning error : IssueSeverity

pub record ValidationIssue : Type 0 where
  pub code : Text
  pub message : Message
  pub field : Text
  pub severity : IssueSeverity

pub record ValidationReport : Type 0 where
  pub issues : List ValidationIssue

abbrev pub is_error : ValidationIssue → Bool
is_error issue = elim (issue.severity) [ warning ↦ false | error ↦ true ]

unfoldable pub is_valid : ValidationReport → Bool
is_valid report = not (any is_error report.issues)

abbrev pub errors : ValidationReport → List ValidationIssue
errors report = filter is_error report.issues

abbrev pub warnings : ValidationReport → List ValidationIssue
warnings report = filter (λ issue. not (is_error issue)) report.issues

unfoldable pub push :
    IssueSeverity → String → String → Message → ValidationReport → ValidationReport
push severity code field message report = record {
  issues =
      report.issues
      ++ (record { code = txt code; message = message; field = txt field; severity = severity }
          ∷ []);
}

-- `ValidationReport::error` and `warning`
unfoldable pub push_error : String → String → Message → ValidationReport → ValidationReport
unfolding push
push_error = push IssueSeverity.error

unfoldable pub push_warning : String → String → Message → ValidationReport → ValidationReport
unfolding push
push_warning = push IssueSeverity.warning

-- An `if` without an else.
unfoldable pub when {ℓ} : {A : Type ℓ} → Bool → (A → A) → A → A
when b f a = if b then f a else a

pub record ValidationConfig : Type 0 where
  pub maximum_name_bytes : ℕ
  pub maximum_value_bytes : ℕ
  pub maximum_domain_bytes : ℕ
  pub maximum_path_bytes : ℕ
  pub require_domain : Bool
  pub require_secure_for_none : Bool
  pub reject_public_suffix_like_domains : Bool
  pub warn_on_long_lifetime_days : Option ℕ

abbrev pub default_config : ValidationConfig
default_config = record {
  maximum_name_bytes = 256;
  maximum_value_bytes = 4096;
  maximum_domain_bytes = 253;
  maximum_path_bytes = 1024;
  require_domain = true;
  require_secure_for_none = true;
  reject_public_suffix_like_domains = true;
  warn_on_long_lifetime_days = some 400;
}
