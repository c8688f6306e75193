-- ===== src/Canonical/Changes.antt =====
-- The configuration, the changes in their order, and the report.
use luck_editor.Prelude.{
  ℕ, List, [], ◌∷◌, ◌++◌, unwrap_or, get_elem?, Bool, true, not, is_empty, Ord, compare,
  compare_refl, compare-eq, compare-gt, compare-lt, compare_trans, ◌≡◌, refl, sym, ap, ◌∙◌,
}
use luck_editor.OrdMap.{OrdSet, add, extend, keys}
use luck_editor.Text.{Text}

pub record CanonicalizationConfig : Type 0 where
  pub lowercase_domains : Bool
  pub remove_trailing_domain_dot : Bool
  pub normalize_paths : Bool
  pub secure_same_site_none : Bool
  pub enforce_prefix_rules : Bool
  pub infer_session_flag : Bool
  pub trim_names : Bool
  pub trim_domains : Bool
  pub maximum_path_segments : ℕ

abbrev pub default_config : CanonicalizationConfig
default_config = record {
  lowercase_domains = true;
  remove_trailing_domain_dot = true;
  normalize_paths = true;
  secure_same_site_none = true;
  enforce_prefix_rules = true;
  infer_session_flag = true;
  trim_names = true;
  trim_domains = true;
  maximum_path_segments = 256;
}

pub data CanonicalizationChange : Type 0 where
  trimmed_name trimmed_domain lowercased_domain : CanonicalizationChange
  removed_trailing_domain_dot normalized_path : CanonicalizationChange
  enabled_secure_for_same_site_none enabled_secure_for_secure_prefix : CanonicalizationChange
  enabled_secure_for_host_prefix set_host_prefix_path : CanonicalizationChange
  set_host_only_for_host_prefix inferred_session inferred_persistent : CanonicalizationChange

-- The place of the constructor in the declaration, by which the derived order compares.
abbrev pub rank : CanonicalizationChange → ℕ
rank CanonicalizationChange.trimmed_name = 0
rank CanonicalizationChange.trimmed_domain = 1
rank CanonicalizationChange.lowercased_domain = 2
rank CanonicalizationChange.removed_trailing_domain_dot = 3
rank CanonicalizationChange.normalized_path = 4
rank CanonicalizationChange.enabled_secure_for_same_site_none = 5
rank CanonicalizationChange.enabled_secure_for_secure_prefix = 6
rank CanonicalizationChange.enabled_secure_for_host_prefix = 7
rank CanonicalizationChange.set_host_prefix_path = 8
rank CanonicalizationChange.set_host_only_for_host_prefix = 9
rank CanonicalizationChange.inferred_session = 10
rank CanonicalizationChange.inferred_persistent = 11

abbrev at_rank : ℕ → CanonicalizationChange
at_rank n = unwrap_or (get_elem? all_changes n) CanonicalizationChange.inferred_persistent
  where
    all_changes : List CanonicalizationChange
    all_changes =
        CanonicalizationChange.trimmed_name ∷ CanonicalizationChange.trimmed_domain
        ∷ CanonicalizationChange.lowercased_domain
        ∷ CanonicalizationChange.removed_trailing_domain_dot
        ∷ CanonicalizationChange.normalized_path
        ∷ CanonicalizationChange.enabled_secure_for_same_site_none
        ∷ CanonicalizationChange.enabled_secure_for_secure_prefix
        ∷ CanonicalizationChange.enabled_secure_for_host_prefix
        ∷ CanonicalizationChange.set_host_prefix_path
        ∷ CanonicalizationChange.set_host_only_for_host_prefix
        ∷ CanonicalizationChange.inferred_session ∷ CanonicalizationChange.inferred_persistent ∷ []

at_rank-rank : (c : CanonicalizationChange) → at_rank (rank c) ≡ c
at_rank-rank CanonicalizationChange.trimmed_name = refl
at_rank-rank CanonicalizationChange.trimmed_domain = refl
at_rank-rank CanonicalizationChange.lowercased_domain = refl
at_rank-rank CanonicalizationChange.removed_trailing_domain_dot = refl
at_rank-rank CanonicalizationChange.normalized_path = refl
at_rank-rank CanonicalizationChange.enabled_secure_for_same_site_none = refl
at_rank-rank CanonicalizationChange.enabled_secure_for_secure_prefix = refl
at_rank-rank CanonicalizationChange.enabled_secure_for_host_prefix = refl
at_rank-rank CanonicalizationChange.set_host_prefix_path = refl
at_rank-rank CanonicalizationChange.set_host_only_for_host_prefix = refl
at_rank-rank CanonicalizationChange.inferred_session = refl
at_rank-rank CanonicalizationChange.inferred_persistent = refl

pub rank_injective : (a b : CanonicalizationChange) → rank a ≡ rank b → a ≡ b
rank_injective a b h = sym (at_rank-rank a) ∙ (ap at_rank h ∙ at_rank-rank b)

instance abbrev pub change_ord : Ord CanonicalizationChange
change_ord = record {
  cmp = λ a b. compare (rank a) (rank b);
  cmp_refl = λ a. compare_refl (rank a);
  cmp_eq = λ a b h. rank_injective a b (compare-eq (rank a) (rank b) h);
  cmp_gt = λ a b. compare-gt (rank a) (rank b);
  cmp_lt = λ a b. compare-lt (rank a) (rank b);
  cmp_trans = λ a b c. compare_trans (rank a) (rank b) (rank c);
}

pub record CanonicalizationReport : Type 0 where
  pub changes : OrdSet CanonicalizationChange
  pub warnings : List Text

abbrev pub empty_report : CanonicalizationReport
empty_report = record { changes = []; warnings = [] }

unfoldable pub changed : CanonicalizationReport → Bool
changed r = not (is_empty r.changes)

unfoldable pub merge : CanonicalizationReport → CanonicalizationReport → CanonicalizationReport
merge r other = record {
  changes = extend r.changes (keys other.changes);
  warnings = r.warnings ++ other.warnings;
}

-- `report.changes.insert`
abbrev pub note : CanonicalizationChange → CanonicalizationReport → CanonicalizationReport
note c r = record r { changes = add c r.changes }
