-- ===== src/Engine.antt =====
-- rust/crates/luck-core/src/engine.rs: `LuckEngine`, the pipeline over the other parts.
-- One reading of the clock serves a whole call; none is a panic.
pub mod Pipeline
use luck_editor.Prelude.{
  ℕ, ◌+◌, ◌-◌, List, [], ◌∷◌, Bool, true, false, not, ◌&&◌, ◌==◌, if◌then◌else◌, map, filter, all,
  length, Option, none, some,
}
use luck_editor.Text.{Text}
use luck_editor.Errors.{Result, ok, err}
use luck_editor.Model.{Cookie, CookieCollection, remove_expired_at}
use luck_editor.Platform.{Platform}
use luck_editor.Canonical.Changes
use luck_editor.Canonical.Changes.{CanonicalizationConfig}
use luck_editor.Canonical.Steps.{CollectionCanonicalizationReport, canonicalize_collection}
use luck_editor.Validation.{ValidationReport, is_valid, warnings, validate_cookie}
use luck_editor.Policy.{CookiePolicy, PolicyDecision, is_allowed, evaluate, default_policy}
use luck_editor.Redact.{Redactor, redact_collection, default_redactor}
use luck_editor.Query.{CookieQuery, parse, execute}
use luck_editor.DomainIndex.{DomainIndex, build}
use luck_editor.Statistics.{CookieStatistics, compute}
use luck_editor.Parsing.{ParseReport, ParseOptions, JsonReader, parse_cookies, default_options}
use luck_editor.Serializing.{JsonWriter, SerializeOptions, serialize_cookies}

pub record LuckEngine : Type 0 where
  pub parse_options : ParseOptions
  pub canonicalizer : CanonicalizationConfig
  pub policy : CookiePolicy
  pub redactor : Redactor

abbrev pub default_engine : LuckEngine
default_engine = record {
  parse_options = default_options;
  canonicalizer = Changes.default_config;
  policy = default_policy;
  redactor = default_redactor;
}

pub record EngineReport : Type 0 where
  pub parse : ParseReport
  pub canonicalization : CollectionCanonicalizationReport
  pub validation : List ValidationReport
  pub policy : List PolicyDecision
  pub statistics : CookieStatistics
  pub index : DomainIndex

unfoldable pub valid_count : EngineReport → ℕ
valid_count report = length (filter is_valid report.validation)

unfoldable pub denied_count : EngineReport → ℕ
denied_count report = length (filter (λ decision. not (is_allowed decision)) report.policy)

unfoldable pub sum : List ℕ → ℕ
sum [] = 0
sum (n ∷ ns) = n + sum ns

unfoldable pub warning_count : EngineReport → ℕ
unfolding sum
warning_count report =
    sum (map (λ r. length (warnings r)) report.validation) + length report.parse.warnings

unfoldable pub is_clean : EngineReport → Bool
is_clean report =
    report.parse.rejected == 0 && all is_valid report.validation && all is_allowed report.policy

pub record PipelineOptions : Type 0 where
  pub apply_query : Option Text
  pub redact_values : Bool
  pub remove_expired : Bool
  pub deny_policy_violations : Bool

abbrev pub default_pipeline : PipelineOptions
default_pipeline = record {
  apply_query = none;
  redact_values = false;
  remove_expired = true;
  deny_policy_violations = false;
}

pub record PipelineOutput : Type 0 where
  pub report : EngineReport
  pub collection : CookieCollection
  pub serialized : Text
  pub removed_expired : ℕ
  pub removed_by_policy : ℕ

-- The report on the cookies that were parsed, behind the canonicalizer.
abbrev pub inspected : Platform → LuckEngine → ℕ → ParseReport → EngineReport
inspected platform engine now parsed =
    let (cookies, canonicalization) = canonicalize_collection engine.canonicalizer parsed.cookies in
    record {
      parse = record parsed { cookies = cookies };
      canonicalization = canonicalization;
      validation =
          map (λ c. validate_cookie platform now c engine.parse_options.validation) cookies;
      policy = map (evaluate platform now engine.policy) cookies;
      statistics = compute platform.floats now cookies;
      index = build cookies;
    }

abbrev pub inspect_parsed :
    Platform → LuckEngine → ℕ → Option (Result ParseReport) → Option (Result EngineReport)
inspect_parsed platform engine now none = none
inspect_parsed platform engine now (some (err e)) = some (err e)
inspect_parsed platform engine now (some (ok parsed)) =
    some (ok (inspected platform engine now parsed))

unfoldable pub inspect :
    Platform → JsonReader → LuckEngine → ℕ → Text → Option (Result EngineReport)
inspect platform json_reader engine now input =
    inspect_parsed platform engine now
      (parse_cookies platform json_reader now input engine.parse_options)

-- The cookies that are left, and how many went.
pub record Selection : Type 0 where
  pub collection : CookieCollection
  pub removed_expired : ℕ
  pub removed_by_policy : ℕ

unfoldable pub drop_expired : PipelineOptions → ℕ → CookieCollection → Selection
drop_expired pipeline now cs =
    if pipeline.remove_expired
    then record {
      collection = (remove_expired_at cs now).1;
      removed_expired = (remove_expired_at cs now).0;
      removed_by_policy = 0;
    }
    else record { collection = cs; removed_expired = 0; removed_by_policy = 0 }

unfoldable pub drop_denied : Platform → LuckEngine → PipelineOptions → ℕ → Selection → Selection
drop_denied platform engine pipeline now s =
    let kept = filter (λ c. is_allowed (evaluate platform now engine.policy c)) s.collection in
    if pipeline.deny_policy_violations
    then record s { collection = kept; removed_by_policy = length s.collection - length kept }
    else s

abbrev pub run_query : ℕ → CookieCollection → Result CookieQuery → Result CookieCollection
run_query now cs (ok q) = ok (execute now q cs)
run_query now cs (err e) = err e

unfoldable pub apply_query : Option Text → ℕ → CookieCollection → Result CookieCollection
apply_query none now cs = ok cs
apply_query (some query_text) now cs = run_query now cs (parse query_text)

abbrev pub redacted : LuckEngine → PipelineOptions → CookieCollection → CookieCollection
redacted engine pipeline cs =
    if pipeline.redact_values then redact_collection engine.redactor cs else cs

-- The cookies of the report that the pipeline goes on with, up to the query.
abbrev pub select : Platform → LuckEngine → PipelineOptions → ℕ → EngineReport → Selection
select platform engine pipeline now report =
    drop_denied platform engine pipeline now (drop_expired pipeline now report.parse.cookies)

abbrev pub written :
    EngineReport → Selection → CookieCollection → Result Text → Result PipelineOutput
written report s cs (err e) = err e
written report s cs (ok serialized) = ok (record {
  report = report;
  collection = cs;
  serialized = serialized;
  removed_expired = s.removed_expired;
  removed_by_policy = s.removed_by_policy;
})

abbrev pub finished :
    Platform
    → JsonWriter
    → LuckEngine
    → PipelineOptions
    → SerializeOptions
    → ℕ
    → EngineReport
    → Selection
    → Result CookieCollection
    → Result PipelineOutput
finished platform json_writer engine pipeline options now report s (err e) = err e
finished platform json_writer engine pipeline options now report s (ok cs) =
    written report s (redacted engine pipeline cs)
      (serialize_cookies platform json_writer now (redacted engine pipeline cs) options)

abbrev pub run_inspected :
    Platform
    → JsonWriter
    → LuckEngine
    → PipelineOptions
    → SerializeOptions
    → ℕ
    → Option (Result EngineReport)
    → Option (Result PipelineOutput)
run_inspected platform json_writer engine pipeline options now none = none
run_inspected platform json_writer engine pipeline options now (some (err e)) = some (err e)
run_inspected platform json_writer engine pipeline options now (some (ok report)) =
    let s = select platform engine pipeline now report in
    some (
      finished platform json_writer engine pipeline options now report s
        (apply_query pipeline.apply_query now s.collection))

unfoldable pub run_pipeline :
    Platform
    → JsonReader
    → JsonWriter
    → LuckEngine
    → ℕ
    → Text
    → PipelineOptions
    → SerializeOptions
    → Option (Result PipelineOutput)
unfolding inspect drop_expired drop_denied apply_query
run_pipeline platform json_reader json_writer engine now input pipeline options =
    run_inspected platform json_writer engine pipeline options now
      (inspect platform json_reader engine now input)
