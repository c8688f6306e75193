-- ===== src/Engine/Pipeline.antt =====
-- What a report and a pipeline hold.
use luck_editor.Prelude.{
  ℕ, ◌+◌, [], ◌∷◌, Bool, true, false, not, ◌&&◌, ◌||◌, ◌==◌, map, filter, all, length,
  length-filter-le, Option, none, some, ◌≡◌, refl, ap, subst, arith, Bool-cases, inl, inr,
}
use luck_editor.Text.{Text}
use luck_editor.Errors.{Result, ok, err}
use luck_editor.Model.{Cookie, CookieCollection, remove_expired_at, is_expired_at}
use luck_editor.Platform.{Platform}
use luck_editor.Validation.{ValidationConfig, is_valid, validate_cookie}
use luck_editor.Validation.Conforming.{conforms}
use luck_editor.Validation.Conform.{validate_cookie-conforms}
use luck_editor.Policy.{CookiePolicy, is_allowed, evaluate}
use luck_editor.Policy.Decision.{acceptable, evaluate-is_allowed}
use luck_editor.Parsing.{ParseReport, JsonReader, parse_cookies}
use luck_editor.Engine.{
  LuckEngine, EngineReport, PipelineOptions, inspected, inspect, inspect_parsed, is_clean,
  drop_expired, drop_denied, select,
}

all-conforms :
    (platform : Platform) (now : ℕ) (config : ValidationConfig) (cs : CookieCollection)
    → all is_valid (map (λ c. validate_cookie platform now c config) cs)
      ≡ all (λ c. conforms platform c config) cs
all-conforms platform now config [] = refl
all-conforms platform now config (c ∷ cs) =
    rw (validate_cookie-conforms platform now c config)
      (ap (◌&&◌ (conforms platform c config)) (all-conforms platform now config cs))

all-acceptable :
    (platform : Platform) (now : ℕ) (p : CookiePolicy) (cs : CookieCollection)
    → all is_allowed (map (evaluate platform now p) cs) ≡ all (acceptable platform p) cs
all-acceptable platform now p [] = refl
all-acceptable platform now p (c ∷ cs) =
    rw ((evaluate-is_allowed platform now p c).0)
      (ap (◌&&◌ (acceptable platform p c)) (all-acceptable platform now p cs))

-- A report that inspect returns is clean exactly if no cookie was rejected, and every cookie of it
-- conforms to the rules of validation and is acceptable to the policy.
pub inspect-is_clean :
    (platform : Platform) (json_reader : JsonReader) (engine : LuckEngine) (now : ℕ) (input : Text)
    (report : EngineReport)
    → inspect platform json_reader engine now input ≡ some (ok report)
    → is_clean report ≡ (
        report.parse.rejected == 0
        && all (λ c. conforms platform c engine.parse_options.validation) report.parse.cookies
        && all (acceptable platform engine.policy) report.parse.cookies)
unfolding inspect is_clean
inspect-is_clean platform json_reader engine now input report h =
    go (parse_cookies platform json_reader now input engine.parse_options) h
  where
    Clean : EngineReport → Type 0
    Clean r = (r.parse.rejected == 0 && all is_valid r.validation && all is_allowed r.policy) ≡ (
        r.parse.rejected == 0
        && all (λ c. conforms platform c engine.parse_options.validation) r.parse.cookies
        && all (acceptable platform engine.policy) r.parse.cookies)

    inspected-Clean : (parsed : ParseReport) → Clean (inspected platform engine now parsed)
    inspected-Clean parsed = simp (all-conforms, all-acceptable)

    go :
        (r : Option (Result ParseReport))
        → inspect_parsed platform engine now r ≡ some (ok report)
        → Clean report
    go none h = absurd cc
    go (some (err e)) h = absurd cc
    go (some (ok parsed)) h =
        let same : inspected platform engine now parsed ≡ report = cc in
        subst Clean same (inspected-Clean parsed)

split_and : (a b : Bool) → (a && b) ≡ true → (a ≡ true) × (b ≡ true)
split_and true b h = (refl, h)
split_and false b h = absurd cc

or_true : (a : Bool) {b : Bool} → b ≡ true → ((a || true) && b) ≡ true
or_true true h = h
or_true false h = h

module _ (platform : Platform) (engine : LuckEngine) (pipeline : PipelineOptions) (now : ℕ) where
  current : Cookie → Bool
  current c = not pipeline.remove_expired || not (is_expired_at c now)

  permitted : Cookie → Bool
  permitted c = not pipeline.deny_policy_violations || acceptable platform engine.policy c

  -- A cookie that the pipeline keeps.
  unfoldable pub kept : Cookie → Bool
  unfolding current permitted
  kept c = current c && permitted c

  all-current :
      (cs : CookieCollection) → all current (filter (λ c. not (is_expired_at c now)) cs) ≡ true
  unfolding current
  all-current [] = refl
  all-current (c ∷ cs) = elim (Bool-cases (is_expired_at c now)) [
    | inl e ↦ rw e (all-current cs)
    | inr e ↦ rw e (rw e (or_true (not pipeline.remove_expired) (all-current cs)))
  ]

  all-current_off :
      pipeline.remove_expired ≡ false → (cs : CookieCollection) → all current cs ≡ true
  unfolding current
  all-current_off e [] = refl
  all-current_off e (c ∷ cs) = rw e (all-current_off e cs)

  drop_expired_lem :
      (cs : CookieCollection)
      → (all current (drop_expired pipeline now cs).collection ≡ true)
        × (length (drop_expired pipeline now cs).collection
              + (drop_expired pipeline now cs).removed_expired
              + (drop_expired pipeline now cs).removed_by_policy
            ≡ length cs)
  unfolding drop_expired remove_expired_at
  drop_expired_lem cs = elim (Bool-cases pipeline.remove_expired) [
    | inl e ↦
        simp (e)
          (all-current cs, omega (arith, length-filter-le (λ c. not (is_expired_at c now)) cs))
    | inr e ↦ simp (e) (all-current_off e cs, omega arith)
  ]

  drop_expired_none : (cs : CookieCollection) → (drop_expired pipeline now cs).removed_by_policy ≡ 0
  unfolding drop_expired
  drop_expired_none cs = elim (Bool-cases pipeline.remove_expired) [
    | inl e ↦ rw e refl
    | inr e ↦ rw e refl
  ]

  all-kept :
      (cs : CookieCollection)
      → all current cs ≡ true
      → all kept (filter (λ c. is_allowed (evaluate platform now engine.policy c)) cs) ≡ true
  unfolding kept permitted
  all-kept [] h = refl
  all-kept (c ∷ cs) h =
      let (head, tail) = split_and (current c) _ h in
      rw ((evaluate-is_allowed platform now engine.policy c).0)
        (elim (Bool-cases (acceptable platform engine.policy c)) [
          | inl e ↦
              rw e (rw (e, head) (or_true (not pipeline.deny_policy_violations) (all-kept cs tail)))
          | inr e ↦ rw e (all-kept cs tail)
        ])

  all-kept_off :
      pipeline.deny_policy_violations ≡ false
      → (cs : CookieCollection) → all current cs ≡ true
      → all kept cs ≡ true
  unfolding kept permitted
  all-kept_off e [] h = refl
  all-kept_off e (c ∷ cs) h =
      let (head, tail) = split_and (current c) _ h in rw (e, head) (all-kept_off e cs tail)

  -- The selection of the pipeline, up to the query: no cookie that is left is expired, where expired
  -- ones are to go, nor unacceptable to the policy, where denied ones are to go; and the cookies left
  -- and the two numbers of those gone add up to the cookies of the report.
  pub select_lem :
      (report : EngineReport)
      → (all kept (select platform engine pipeline now report).collection ≡ true)
        × (length (select platform engine pipeline now report).collection
              + (select platform engine pipeline now report).removed_expired
              + (select platform engine pipeline now report).removed_by_policy
            ≡ length report.parse.cookies)
  unfolding drop_denied
  select_lem report =
      let s = drop_expired pipeline now report.parse.cookies in
      let (fresh, count) = drop_expired_lem report.parse.cookies in
      elim (Bool-cases pipeline.deny_policy_violations) [
        | inl e ↦ simp (e) (
          all-kept s.collection fresh,
          omega (
            arith,
            count,
            drop_expired_none report.parse.cookies,
            length-filter-le (λ c. is_allowed (evaluate platform now engine.policy c)) s.collection,
          ),
        )
        | inr e ↦ simp (e) (all-kept_off e s.collection fresh, count)
      ]
