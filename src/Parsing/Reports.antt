-- ===== src/Parsing/Reports.antt =====
-- What a report of the parser holds.
use luck_editor.Prelude.{
  ℕ, ◌+◌, ◌≤◌, [], ◌∷◌, ◌++◌, Bool, true, false, not, ◌&&◌, ◌||◌, ltb, if◌then◌else◌, is_empty,
  reverse, all, Option, none, some, length, ◌≡◌, refl, ap, subst, arith, Bool-cases, inl, inr,
  le→ltb_false, ltb_false→le,
}
use luck_editor.Text.{Text, trim, len}
use luck_editor.Errors.{Result, ok, err, LuckError}
use luck_editor.OrdMap.{OrdSet, add}
use luck_editor.Model.{
  Cookie, CookieKey, CookieCollection, key, key_ord, retain_unseen, deduplicate_last_wins,
}
use luck_editor.Model.Dedup.{deduplicate_last_wins_lem}
use mathlib.Core.List.{reverse-cons}
use luck_editor.Platform.{Platform}
use luck_editor.Validation.Conforming.{conforms}
use luck_editor.Validation.Conform.{validate_cookie-conforms}
use luck_editor.Parsing.{
  ParseReport, ParseOptions, Parsed, JsonReader, InputFormat, accept, deduplicated, report_of,
  full_report, reported, resolve, read_format, parse_cookies,
}

all-append :
    (p : Cookie → Bool) (xs ys : CookieCollection) → all p (xs ++ ys) ≡ (all p xs && all p ys)
all-append p [] ys = refl
all-append p (x ∷ xs) ys = ground (arith, all-append p xs ys)

all-reverse :
    (p : Cookie → Bool) (xs : CookieCollection) → all p xs ≡ true → all p (reverse xs) ≡ true
all-reverse p [] h = refl
all-reverse p (x ∷ xs) h =
    let e = ap (all p) (reverse-cons x xs) in
    let a = all-append p (reverse xs) (x ∷ []) in ground (arith, all-reverse p xs, e, a)

all-retain_unseen :
    (p : Cookie → Bool) (seen : OrdSet CookieKey) (xs : CookieCollection)
    → all p xs ≡ true
    → all p (retain_unseen seen xs) ≡ true
unfolding retain_unseen
all-retain_unseen p seen [] h = refl
all-retain_unseen p seen (x ∷ xs) h = ground (arith, all-retain_unseen p (add (key x) seen) xs)

all-deduplicated :
    (p : Cookie → Bool) (b : Bool) (xs : CookieCollection)
    → all p xs ≡ true
    → all p (deduplicated b xs).1 ≡ true
unfolding deduplicate_last_wins
all-deduplicated p false xs h = h
all-deduplicated p true xs h =
    all-reverse p _ (all-retain_unseen p [] (reverse xs) (all-reverse p xs h))

length-deduplicated :
    (b : Bool) (xs : CookieCollection)
    → (deduplicated b xs).0 + length (deduplicated b xs).1 ≡ length xs
length-deduplicated false xs = omega arith
length-deduplicated true xs =
    let any_key : CookieKey = record {
      store_id = [];
      partition_site = [];
      domain = [];
      path = [];
      name = [];
    } in
    (deduplicate_last_wins_lem xs any_key).2

-- A cookie that the options let through.
unfoldable pub passes : Platform → ParseOptions → Cookie → Bool
passes platform options c = not options.reject_invalid || conforms platform c options.validation

passed : (r k : Bool) → (r && not k) ≡ false → (not r || k) ≡ true
passed r k h = ground arith

both : {a b : Bool} → a ≡ true → b ≡ true → (a && b) ≡ true
both {a} {b} h k = ground arith

accept_lem :
    (platform : Platform) (now : ℕ) (options : ParseOptions) (number : ℕ) (cs : CookieCollection)
    → (all (passes platform options) (accept platform now options number cs).accepted ≡ true)
      × (length (accept platform now options number cs).accepted
            + (accept platform now options number cs).rejected
          ≡ length cs)
unfolding accept passes
accept_lem platform now options number [] = (refl, refl)
accept_lem platform now options number (c ∷ cs) =
    let (good, count) = accept_lem platform now options (number + 1) cs in
    let e = validate_cookie-conforms platform now c options.validation in
    let b = options.reject_invalid && not (conforms platform c options.validation) in
    rw e (elim (Bool-cases b) [
      | inl h ↦ rw h (good, omega (arith, count))
      | inr h ↦ rw h (both (passed options.reject_invalid _ h) good, omega (arith, count))
    ])

full_report_lem :
    (platform : Platform) (now : ℕ) (options : ParseOptions) (format : InputFormat)
    (parsed : Parsed)
    → (all (passes platform options) (full_report platform now options format parsed).cookies
        ≡ true)
      × (length (full_report platform now options format parsed).cookies
            + (full_report platform now options format parsed).duplicates_removed
            + (full_report platform now options format parsed).rejected
          ≡ length parsed.0)
full_report_lem platform now options format parsed =
    let (good, count) = accept_lem platform now options 1 parsed.0 in
    let taken = (accept platform now options 1 parsed.0).accepted in
    (
      all-deduplicated (passes platform options) options.deduplicate taken good,
      omega (arith, count, length-deduplicated options.deduplicate taken),
    )

-- The report of cookies that are not too many: every cookie in it conforms, if invalid ones are to be
-- rejected, and the cookies in it, the duplicates and the rejected ones are as many as were read.
pub report_of_lem :
    (platform : Platform) (now : ℕ) (options : ParseOptions) (format : InputFormat)
    (parsed : Parsed)
    → length parsed.0 ≤ options.maximum_cookies
    → (report : ParseReport) × (report_of platform now options format parsed ≡ ok report)
      × (all (passes platform options) report.cookies ≡ true)
      × (length report.cookies + report.duplicates_removed + report.rejected ≡ length parsed.0)
unfolding report_of
report_of_lem platform now options format parsed h =
    let small = le→ltb_false options.maximum_cookies (length parsed.0) h in
    let (good, count) = full_report_lem platform now options format parsed in
    (full_report platform now options format parsed, rw small refl, good, count)

if_ok :
    {A : Type 0} (b : Bool) (e : LuckError) (y : Option (Result A)) (r : A)
    → (if b then some (err e) else y) ≡ some (ok r)
    → y ≡ some (ok r)
if_ok true e y r h = absurd cc
if_ok false e y r h = h

reported_lem :
    (platform : Platform) (now : ℕ) (options : ParseOptions) (format : InputFormat)
    (r : Option (Result Parsed)) (report : ParseReport)
    → reported platform now options format r ≡ some (ok report)
    → (all (passes platform options) report.cookies ≡ true)
      × (length report.cookies + report.duplicates_removed + report.rejected
          ≤ options.maximum_cookies)
unfolding report_of
reported_lem platform now options format none report h = absurd cc
reported_lem platform now options format (some (err e)) report h = absurd cc
reported_lem platform now options format (some (ok parsed)) report h =
    elim (Bool-cases (ltb options.maximum_cookies (length parsed.0))) [
      | inl b ↦
          let too_many : reported platform now options format (some (ok parsed))
              ≡ some (err (LuckError.too_many_cookies (length parsed.0) options.maximum_cookies)) =
            rw b refl in
          absurd cc
      | inr b ↦
          let fits : reported platform now options format (some (ok parsed))
              ≡ some (ok (full_report platform now options format parsed)) =
            rw b refl in
          let same : full_report platform now options format parsed ≡ report = cc in
          let (good, count) = full_report_lem platform now options format parsed in
          let small = ltb_false→le options.maximum_cookies (length parsed.0) b in
          subst (Holds platform options) same (good, omega (arith, count, small))
    ]
  where
    Holds : Platform → ParseOptions → ParseReport → Type 0
    Holds platform options report =
        (all (passes platform options) report.cookies ≡ true)
        × (length report.cookies + report.duplicates_removed + report.rejected
            ≤ options.maximum_cookies)

-- Whatever the input and its format, with one reader of JSON or another: a report that is returned has
-- only cookies that conform, if invalid ones are to be rejected, and no more cookies, duplicates and
-- rejected ones together than the options allow.
pub parse_cookies-conforms :
    (platform : Platform) (json_reader : JsonReader) (now : ℕ) (input : Text)
    (options : ParseOptions) (report : ParseReport)
    → parse_cookies platform json_reader now input options ≡ some (ok report)
    → (all (passes platform options) report.cookies ≡ true)
      × (length report.cookies + report.duplicates_removed + report.rejected
          ≤ options.maximum_cookies)
unfolding parse_cookies
parse_cookies-conforms platform json_reader now input options report h =
    let format = resolve options.format input in
    let read = read_format platform json_reader now format input options.fallback_domain in
    let sized = if_ok (is_empty (trim input)) LuckError.empty_input _ report h in
    reported_lem platform now options format read report (
      if_ok (ltb options.maximum_input_bytes (len input))
        (LuckError.input_too_large (len input) options.maximum_input_bytes) _ report sized)
