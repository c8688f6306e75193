-- ===== src/Statistics/Distribution.antt =====
-- `LengthDistribution`, `LifetimeStatistics` and what they are computed with.
use luck_editor.Prelude.{
  ℕ, ◌+◌, ◌-◌, ◌*◌, ◌/◌, ◌%◌, min, ◌==◌, List, [], ◌∷◌, if◌then◌else◌, is_empty, length, map,
  unwrap_or, get_elem?, take, Ordering, ordering, then_with, nat_ord, list_ord,
}
use luck_editor.Prelude.Sort.{sort_by}
use luck_editor.OrdMap.{OrdMap}
use luck_editor.Text.{Text}
use luck_editor.Statistics.Arithmetic.{Floats, total_cmp}

-- `values[i]`, within the bounds.
abbrev pub at : List ℕ → ℕ → ℕ
at values i = unwrap_or (get_elem? values i) 0

unfoldable pub sum : List ℕ → ℕ
sum [] = 0
sum (n ∷ ns) = n + sum ns

unfoldable pub mean_usize : Floats → List ℕ → ℕ
unfolding sum
mean_usize floats values =
    if is_empty values then 0 else floats.quotient (sum values) (length values)

unfoldable pub median : Floats → List ℕ → ℕ
median floats values =
    let middle = length values / 2 in
    if is_empty values
    then 0
    else if length values % 2 == 0
    then floats.half (at values (middle - 1) + at values middle)
    else floats.of_usize (at values middle)

unfoldable pub rank_of : ℕ → ℕ → ℕ
rank_of count percent = min (((count - 1) * percent + 99) / 100) (count - 1)

unfoldable pub percentile : List ℕ → ℕ → ℕ
unfolding rank_of
percentile values percent =
    if is_empty values then 0 else at values (rank_of (length values) percent)

pub record LengthDistribution : Type 0 where
  pub minimum : ℕ
  pub maximum : ℕ
  pub mean : ℕ
  pub median : ℕ
  pub p90 : ℕ
  pub p95 : ℕ
  pub p99 : ℕ

abbrev pub empty_distribution : LengthDistribution
empty_distribution = record {
  minimum = 0;
  maximum = 0;
  mean = 0;
  median = 0;
  p90 = 0;
  p95 = 0;
  p99 = 0;
}

abbrev pub of_sorted : Floats → List ℕ → LengthDistribution
of_sorted floats sorted = record {
  minimum = at sorted 0;
  maximum = at sorted (length sorted - 1);
  mean = mean_usize floats sorted;
  median = median floats sorted;
  p90 = percentile sorted 90;
  p95 = percentile sorted 95;
  p99 = percentile sorted 99;
}

abbrev pub compare_usize : ℕ → ℕ → Ordering
compare_usize a b = ordering a b

-- `sort_unstable`: equal numbers are the same.
unfoldable pub from_values : Floats → List ℕ → LengthDistribution
unfolding mean_usize median percentile
from_values floats values =
    if is_empty values then empty_distribution else of_sorted floats (sort_by compare_usize values)

pub record LifetimeStatistics : Type 0 where
  pub persistent_count : ℕ
  pub minimum_days : ℕ
  pub maximum_days : ℕ
  pub mean_days : ℕ
  pub median_days : ℕ

abbrev pub empty_lifetime : LifetimeStatistics
empty_lifetime = record {
  persistent_count = 0;
  minimum_days = 0;
  maximum_days = 0;
  mean_days = 0;
  median_days = 0;
}

abbrev pub lifetime_of : Floats → List ℕ → LifetimeStatistics
lifetime_of floats days =
    let middle = length days / 2 in
    record {
      persistent_count = length days;
      minimum_days = at days 0;
      maximum_days = at days (length days - 1);
      mean_days = floats.mean days;
      median_days =
          if length days % 2 == 0
          then floats.middle_of (at days (middle - 1)) (at days middle)
          else at days middle;
    }

unfoldable pub from_seconds : Floats → List ℕ → LifetimeStatistics
from_seconds floats values =
    if is_empty values
    then empty_lifetime
    else lifetime_of floats (sort_by total_cmp (map floats.to_days values))

unfoldable pub ratio : Floats → ℕ → ℕ → ℕ
ratio floats numerator denominator =
    if denominator == 0 then 0 else floats.quotient numerator denominator

-- By the count, the greatest first, then by the key.
abbrev pub compare_entries : Text × ℕ → Text × ℕ → Ordering
compare_entries l r = then_with (ordering r.1 l.1) (ordering l.0 r.0)

unfoldable pub top_entries : OrdMap Text ℕ → ℕ → List (Text × ℕ)
top_entries m limit = take limit (sort_by compare_entries m)
