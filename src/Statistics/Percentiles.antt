-- ===== src/Statistics/Percentiles.antt =====
-- The order of what a distribution holds.
use luck_editor.Prelude.{
  ℕ, zero, suc, ◌-◌, ◌≤◌, ◌<◌, List, [], ◌∷◌, length, ◌≢◌, arith, All, gt, nat_ord, compare,
}
use luck_editor.Prelude.Sort.{sort_by, Sorted, length-sort_by}
use luck_editor.Prelude.Sorting.{sort_by-IsSorted, ordering_total, ordering_trans}
use luck_editor.Statistics.{
  Floats, LengthDistribution, at, rank_of, percentile, of_sorted, from_values, compare_usize,
}

at-All : (P : ℕ → Type 0) (xs : List ℕ) (i : ℕ) → i < length xs → All P xs → P (at xs i)
at-All P [] i h a = absurd (omega arith)
at-All P (x ∷ xs) zero h (p, ps) = p
at-All P (x ∷ xs) (suc i) h (p, ps) = at-All P xs i (omega arith) ps

not_gt : (a b : ℕ) → compare a b ≢ gt → a ≤ b
not_gt a b h = ground arith

-- A sorted list goes up with the index.
at-Sorted :
    (xs : List ℕ) (i j : ℕ) → Sorted compare_usize xs → i ≤ j → j < length xs → at xs i ≤ at xs j
at-Sorted [] i j s h k = absurd (omega arith)
at-Sorted (x ∷ xs) zero zero s h k = omega arith
at-Sorted (x ∷ xs) zero (suc j) (a, s) h k =
    not_gt x (at xs j) (at-All (λ y. compare x y ≢ gt) xs j (omega arith) a)
at-Sorted (x ∷ xs) (suc i) zero s h k = absurd (omega arith)
at-Sorted (x ∷ xs) (suc i) (suc j) (a, s) h k = at-Sorted xs i j s (omega arith) (omega arith)

rank_of-order :
    (n : ℕ)
    → 1 ≤ n
    → (rank_of n 90 ≤ rank_of n 95)
      × (rank_of n 95 ≤ rank_of n 99)
      × (rank_of n 99 ≤ n - 1)
      × (n - 1 < n)
unfolding rank_of
rank_of-order n h = (omega arith, omega arith, omega arith, omega arith)

-- The numbers of a distribution are in order, from the minimum over the three percentiles to the
-- maximum.
pub IsOrdered : LengthDistribution → Type 0
IsOrdered d = (d.minimum ≤ d.p90) × (d.p90 ≤ d.p95) × (d.p95 ≤ d.p99) × (d.p99 ≤ d.maximum)

of_sorted-IsOrdered :
    (floats : Floats) (xs : List ℕ)
    → Sorted compare_usize xs
    → 1 ≤ length xs
    → IsOrdered (of_sorted floats xs)
unfolding IsOrdered percentile
of_sorted-IsOrdered floats [] s h = absurd (omega arith)
of_sorted-IsOrdered floats (x ∷ xs) s h =
    let n = length (x ∷ xs) in
    let (low, high, top, last) = rank_of-order n h in
    (
      at-Sorted (x ∷ xs) 0 (rank_of n 90) s (omega arith) (omega (arith, low, high, top, last)),
      at-Sorted (x ∷ xs) (rank_of n 90) (rank_of n 95) s low (omega (arith, high, top, last)),
      at-Sorted (x ∷ xs) (rank_of n 95) (rank_of n 99) s high (omega (arith, top, last)),
      at-Sorted (x ∷ xs) (rank_of n 99) (n - 1) s top last,
    )

-- The numbers of every distribution are in order: the minimum, the percentiles 90, 95 and 99, and the
-- maximum. No values are needed for it.
pub from_values-IsOrdered :
    (floats : Floats) (values : List ℕ) → IsOrdered (from_values floats values)
unfolding from_values IsOrdered
from_values-IsOrdered floats [] = (omega arith, omega arith, omega arith, omega arith)
from_values-IsOrdered floats (x ∷ xs) =
    of_sorted-IsOrdered floats (sort_by compare_usize (x ∷ xs))
      (sort_by-IsSorted compare_usize ordering_total ordering_trans (x ∷ xs))
      (omega (arith, length-sort_by compare_usize (x ∷ xs)))
