-- ===== src/Sla/Intervals/Merged.antt =====
-- What `merge_intervals` (app/services/sla/interval_merge.py) guarantees.
use apex_chainx_backend.Common.{ℕ, ◌≤◌, ◌≡◌, ◌∙◌, refl, ap, List, [], ◌∷◌, arith, All}
use apex_chainx_backend.Sla.Intervals.{
  Interval, merge_intervals, covered, downtime, IsInterval, IsSeparated, IsSortedFrom, sorted,
  merge_sorted,
}
use apex_chainx_backend.Sla.Intervals.Laws.{
  covered-sorted, sorted-All, sorted-IsSortedFrom, covered-merge_from, IsSeparated-merge_from,
  valid-merge_from, downtime-sorted, downtime-merge_from, sorted_separated, merge_from_separated,
}

covered-merge_sorted :
    (t : ℕ) (xs : List Interval)
    → All IsInterval xs
    → IsSortedFrom 0 xs
    → covered t (merge_sorted xs) ≡ covered t xs
unfolding merge_sorted
covered-merge_sorted t [] hs s = refl
covered-merge_sorted t (x ∷ xs) hs s = covered-merge_from t x xs hs.0 hs.1 s.1

IsSeparated-merge_sorted :
    (xs : List Interval)
    → All IsInterval xs
    → IsSortedFrom 0 xs
    → IsSeparated (merge_sorted xs) × All IsInterval (merge_sorted xs)
unfolding merge_sorted
IsSeparated-merge_sorted [] hs s = (tt, tt)
IsSeparated-merge_sorted (x ∷ xs) hs s =
    (IsSeparated-merge_from x xs s.1, valid-merge_from x xs hs.0 hs.1)

downtime-merge_sorted :
    (xs : List Interval)
    → All IsInterval xs
    → IsSortedFrom 0 xs
    → downtime (merge_sorted xs) ≤ downtime xs
unfolding merge_sorted
downtime-merge_sorted [] hs s = omega arith
downtime-merge_sorted (x ∷ xs) hs s = downtime-merge_from x xs hs.0 hs.1 s.1

merge_separated :
    (xs : List Interval) → All IsInterval xs → IsSeparated xs → merge_intervals xs ≡ xs
unfolding merge_intervals
merge_separated [] hs s = refl
merge_separated (x ∷ xs) hs s =
    ap merge_sorted (sorted_separated x xs hs s) ∙ merge_from_separated x xs s

-- Intervals that end no earlier than they begin are merged into separated ones, in order, which
-- cover exactly the same times.
pub merge_intervals_covers :
    (xs : List Interval)
    → All IsInterval xs
    → IsSeparated (merge_intervals xs) × ((t : ℕ) → covered t (merge_intervals xs) ≡ covered t xs)
unfolding merge_intervals
merge_intervals_covers xs hs =
    let sorted_hs = sorted-All xs hs in
    (
      (IsSeparated-merge_sorted (sorted xs) sorted_hs (sorted-IsSortedFrom xs)).0,
      λ t.
          covered-merge_sorted t (sorted xs) sorted_hs (sorted-IsSortedFrom xs)
          ∙ covered-sorted t xs,
    )

-- For intervals that end no earlier than they begin, the merged downtime is at most the sum of the
-- given ones, and merging again changes nothing.
pub merge_intervals_idem :
    (xs : List Interval)
    → All IsInterval xs
    → (downtime (merge_intervals xs) ≤ downtime xs)
      × (merge_intervals (merge_intervals xs) ≡ merge_intervals xs)
unfolding merge_intervals
merge_intervals_idem xs hs =
    let sorted_hs = sorted-All xs hs in
    let (separated, valid) =
      IsSeparated-merge_sorted (sorted xs) sorted_hs (sorted-IsSortedFrom xs) in
    (
      omega (
        arith,
        downtime-merge_sorted (sorted xs) sorted_hs (sorted-IsSortedFrom xs),
        downtime-sorted xs,
      ),
      merge_separated (merge_intervals xs) valid separated,
    )
