-- ===== src/Sla/Intervals.antt =====
-- Merging overlapping outage intervals (app/services/sla/interval_merge.py). Times are numbers of
-- any resolution; `sorted` is the stable sort of Python, by the start.
pub mod Laws
pub mod Merged
use apex_chainx_backend.Common.{
  ℕ, ◌+◌, ◌-◌, ◌≤◌, ◌<◌, ◌≡◌, ◌∙◌, refl, ap, max, Bool, true, false, ◌&&◌, ◌||◌, List, [], ◌∷◌,
  arith, leb, if◌then◌else◌, any, All, Bool-cases, inl, inr,
}

abbrev pub Interval : Type 0
Interval = ℕ × ℕ

pub insert : Interval → List Interval → List Interval
insert x [] = x ∷ []
insert x (y ∷ ys) = if leb x.0 y.0 then x ∷ y ∷ ys else y ∷ insert x ys

pub sorted : List Interval → List Interval
unfolding insert
sorted [] = []
sorted (x ∷ xs) = insert x (sorted xs)

-- The loop, with `merged[-1]` apart.
pub merge_from : Interval → List Interval → List Interval
merge_from last [] = last ∷ []
merge_from last (i ∷ rest) =
    let joined = merge_from (last.0, max last.1 i.1) rest in
    let opened = last ∷ merge_from i rest in if leb i.0 last.1 then joined else opened

pub merge_sorted : List Interval → List Interval
unfolding merge_from
merge_sorted [] = []
merge_sorted (first ∷ rest) = merge_from first rest

unfoldable pub merge_intervals : List Interval → List Interval
unfolding sorted merge_sorted
merge_intervals intervals = merge_sorted (sorted intervals)

-- A time lies in an interval, its ends included.
abbrev pub covered : ℕ → List Interval → Bool
covered t = any (λ i. leb i.0 t && leb t i.1)

abbrev pub IsInterval : Interval → Type 0
IsInterval i = i.0 ≤ i.1

-- In order, and each interval ends before the next begins.
abbrev pub IsSeparatedFrom : ℕ → List Interval → Type 0
IsSeparatedFrom end [] = Unit
IsSeparatedFrom end (i ∷ rest) = (end < i.0) × IsSeparatedFrom i.1 rest

abbrev pub IsSeparated : List Interval → Type 0
IsSeparated [] = Unit
IsSeparated (i ∷ rest) = IsSeparatedFrom i.1 rest

abbrev pub IsSortedFrom : ℕ → List Interval → Type 0
IsSortedFrom s [] = Unit
IsSortedFrom s (i ∷ rest) = (s ≤ i.0) × IsSortedFrom i.0 rest

abbrev pub downtime : List Interval → ℕ
downtime [] = 0
downtime (i ∷ rest) = (i.1 - i.0) + downtime rest
