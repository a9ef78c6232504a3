-- ===== src/Sla/Intervals/Laws.antt =====
-- Lemmas on the sort and the loop of `merge_intervals` (app/services/sla/interval_merge.py).
use apex_chainx_backend.Common.{
  ℕ, ◌≤◌, ◌<◌, ◌≡◌, ◌∙◌, refl, ap, max, List, [], ◌∷◌, arith, leb, All, Bool-cases, inl, inr,
}
use apex_chainx_backend.Sla.Intervals.{
  Interval, insert, sorted, merge_from, covered, IsInterval, IsSeparated, IsSeparatedFrom,
  IsSortedFrom, downtime,
}

pub covered-insert :
    (t : ℕ) (x : Interval) (ys : List Interval) → covered t (insert x ys) ≡ covered t (x ∷ ys)
unfolding insert
covered-insert t x [] = refl
covered-insert t x (y ∷ ys) = ground (arith, covered-insert t x ys)

pub covered-sorted : (t : ℕ) (xs : List Interval) → covered t (sorted xs) ≡ covered t xs
unfolding sorted
covered-sorted t [] = refl
covered-sorted t (x ∷ xs) = ground (arith, covered-insert t x (sorted xs), covered-sorted t xs)

pub insert-All :
    (x : Interval) (ys : List Interval)
    → IsInterval x
    → All IsInterval ys
    → All IsInterval (insert x ys)
unfolding insert
insert-All x [] h hs = (h, tt)
insert-All x (y ∷ ys) h hs = ground (arith, insert-All x ys h hs.1)

pub sorted-All : (xs : List Interval) → All IsInterval xs → All IsInterval (sorted xs)
unfolding sorted
sorted-All [] hs = tt
sorted-All (x ∷ xs) hs = insert-All x (sorted xs) hs.0 (sorted-All xs hs.1)

pub insert-IsSortedFrom :
    (s : ℕ) (x : Interval) (ys : List Interval)
    → s ≤ x.0
    → IsSortedFrom s ys
    → IsSortedFrom s (insert x ys)
unfolding insert
insert-IsSortedFrom s x [] h hs = (h, tt)
insert-IsSortedFrom s x (y ∷ ys) h hs = ground (arith, insert-IsSortedFrom y.0 x ys)

pub sorted-IsSortedFrom : (xs : List Interval) → IsSortedFrom 0 (sorted xs)
unfolding sorted
sorted-IsSortedFrom [] = tt
sorted-IsSortedFrom (x ∷ xs) =
    insert-IsSortedFrom 0 x (sorted xs) (omega arith) (sorted-IsSortedFrom xs)

pub IsSortedFrom-le :
    (s s' : ℕ) (xs : List Interval) → s ≤ s' → IsSortedFrom s' xs → IsSortedFrom s xs
IsSortedFrom-le s s' [] h hs = tt
IsSortedFrom-le s s' (x ∷ xs) h hs = (omega arith, hs.1)

pub covered-merge_from :
    (t : ℕ) (last : Interval) (rest : List Interval)
    → IsInterval last
    → All IsInterval rest
    → IsSortedFrom last.0 rest
    → covered t (merge_from last rest) ≡ covered t (last ∷ rest)
unfolding merge_from
covered-merge_from t last [] h hs s = refl
covered-merge_from t last (i ∷ rest) h hs s = ground (
  arith,
  covered-merge_from t (last.0, max last.1 i.1) rest (omega arith) hs.1
      (IsSortedFrom-le last.0 i.0 rest s.0 s.1),
  covered-merge_from t i rest hs.0 hs.1 s.1,
)

-- The merged list begins where `last` does, and is separated.
pub separated-merge_from :
    (k : ℕ) (last : Interval) (rest : List Interval)
    → k < last.0
    → IsSortedFrom last.0 rest
    → IsSeparatedFrom k (merge_from last rest)
unfolding merge_from
separated-merge_from k last [] h s = (h, tt)
separated-merge_from k last (i ∷ rest) h s = elim (Bool-cases (leb i.0 last.1)) [
  | inl touching ↦ rw touching (
      separated-merge_from k (last.0, max last.1 i.1) rest h
        (IsSortedFrom-le last.0 i.0 rest s.0 s.1))
  | inr apart ↦ rw apart (h, separated-merge_from last.1 i rest (ground arith) s.1)
]

pub IsSeparated-merge_from :
    (last : Interval) (rest : List Interval)
    → IsSortedFrom last.0 rest
    → IsSeparated (merge_from last rest)
unfolding merge_from
IsSeparated-merge_from last [] s = tt
IsSeparated-merge_from last (i ∷ rest) s = elim (Bool-cases (leb i.0 last.1)) [
  | inl touching ↦ rw touching (
      IsSeparated-merge_from (last.0, max last.1 i.1) rest
        (IsSortedFrom-le last.0 i.0 rest s.0 s.1))
  | inr apart ↦ rw apart (separated-merge_from last.1 i rest (ground arith) s.1)
]

pub valid-merge_from :
    (last : Interval) (rest : List Interval)
    → IsInterval last
    → All IsInterval rest
    → All IsInterval (merge_from last rest)
unfolding merge_from
valid-merge_from last [] h hs = (h, tt)
valid-merge_from last (i ∷ rest) h hs = ground (
  arith,
  valid-merge_from (last.0, max last.1 i.1) rest (omega arith) hs.1,
  valid-merge_from i rest hs.0 hs.1,
)

pub downtime-insert :
    (x : Interval) (ys : List Interval) → downtime (insert x ys) ≡ downtime (x ∷ ys)
unfolding insert
downtime-insert x [] = refl
downtime-insert x (y ∷ ys) = ground (arith, downtime-insert x ys)

pub downtime-sorted : (xs : List Interval) → downtime (sorted xs) ≡ downtime xs
unfolding sorted
downtime-sorted [] = refl
downtime-sorted (x ∷ xs) = omega (arith, downtime-insert x (sorted xs), downtime-sorted xs)

pub downtime-merge_from :
    (last : Interval) (rest : List Interval)
    → IsInterval last
    → All IsInterval rest
    → IsSortedFrom last.0 rest
    → downtime (merge_from last rest) ≤ downtime (last ∷ rest)
unfolding merge_from
downtime-merge_from last [] h hs s = omega arith
downtime-merge_from last (i ∷ rest) h hs s = ground (
  arith,
  downtime-merge_from (last.0, max last.1 i.1) rest (omega arith) hs.1
      (IsSortedFrom-le last.0 i.0 rest s.0 s.1),
  downtime-merge_from i rest hs.0 hs.1 s.1,
)

-- A list that is merged already is left as it is.
pub insert_first :
    (x : Interval) (ys : List Interval)
    → IsInterval x
    → IsSeparatedFrom x.1 ys
    → insert x ys ≡ x ∷ ys
unfolding insert
insert_first x [] h s = refl
insert_first x (y ∷ ys) h s = ground arith

pub sorted_separated :
    (x : Interval) (xs : List Interval)
    → All IsInterval (x ∷ xs)
    → IsSeparatedFrom x.1 xs
    → sorted (x ∷ xs) ≡ x ∷ xs
unfolding sorted
sorted_separated x [] h s = insert_first x [] h.0 tt
sorted_separated x (y ∷ ys) h s =
    ap (insert x) (sorted_separated y ys h.1 s.1) ∙ insert_first x (y ∷ ys) h.0 s

pub merge_from_separated :
    (x : Interval) (xs : List Interval) → IsSeparatedFrom x.1 xs → merge_from x xs ≡ x ∷ xs
unfolding merge_from
merge_from_separated x [] s = refl
merge_from_separated x (y ∷ ys) s = ground (arith, merge_from_separated y ys s.1)
