-- ===== src/Common/Filters.antt =====
-- Filters, first matches and updates of lists.
use mathlib.Core.Path.{◌≡◌, refl, ap}
use mathlib.Core.Logic.{◌≢◌, inl, inr}
use mathlib.Core.Bool.{Bool, true, false}
use mathlib.Core.Option.{none, some}
use mathlib.Core.List.{List, [], ◌∷◌, ◌++◌, map}
use native.Mathlib.Omega.{arith}
use apex_chainx_backend.Common.Tests.{Bool-cases}
use apex_chainx_backend.Common.Lists.{filter, first, update_where}

module _ {ℓ} {A : Type ℓ} where
  pub filter_comm : (p q : A → Bool) (xs : List A) → filter p (filter q xs) ≡ filter q (filter p xs)
  filter_comm p q [] = refl
  filter_comm p q (x ∷ xs) = ground (arith, filter_comm p q xs)

  pub filter-append :
      (p : A → Bool) (xs ys : List A) → filter p (xs ++ ys) ≡ filter p xs ++ filter p ys
  filter-append p [] ys = refl
  filter-append p (x ∷ xs) ys = ground (arith, filter-append p xs ys)

  pub filter-first :
      (p : A → Bool) (x : A) (xs : List A)
      → first p xs ≡ some x
      → (rest : List A) × (filter p xs ≡ x ∷ rest)
  filter-first p x [] h = ground arith
  filter-first p x (y ∷ ys) h = elim (Bool-cases (p y)) [
    | inl hit ↦ (filter p ys, ground arith)
    | inr miss ↦ let (rest, e) = filter-first p x ys (ground arith) in (rest, ground arith)
  ]

  pub filter-first-none : (p : A → Bool) (xs : List A) → first p xs ≡ none → filter p xs ≡ []
  filter-first-none p [] h = refl
  filter-first-none p (x ∷ xs) h = ground (arith, filter-first-none p xs)

  -- An element that a second test finds, in a filtered list of at most one element.
  pub found-nonempty :
      (p other : A → Bool) (x : A) (xs : List A)
      → first other xs ≡ some x
      → p x ≡ true
      → filter p xs ≢ []
  found-nonempty p other x [] h hp = ground arith
  found-nonempty p other x (y ∷ ys) h hp = elim (Bool-cases (other y)) [
    | inl hit ↦ let e : y ≡ x = ground arith in λ none_left. ground (arith, ap p e)
    | inr miss ↦ λ none_left. ground (arith, found-nonempty p other x ys (ground arith) hp)
  ]

  pub found-only :
      (p other : A → Bool) (x y : A) (xs : List A)
      → first other xs ≡ some x
      → p x ≡ true
      → filter p xs ≡ y ∷ []
      → y ≡ x
  found-only p other x y [] h hp e = ground arith
  found-only p other x y (z ∷ zs) h hp e = elim (Bool-cases (other z)) [
    | inl hit ↦ let e' : z ≡ x = ground arith in ground (arith, ap p e')
    | inr miss ↦ elim (Bool-cases (p z)) [
      | inl passes ↦ ground (arith, found-nonempty p other x zs (ground arith) hp)
      | inr fails ↦ found-only p other x y zs (ground arith) hp (ground arith)
    ]
  ]

  pub filter-update_where :
      (p : A → Bool) (f : A → A) (xs : List A)
      → ((x : A) → p (f x) ≡ p x)
      → filter p (update_where p f xs) ≡ map f (filter p xs)
  filter-update_where p f [] h = refl
  filter-update_where p f (x ∷ xs) h = ground (arith, h x, filter-update_where p f xs h)

  pub filter-update_where-ne :
      (p q : A → Bool) (f : A → A) (xs : List A)
      → ((x : A) → q x ≡ true → (p x ≡ false) × (p (f x) ≡ false))
      → filter p (update_where q f xs) ≡ filter p xs
  filter-update_where-ne p q f [] h = refl
  filter-update_where-ne p q f (x ∷ xs) h = elim (Bool-cases (q x)) [
    | inl hit ↦ ground (arith, h x hit, filter-update_where-ne p q f xs h)
    | inr miss ↦ ground (arith, filter-update_where-ne p q f xs h)
  ]

  pub append-nil : (xs : List A) → xs ++ [] ≡ xs
  append-nil [] = refl
  append-nil (x ∷ xs) = ap (◌∷◌ x) (append-nil xs)

  pub filter-true : (xs : List A) → filter (λ x. true) xs ≡ xs
  filter-true [] = refl
  filter-true (x ∷ xs) = ap (◌∷◌ x) (filter-true xs)
