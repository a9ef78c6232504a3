-- ===== src/Common/Lists.antt =====
-- Lists measured by native numbers, Boolean filters, and predicates by recursion.
use Prim.Native.Nat.{ℕ, zero, suc, ◌+◌, ◌≤◌}
use mathlib.Core.Path.{◌≡◌, refl, ap, sym, subst}
use mathlib.Core.Logic.{inl, inr}
use mathlib.Core.Bool.{Bool, true, false, ◌||◌}
use mathlib.Core.Option.{Option, none, some}
use mathlib.Core.List.{List, [], ◌∷◌, ◌++◌}
use native.Mathlib.Omega.{arith}
use apex_chainx_backend.Common.Tests.{if◌then◌else◌, Bool-cases}

module _ {ℓ} {A : Type ℓ} where
  abbrev pub length : List A → ℕ
  length [] = 0
  length (x ∷ xs) = suc (length xs)

  abbrev pub take : ℕ → List A → List A
  take zero xs = []
  take (suc n) [] = []
  take (suc n) (x ∷ xs) = x ∷ take n xs

  abbrev pub drop : ℕ → List A → List A
  drop zero xs = xs
  drop (suc n) [] = []
  drop (suc n) (x ∷ xs) = drop n xs

  abbrev pub get_elem? : List A → ℕ → Option A
  get_elem? [] i = none
  get_elem? (x ∷ xs) zero = some x
  get_elem? (x ∷ xs) (suc i) = get_elem? xs i

  -- `[x for x in xs if test(x)]`
  abbrev pub filter : (A → Bool) → List A → List A
  filter test [] = []
  filter test (x ∷ xs) = let rest = filter test xs in if test x then x ∷ rest else rest

  -- `any(test(x) for x in xs)`
  abbrev pub any : (A → Bool) → List A → Bool
  any test [] = false
  any test (x ∷ xs) = let rest = any test xs in test x || rest

  -- The first element that passes, as `query.filter(...).first()` returns it.
  abbrev pub first : (A → Bool) → List A → Option A
  first test [] = none
  first test (x ∷ xs) = let rest = first test xs in if test x then some x else rest

  -- Every element that passes is rewritten in place.
  abbrev pub update_where : (A → Bool) → (A → A) → List A → List A
  update_where test f [] = []
  update_where test f (x ∷ xs) =
      let rest = update_where test f xs in if test x then f x ∷ rest else x ∷ rest

  -- The first element that passes is rewritten, as an object that a query returns.
  abbrev pub update_first : (A → Bool) → (A → A) → List A → List A
  update_first test f [] = []
  update_first test f (x ∷ xs) =
      let rest = update_first test f xs in if test x then f x ∷ xs else x ∷ rest

  abbrev pub All {κ} : (A → Type κ) → List A → Type κ
  All P [] = Unit
  All P (x ∷ xs) = P x × All P xs

  pub length-append : (xs ys : List A) → length (xs ++ ys) ≡ length xs + length ys
  length-append [] ys = omega arith
  length-append (x ∷ xs) ys = omega (arith, length-append xs ys)

  pub length-filter-le : (test : A → Bool) (xs : List A) → length (filter test xs) ≤ length xs
  length-filter-le test [] = omega arith
  length-filter-le test (x ∷ xs) = ground (arith, length-filter-le test xs)

  pub All-append {κ} : (P : A → Type κ) (xs ys : List A) → All P xs → All P ys → All P (xs ++ ys)
  All-append P [] ys hx hy = hy
  All-append P (x ∷ xs) ys hx hy = (hx.0, All-append P xs ys hx.1 hy)

  pub All-map {κ} : (P Q : A → Type κ) (xs : List A) → ((x : A) → P x → Q x) → All P xs → All Q xs
  All-map P Q [] f h = tt
  All-map P Q (x ∷ xs) f h = (f x h.0, All-map P Q xs f h.1)

  pub take-append-drop : (n : ℕ) (xs : List A) → take n xs ++ drop n xs ≡ xs
  take-append-drop zero xs = refl
  take-append-drop (suc n) [] = refl
  take-append-drop (suc n) (x ∷ xs) = ap (◌∷◌ x) (take-append-drop n xs)

  pub first-append :
      (test : A → Bool) (xs ys : List A)
      → first test (xs ++ ys) ≡ elim (first test xs) [ none ↦ first test ys | some x ↦ some x ]
  first-append test [] ys = refl
  first-append test (x ∷ xs) ys = ground (arith, first-append test xs ys)

  pub first-test : (test : A → Bool) (xs : List A) (p : A) → first test xs ≡ some p → test p ≡ true
  first-test test [] p h = ground arith
  first-test test (x ∷ xs) p h = elim (Bool-cases (test x)) [
    | inl hit ↦ ground arith
    | inr miss ↦ first-test test xs p (ground arith)
  ]

  pub first-update_first :
      (test : A → Bool) (f : A → A) (xs : List A) (p : A)
      → first test xs ≡ some p
      → test (f p) ≡ true
      → first test (update_first test f xs) ≡ some (f p)
  first-update_first test f [] p h h' = ground arith
  first-update_first test f (x ∷ xs) p h h' = elim (Bool-cases (test x)) [
    | inl hit ↦ ground arith
    | inr miss ↦ ground (arith, first-update_first test f xs p (ground arith) h')
  ]

  -- A rewrite that a second test does not see, in the old and in the new element.
  pub first-update_first-ne :
      (test other : A → Bool) (f : A → A) (xs : List A) (p : A)
      → first test xs ≡ some p
      → other p ≡ false
      → other (f p) ≡ false
      → first other (update_first test f xs) ≡ first other xs
  first-update_first-ne test other f [] p h h' h'' = refl
  first-update_first-ne test other f (x ∷ xs) p h h' h'' = elim (Bool-cases (test x)) [
    | inl hit ↦ ground arith
    | inr miss ↦ ground (arith, first-update_first-ne test other f xs p (ground arith) h' h'')
  ]

  pub All-first {κ} :
      (P : A → Type κ) (test : A → Bool) (xs : List A) (p : A)
      → first test xs ≡ some p
      → All P xs
      → P p
  All-first P test [] p h hs = ground arith
  All-first P test (x ∷ xs) p h hs = elim (Bool-cases (test x)) [
    | inl hit ↦ let e : x ≡ p = ground arith in subst P e hs.0
    | inr miss ↦ All-first P test xs p (ground arith) hs.1
  ]

  pub All-update_first {κ} :
      (P : A → Type κ) (test : A → Bool) (f : A → A) (xs : List A) (p : A)
      → first test xs ≡ some p
      → P (f p)
      → All P xs
      → All P (update_first test f xs)
  All-update_first P test f [] p h hp hs = tt
  All-update_first P test f (x ∷ xs) p h hp hs = elim (Bool-cases (test x)) [
    | inl hit ↦ let e : x ≡ p = ground arith in rw hit (subst (λ y. P (f y)) (sym e) hp, hs.1)
    | inr miss ↦ rw miss (hs.0, All-update_first P test f xs p (ground arith) hp hs.1)
  ]
