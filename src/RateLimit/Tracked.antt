-- ===== src/RateLimit/Tracked.antt =====
-- What the hits of a key stand for: the times of the calls admitted before, as far as they are alive
-- (app/core/rate_limiter.py).
use apex_chainx_backend.Common.{
  ◌⊎◌, ℕ, ◌≤◌, ◌≡◌, refl, sym, ◌∙◌, inl, inr, String, Bool, true, false, List, [], ◌∷◌, ◌++◌,
  str_eq, eq_iff, if◌then◌else◌, filter, filter-append, Bool-cases, arith, All, All-append, All-map,
  subst, insert, lookup-insert,
}
use apex_chainx_backend.RateLimit.{Requests, hits_of, alive, is_stale}
use apex_chainx_backend.RateLimit.Window.{Call, times}

abbrev pub IsSorted : List ℕ → Type 0
IsSorted [] = Unit
IsSorted (x ∷ xs) = All (λ y. x ≤ y) xs × IsSorted xs

IsSorted-append :
    (xs : List ℕ) (now : ℕ) → IsSorted xs → All (λ x. x ≤ now) xs → IsSorted (xs ++ now ∷ [])
IsSorted-append [] now s h = (tt, tt)
IsSorted-append (x ∷ xs) now s h =
    (All-append (λ y. x ≤ y) xs (now ∷ []) s.0 (h.0, tt), IsSorted-append xs now s.1 h.1)

All-filter {ℓ} :
    (P : ℕ → Type ℓ) (test : ℕ → Bool) (xs : List ℕ) → All P xs → All P (filter test xs)
All-filter P test [] h = tt
All-filter P test (x ∷ xs) h = elim (Bool-cases (test x)) [
  | inl hit ↦ rw hit (h.0, All-filter P test xs h.1)
  | inr miss ↦ rw miss (All-filter P test xs h.1)
]

IsSorted-filter : (test : ℕ → Bool) (xs : List ℕ) → IsSorted xs → IsSorted (filter test xs)
IsSorted-filter test [] s = tt
IsSorted-filter test (x ∷ xs) s = elim (Bool-cases (test x)) [
  | inl hit ↦ rw hit (All-filter (λ y. x ≤ y) test xs s.0, IsSorted-filter test xs s.1)
  | inr miss ↦ rw miss (IsSorted-filter test xs s.1)
]

-- The hits of a stale key are dead, now and later.
stale_dead :
    (window now later : ℕ) (xs : List ℕ)
    → IsSorted xs
    → is_stale window now xs ≡ true
    → now ≤ later
    → filter (alive window later) xs ≡ []
unfolding is_stale
stale_dead window now later [] s h le = refl
stale_dead window now later (x ∷ []) s h le = ground (arith, h, le)
stale_dead window now later (x ∷ y ∷ xs) s h le =
    let rest = stale_dead window now later (y ∷ xs) s.1 h le in
    let dead : alive window later x ≡ false = ground (arith, rest, s.0.0) in rw dead rest

module _ (window : ℕ) where
  -- What the state of a key stands for.
  abbrev pub IsTracked : ℕ → List ℕ → List ℕ → Type 0
  IsTracked now hits past =
      IsSorted hits
      × All (λ t. t ≤ now) hits
      × ((n : ℕ) → now ≤ n → filter (alive window n) hits ≡ filter (alive window n) past)

  abbrev pub Stands : ℕ → Requests → List Call → Type 0
  Stands now requests past = (key : String) → IsTracked now (hits_of key requests) (times key past)

  pub IsTracked-swept :
      (now : ℕ) (hits hits' past : List ℕ)
      → ((hits' ≡ hits) ⊎ ((hits' ≡ []) × (is_stale window now hits ≡ true)))
      → IsTracked now hits past
      → IsTracked now hits' past
  IsTracked-swept now hits hits' past (inl same) h = subst (λ x. IsTracked now x past) (sym same) h
  IsTracked-swept now hits hits' past (inr (gone, stale)) (sorted, early, same) =
      subst (λ x. IsTracked now x past) (sym gone)
        (tt, tt, λ n le. sym (stale_dead window now n hits sorted stale le) ∙ same n le)

  pub filter_again :
      (now n : ℕ)
      → now ≤ n
      → (xs : List ℕ)
      → filter (alive window n) (filter (alive window now) xs) ≡ filter (alive window n) xs
  filter_again now n le [] = refl
  filter_again now n le (x ∷ xs) = ground (arith, le, filter_again now n le xs)

  pub IsTracked-pruned :
      (now : ℕ) (hits past : List ℕ)
      → IsTracked now hits past
      → IsTracked now (filter (alive window now) hits) past
  IsTracked-pruned now hits past (sorted, early, same) = (
    IsSorted-filter _ hits sorted,
    All-filter (λ t. t ≤ now) _ hits early,
    λ n le. filter_again now n le hits ∙ same n le,
  )

  pub IsTracked-hit :
      (now : ℕ) (hits past : List ℕ)
      → IsTracked now hits past
      → IsTracked now (hits ++ now ∷ []) (past ++ now ∷ [])
  IsTracked-hit now hits past (sorted, early, same) = (
    IsSorted-append hits now sorted early,
    All-append (λ t. t ≤ now) hits (now ∷ []) early (omega arith, tt),
    λ n le.
        rw
          (
            filter-append (alive window n) hits (now ∷ []),
            filter-append (alive window n) past (now ∷ []),
            same n le,
          )
          refl,
  )

  pub hits_of-insert :
      (key j : String) (hits : List ℕ) (requests : Requests)
      → hits_of j (insert key hits requests) ≡ (if str_eq key j then hits else hits_of j requests)
  hits_of-insert key j hits requests = elim (Bool-cases (str_eq key j)) [
    | inl same ↦ rw (lookup-insert key j hits requests, same) refl
    | inr other ↦ rw (lookup-insert key j hits requests, other) refl
  ]

  pub Stands-insert :
      (now : ℕ) (key : String) (hits : List ℕ) (requests : Requests) (past : List Call)
      → ((j : String) → str_eq key j ≡ false → IsTracked now (hits_of j requests) (times j past))
      → IsTracked now hits (times key past)
      → Stands now (insert key hits requests) past
  Stands-insert now key hits requests past h own j = elim (Bool-cases (str_eq key j)) [
    | inl same ↦
        let e : key ≡ j = ground (arith, eq_iff key j, same) in
        rw (hits_of-insert key j hits requests, same)
          (subst (λ k. IsTracked now hits (times k past)) e own)
    | inr other ↦ rw (hits_of-insert key j hits requests, other) (h j other)
  ]

  pub IsTracked-later :
      (before now : ℕ) (hits past : List ℕ)
      → before ≤ now
      → IsTracked before hits past
      → IsTracked now hits past
  IsTracked-later before now hits past le (sorted, early, same) = (
    sorted,
    All-map (λ t. t ≤ before) (λ t. t ≤ now) hits (λ t h. omega (arith, h, le)) early,
    λ n later. same n (omega (arith, le, later)),
  )
