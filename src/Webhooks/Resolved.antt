-- ===== src/Webhooks/Resolved.antt =====
-- The addresses of a host that the screening keeps (app/utils/network_validation.py).
use apex_chainx_backend.Common.{
  ℕ, suc, ◌≤◌, ◌≡◌, ◌⊎◌, refl, inl, inr, String, true, ◌||◌, sym, ◌∙◌, Option, some, List, [], ◌∷◌,
  ◌++◌, str_eq, eq_iff, leb, if◌then◌else◌, length, any, Bool-cases, Option-cases, subst, arith,
  length-append,
}
use apex_chainx_backend.Webhooks.Network.{accepted, distinct_upto, resolve_host}

-- Every address of the first list is in the second.
abbrev pub IsWithin : List String → List String → Type 0
IsWithin xs ys = (x : String) → any (str_eq x) xs ≡ true → any (str_eq x) ys ≡ true

-- The addresses that are kept of those found: at least one and at most five, each of them found, and
-- every one that was found unless there are five.
abbrev pub IsKept : List String → List String → Type 0
IsKept found ips =
    (1 ≤ length ips)
    × (length ips ≤ 5)
    × IsWithin ips found
    × ((length ips ≡ 5) ⊎ IsWithin found ips)

any-append :
    (ip : String) (xs ys : List String)
    → any (str_eq ip) (xs ++ ys) ≡ any (str_eq ip) xs || any (str_eq ip) ys
any-append ip [] ys = refl
any-append ip (x ∷ xs) ys = ground (arith, any-append ip xs ys)

-- What one more address makes of those kept.
abbrev grown : String → List String → List String
grown ip ips = if any (str_eq ip) ips then ips else ips ++ ip ∷ []

any-grown :
    (x ip : String) (ips : List String)
    → any (str_eq x) (grown ip ips) ≡ str_eq x ip || any (str_eq x) ips
any-grown x ip ips = ground (arith, any-append x ips (ip ∷ []), eq_iff x ip)

grown-length :
    (n : ℕ) (ip : String) (ips : List String) → length ips ≤ n → length (grown ip ips) ≤ suc n
grown-length n ip ips h = ground (arith, length-append ips (ip ∷ []))

-- The loop that has kept `ips` of the addresses in `whole`, with `found` to come.
abbrev IsLooped : ℕ → List String → List String → List String → List String → Type 0
IsLooped n whole found ips kept =
    (length kept ≤ suc n)
    × IsWithin kept whole
    × ((length kept ≡ suc n) ⊎ (IsWithin ips kept × IsWithin found kept))

distinct_upto-IsLooped :
    (n : ℕ) (whole found ips : List String)
    → length ips ≤ n
    → IsWithin ips whole
    → IsWithin found whole
    → IsLooped n whole found ips (distinct_upto (suc n) found ips)
unfolding distinct_upto
distinct_upto-IsLooped n whole [] ips h inside later =
    (omega arith, inside, inr ((λ x known. known), λ x known. ground (arith, known)))
distinct_upto-IsLooped n whole (ip ∷ more) ips h inside later =
    let ips' = grown ip ips in
    let bound : length ips' ≤ suc n = grown-length n ip ips h in
    let inside' : IsWithin ips' whole =
      λ x known. ground (arith, known, any-grown x ip ips, inside x, later x) in
    elim (Bool-cases (leb (suc n) (length ips'))) [
      | inl full ↦ rw full (bound, inside', inl (ground arith))
      | inr room ↦
          let (size, kept, end) =
            distinct_upto-IsLooped n whole more ips' (ground arith) inside'
              (λ x known. ground (arith, known, later x)) in
          let grows : (x : String)
              → str_eq x ip || any (str_eq x) ips ≡ true
              → any (str_eq x) ips' ≡ true =
            λ x known. any-grown x ip ips ∙ known in
          rw room (
            size,
            kept,
            elim end [
              | inl e ↦ inl e
              | inr (before, after) ↦ inr (
                (λ x known. before x (grows x (ground (arith, known)))),
                λ x known. elim (Bool-cases (str_eq x ip)) [
                  | inl same ↦ before x (grows x (ground (arith, same)))
                  | inr other ↦ after x (ground (arith, known, other))
                ],
              )
            ],
          )
    ]

list-cases {ℓ} :
    {A : Type ℓ} (xs : List A) → (xs ≡ []) ⊎ ((x : A) × (rest : List A) × (xs ≡ x ∷ rest))
list-cases [] = inl refl
list-cases (x ∷ xs) = inr (x, xs, refl)

pub resolve_host-accepted :
    (hostname : String) (addr_info : String → Option (List String)) (ips : List String)
    → resolve_host hostname addr_info ≡ accepted ips
    → (found : List String) × (addr_info hostname ≡ some found) × IsKept found ips
unfolding resolve_host
resolve_host-accepted hostname addr_info ips h = elim (Option-cases (addr_info hostname)) [
  | inl unknown ↦ ground arith
  | inr (found, e) ↦ elim (list-cases (distinct_upto 5 found [])) [
    | inl empty ↦ ground arith
    | inr (ip, rest, e') ↦
        let same : distinct_upto 5 found [] ≡ ips = ground arith in
        let (size, kept, end) = subst (IsLooped 4 found found []) same (
          distinct_upto-IsLooped 4 found found [] (omega arith) (λ x known. ground (arith, known))
            (λ x known. known)) in
        let some_ip : 1 ≤ length ips = subst (λ xs. 1 ≤ length xs) (sym e' ∙ same) (omega arith) in
        (found, e, (some_ip, size, kept, elim end [ inl full ↦ inl full | inr r ↦ inr r.1 ]))
  ]
]
