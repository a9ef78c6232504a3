-- ===== src/RateLimit/Memory.antt =====
-- The in-process limiter of app/core/rate_limiter.py keeps the promise of the sliding window, with
-- its sweeps of expired keys.
use apex_chainx_backend.Common.{
  ◌⊎◌, ℕ, ◌≤◌, ◌≡◌, refl, sym, ap, ◌∙◌, inl, inr, String, Bool, true, false, none, List, [], ◌∷◌,
  ◌++◌, str_eq, str_eq_refl, eq_iff, ltb, leb, if◌then◌else◌, length, filter, any, append-nil,
  Bool-cases, arith, subst, lookup, insert, erase, lookup-erase,
}
use apex_chainx_backend.RateLimit.{
  Limits, Requests, hits_of, alive, window_ms, keys, is_stale, erase_all, expired, cull_expired,
  prepared, is_allowed,
}
use apex_chainx_backend.RateLimit.Tracked.{
  Stands, IsTracked-swept, IsTracked-pruned, IsTracked-hit, IsTracked-later, filter_again,
  hits_of-insert, Stands-insert,
}
use apex_chainx_backend.RateLimit.Window.{
  Call, times, times-append, admits, promised, admitted, admitted-promised, IsOrdered, latest,
  within, promised-le,
}

lookup-erase_all :
    (key : String) (gone : List String) (requests : Requests)
    → lookup key (erase_all gone requests)
      ≡ (if any (str_eq key) gone then none else lookup key requests)
unfolding erase_all
lookup-erase_all key [] requests = refl
lookup-erase_all key (k ∷ gone) requests = ground (
  arith,
  lookup-erase_all key gone (erase k requests),
  lookup-erase k key requests,
  eq_iff k key,
  eq_iff key k,
)

any-filter :
    (key : String) (test : String → Bool) (xs : List String)
    → any (str_eq key) (filter test xs) ≡ true
    → test key ≡ true
any-filter key test [] h = ground arith
any-filter key test (x ∷ xs) h = elim (Bool-cases (test x)) [
  | inr miss ↦ any-filter key test xs (ground (arith, h, miss))
  | inl hit ↦ elim (Bool-cases (str_eq key x)) [
    | inl same ↦
        let e : x ≡ key = ground (arith, eq_iff key x, same) in subst (λ k. test k ≡ true) e hit
    | inr other ↦ any-filter key test xs (ground (arith, h, hit, other))
  ]
]

module _ (limits : Limits) where
  -- A sweep leaves the hits of a key, or drops hits that are dead.
  hits_of-swept :
      (key : String) (now : ℕ) (requests : Requests)
      → (hits_of key (cull_expired limits now requests).0 ≡ hits_of key requests)
        ⊎ ((hits_of key (cull_expired limits now requests).0 ≡ [])
            × (is_stale (window_ms limits) now (hits_of key requests) ≡ true))
  unfolding cull_expired expired
  hits_of-swept key now requests =
      let gone = expired (window_ms limits) now requests in
      let found = lookup-erase_all key gone requests in
      elim (Bool-cases (any (str_eq key) gone)) [
        | inr stays ↦ inl (rw (found, stays) refl)
        | inl goes ↦ inr (
          rw (found, goes) refl,
          any-filter key (λ k. is_stale (window_ms limits) now (hits_of k requests)) (keys requests)
              goes,
        )
      ]

  Stands-prepared :
      (now : ℕ) (key : String) (requests : Requests) (past : List Call)
      → Stands (window_ms limits) now requests past
      → Stands (window_ms limits) now (prepared limits key now requests) past
  unfolding prepared
  Stands-prepared now key requests past h =
      let kept = filter (alive (window_ms limits) now) (hits_of key requests) in
      let pruned = insert key kept requests in
      let tidy =
        Stands-insert (window_ms limits) now key kept requests past (λ j _. h j)
          (IsTracked-pruned (window_ms limits) now _ _ (h key)) in
      elim (Bool-cases (ltb 1024 (length pruned))) [
        | inr few ↦ rw few tidy
        | inl many ↦ rw many (λ j.
            IsTracked-swept (window_ms limits) now _ _ _ (hits_of-swept j now pruned) (tidy j))
      ]

  -- The prepared hits of the key are alive.
  prepared-alive :
      (now : ℕ) (key : String) (requests : Requests)
      → let hits = hits_of key (prepared limits key now requests) in
        filter (alive (window_ms limits) now) hits ≡ hits
  unfolding prepared
  prepared-alive now key requests =
      let live = alive (window_ms limits) now in
      let kept = filter live (hits_of key requests) in
      let pruned = insert key kept requests in
      let stored : hits_of key pruned ≡ kept =
        rw (hits_of-insert (window_ms limits) key key kept requests, str_eq_refl key) refl in
      let again : filter live (hits_of key pruned) ≡ hits_of key pruned =
        rw stored (filter_again (window_ms limits) now now (omega arith) (hits_of key requests)) in
      elim (Bool-cases (ltb 1024 (length pruned))) [
        | inr few ↦ rw few again
        | inl many ↦ elim (hits_of-swept key now pruned) [
          | inl same ↦ rw (many, same) again
          | inr (gone, _) ↦ rw (many, gone) refl
        ]
      ]

  is_allowed-answers :
      (now : ℕ) (key : String) (requests : Requests) (past : List Call)
      → Stands (window_ms limits) now requests past
      → (is_allowed limits key now requests).1
        ≡ admits limits.requests (within (window_ms limits)) key now past
  unfolding is_allowed
  is_allowed-answers now key requests past h =
      let ready = prepared limits key now requests in
      let (_, _, same) = Stands-prepared now key requests past h key in
      let counted : length (hits_of key ready)
          ≡ length (filter (within (window_ms limits) now) (times key past)) =
        ap length (sym (prepared-alive now key requests) ∙ same now (omega arith)) in
      ground (arith, counted)

  is_allowed-Stands :
      (now : ℕ) (key : String) (requests : Requests) (past : List Call)
      → Stands (window_ms limits) now requests past
      → Stands (window_ms limits) now (is_allowed limits key now requests).0 (
          if admits limits.requests (within (window_ms limits)) key now past
          then past ++ (key, now) ∷ []
          else past)
  unfolding is_allowed
  is_allowed-Stands now key requests past h =
      let ready = prepared limits key now requests in
      let here = Stands-prepared now key requests past h in
      let answer = is_allowed-answers now key requests past h in
      elim (Bool-cases (leb limits.requests (length (hits_of key ready)))) [
        | inl full ↦
            let refused : admits limits.requests (within (window_ms limits)) key now past ≡ false =
              sym answer ∙ rw (full, is_allowed) refl in
            rw (refused, full, is_allowed)
              (Stands-insert (window_ms limits) now key (hits_of key ready) ready past
                (λ j _. here j) (here key))
        | inr room ↦
            let granted : admits limits.requests (within (window_ms limits)) key now past ≡ true =
              sym answer ∙ rw (room, is_allowed) refl in
            rw (granted, room, is_allowed)
              (Stands-insert (window_ms limits) now key (hits_of key ready ++ now ∷ []) ready
                (past ++ (key, now) ∷ [])
                (λ j other.
                  rw (times-append j key now past, other, append-nil (times j past)) (here j))
                (rw (times-append key key now past, str_eq_refl key)
                  (IsTracked-hit (window_ms limits) now _ _ (here key))))
      ]

  -- While the clock does not run backwards, the in-process limiter admits exactly the calls that
  -- the sliding window promises, also across the sweeps of expired keys.
  pub is_allowed-promised :
      (calls : List Call)
      → IsOrdered 0 calls
      → admitted (is_allowed limits) calls [] []
        ≡ promised limits.requests (within (window_ms limits)) calls []
  unfolding lookup
  is_allowed-promised calls ordered =
      admitted-promised (is_allowed limits) limits.requests (within (window_ms limits))
        (Stands (window_ms limits)) is_allowed-answers
        (λ before now s past le h key. IsTracked-later (window_ms limits) before now _ _ le (h key))
        is_allowed-Stands calls 0 [] [] ordered (λ key. (tt, tt, λ n le. refl))

  -- At the moment of its last call and later, the in-process limiter has admitted at most the
  -- configured number of calls of a key within the window.
  pub is_allowed-le :
      (calls : List Call) (key : String) (now : ℕ)
      → IsOrdered 0 calls
      → latest 0 calls ≤ now
      → length (
          filter
            (within (window_ms limits) now)
            (times key (admitted (is_allowed limits) calls [] [])))
        ≤ limits.requests
  is_allowed-le calls key now ordered h = rw (is_allowed-promised calls ordered) (
      promised-le limits.requests (window_ms limits) calls 0 now key [] ordered
        (λ n le. omega arith) h)
