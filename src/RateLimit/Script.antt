-- ===== src/RateLimit/Script.antt =====
-- The script of Redis keeps the promise of the sliding window, and the retries of
-- app/core/rate_limiter.py are few.
use apex_chainx_backend.Common.{
  ℕ, suc, zero, ◌+◌, ◌/◌, ◌≤◌, ◌≡◌, refl, sym, ap, subst, ◌∙◌, inl, inr, ◌⊎◌, String, Bool, true,
  false, List, [], ◌∷◌, ◌++◌, str_eq_refl, leb, if◌then◌else◌, length, filter, append-nil,
  Bool-cases, arith, All, lookup,
}
use apex_chainx_backend.RateLimit.{Limits, Requests, hits_of, alive, rate_limiter_lua}
use apex_chainx_backend.RateLimit.Window.{
  Call, times, times-append, admits, promised, admitted, admitted-promised, IsOrdered, within,
}
use apex_chainx_backend.RateLimit.Tracked.{
  Stands, IsTracked-pruned, IsTracked-hit, IsTracked-later, Stands-insert,
}
use apex_chainx_backend.RateLimit.Redis.{
  Reach, reached, retryable, unexpected, Evaluated, answered, raised, backoff_delay, eval_loop,
  eval_with_retry,
}

module _ (limits : Limits) where
  rate_limiter_lua-answers :
      (now : ℕ) (key : String) (sets : Requests) (past : List Call)
      → Stands limits.window_seconds now sets past
      → (rate_limiter_lua limits key now sets).1
        ≡ admits limits.requests (within limits.window_seconds) key now past
  unfolding rate_limiter_lua
  rate_limiter_lua-answers now key sets past h =
      let (_, _, same) = h key in
      let counted = ap length (same now (omega arith)) in ground (arith, counted)

  rate_limiter_lua-Stands :
      (now : ℕ) (key : String) (sets : Requests) (past : List Call)
      → Stands limits.window_seconds now sets past
      → Stands limits.window_seconds now (rate_limiter_lua limits key now sets).0 (
          if admits limits.requests (within limits.window_seconds) key now past
          then past ++ (key, now) ∷ []
          else past)
  unfolding rate_limiter_lua
  rate_limiter_lua-Stands now key sets past h =
      let window = limits.window_seconds in
      let kept = filter (alive window now) (hits_of key sets) in
      let own = IsTracked-pruned window now (hits_of key sets) (times key past) (h key) in
      let answer = rate_limiter_lua-answers now key sets past h in
      elim (Bool-cases (leb limits.requests (length kept))) [
        | inl full ↦
            let refused : admits limits.requests (within window) key now past ≡ false =
              sym answer ∙ rw (full, rate_limiter_lua) refl in
            rw (refused, full, rate_limiter_lua)
              (Stands-insert window now key kept sets past (λ j _. h j) own)
        | inr room ↦
            let granted : admits limits.requests (within window) key now past ≡ true =
              sym answer ∙ rw (room, rate_limiter_lua) refl in
            rw (granted, room, rate_limiter_lua)
              (Stands-insert window now key (kept ++ now ∷ []) sets (past ++ (key, now) ∷ [])
                (λ j other.
                  rw (times-append j key now past, other, append-nil (times j past)) (h j))
                (rw (times-append key key now past, str_eq_refl key)
                  (IsTracked-hit window now kept (times key past) own)))
      ]

  -- While the clock does not run backwards, the script of Redis admits exactly the calls that the
  -- sliding window promises.
  pub rate_limiter_lua-promised :
      (calls : List Call)
      → IsOrdered 0 calls
      → admitted (rate_limiter_lua limits) calls [] []
        ≡ promised limits.requests (within limits.window_seconds) calls []
  unfolding lookup
  rate_limiter_lua-promised calls ordered =
      let window = limits.window_seconds in
      admitted-promised (rate_limiter_lua limits) limits.requests (within window) (Stands window)
        rate_limiter_lua-answers
        (λ before now s past le h key. IsTracked-later window before now _ _ le (h key))
        rate_limiter_lua-Stands calls 0 [] [] ordered (λ key. (tt, tt, λ n le. refl))

-- An attempt that failed and has run the script all the same.
abbrev pub has_run : Reach → Bool
has_run reached = true
has_run (retryable ran) = ran
has_run (unexpected ran) = ran

Reach-cases :
    (r : Reach)
    → (r ≡ reached) ⊎ ((ran : Bool) × (r ≡ retryable ran)) ⊎ ((ran : Bool) × (r ≡ unexpected ran))
Reach-cases reached = inl refl
Reach-cases (retryable ran) = inr (inl (ran, refl))
Reach-cases (unexpected ran) = inr (inr (ran, refl))

backoff_delay-le : (attempt : ℕ) → backoff_delay attempt ≤ 500
unfolding backoff_delay
backoff_delay-le attempt = omega arith

module _ (limits : Limits) (reach : ℕ → Reach) (key : String) (now : ℕ) where
  -- The script at the time of the call.
  abbrev pub script : Requests → Requests × Bool
  script sets = rate_limiter_lua limits key (now / 1000) sets

  -- The sets after `count` attempts from `attempt` on: each that has run the script leaves its hit.
  abbrev pub after_attempts : ℕ → ℕ → Requests → Requests
  after_attempts zero attempt sets = sets
  after_attempts (suc count) attempt sets =
      after_attempts count (attempt + 1) (if has_run (reach attempt) then (script sets).0 else sets)

  -- How the loop ends that found `before` at its last attempt.
  abbrev pub IsLast : Reach → Requests → ℕ → Evaluated × List ℕ → Type 0
  IsLast last before left (outcome, delays) =
      let after = if has_run last then (script before).0 else before in
      (length delays ≤ left)
      × All (λ delay. delay ≤ 500) delays
      × (((last ≡ reached) × (outcome ≡ answered (script before).1 after))
          ⊎ (((ran : Bool) × (last ≡ retryable ran))
              × (length delays ≡ left)
              × (outcome ≡ raised true after))
          ⊎ (((ran : Bool) × (last ≡ unexpected ran)) × (outcome ≡ raised false after)))

  -- How the loop over the attempts ends, with `left` attempts after the one at hand.
  abbrev pub IsRetried : ℕ → ℕ → Requests → Evaluated × List ℕ → Type 0
  IsRetried attempt left sets (outcome, delays) =
      IsLast (reach (attempt + length delays)) (after_attempts (length delays) attempt sets) left
        (outcome, delays)

  at_once :
      (last : Reach) (left attempt : ℕ) (sets : Requests) (outcome : Evaluated)
      → reach attempt ≡ last
      → IsLast last sets left (outcome, [])
      → IsRetried attempt left sets (outcome, [])
  at_once last left attempt sets outcome e ends =
      subst (λ r. IsLast r sets left (outcome, [])) (sym (ap reach (omega arith) ∙ e)) ends

  eval_loop-IsRetried :
      (left attempt : ℕ) (sets : Requests)
      → IsRetried attempt left sets (eval_loop limits reach key now attempt left sets)
  unfolding eval_loop
  eval_loop-IsRetried zero attempt sets = elim (Reach-cases (reach attempt)) [
    | inl e ↦
        rw (e, eval_loop) (at_once reached 0 attempt sets _ e (omega arith, tt, inl (refl, refl)))
    | inr (inl (ran, e)) ↦
        rw (e, eval_loop)
          (at_once (retryable ran) 0 attempt sets _ e
            (omega arith, tt, inr (inl ((ran, refl), refl, refl))))
    | inr (inr (ran, e)) ↦
        rw (e, eval_loop)
          (at_once (unexpected ran) 0 attempt sets _ e
            (omega arith, tt, inr (inr ((ran, refl), refl))))
  ]
  eval_loop-IsRetried (suc left) attempt sets = elim (Reach-cases (reach attempt)) [
    | inl e ↦
        rw (e, eval_loop)
          (at_once reached (suc left) attempt sets _ e (omega arith, tt, inl (refl, refl)))
    | inr (inr (ran, e)) ↦
        rw (e, eval_loop)
          (at_once (unexpected ran) (suc left) attempt sets _ e
            (omega arith, tt, inr (inr ((ran, refl), refl))))
    | inr (inl (ran, e)) ↦
        let next = if ran then (script sets).0 else sets in
        let (outcome, delays) = eval_loop limits reach key now (attempt + 1) left next in
        let (count, small, end) = eval_loop-IsRetried left (attempt + 1) next in
        let shift : reach (attempt + 1 + length delays) ≡ reach (attempt + suc (length delays)) =
          ap reach (omega arith) in
        let before = after_attempts (length delays) (attempt + 1) next in
        let ends : IsLast (reach (attempt + suc (length delays))) before (suc left)
            (outcome, backoff_delay attempt ∷ delays) =
          subst (λ r. IsLast r before (suc left) (outcome, backoff_delay attempt ∷ delays)) shift
            (
              omega (arith, count),
              (backoff_delay-le attempt, small),
              elim end [
                | inl done ↦ inl done
                | inr (inl (last, full, out)) ↦ inr (inl (last, ap suc full, out))
                | inr (inr failed) ↦ inr (inr failed)
              ],
            ) in
        let same =
          ap
            (λ r.
              after_attempts (length delays) (attempt + 1)
                (if has_run r then (script sets).0 else sets))
            (sym e) in
        rw (e, eval_loop)
          (subst
            (λ sets'.
              IsLast (reach (attempt + suc (length delays))) sets' (suc left)
                (outcome, backoff_delay attempt ∷ delays))
            same ends)
  ]

  -- Redis is asked at most three times, with at most half a second before each further attempt. The
  -- outcome is that of the last attempt: the answer of the script on the sets that the attempts
  -- before it left, a retryable error after the third attempt, or another error. The sets that are
  -- left have the hit of each attempt that has run the script, those included whose answer was lost.
  pub eval_with_retry-IsRetried :
      (sets : Requests) → IsRetried 1 2 sets (eval_with_retry limits reach key now sets)
  unfolding eval_with_retry
  eval_with_retry-IsRetried sets = eval_loop-IsRetried 2 1 sets
