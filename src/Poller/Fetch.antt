-- ===== src/Poller/Fetch.antt =====
-- `_fetch_with_retry` of app/services/block_poller.py: how often it asks, how long it sleeps, and what it
-- returns.
use apex_chainx_backend.Common.{
  ℕ, zero, suc, ◌+◌, ◌≤◌, ◌<◌, ◌≡◌, refl, sym, subst, ap, Bool, true, false, not, ◌||◌, List, arith,
  leb, length, All, inl, inr, Bool-cases, ◌⊎◌,
}
use apex_chainx_backend.Poller.{
  Error, Result, ok, err, Response, Config, Block, attempt_of, is_retryable, Fetched, fetch_loop,
  fetch_with_retry,
}

pub Result-cases :
    {A : Type 0} (r : Result A) → ((e : Error) × (r ≡ err e)) ⊎ ((a : A) × (r ≡ ok a))
Result-cases (err e) = inl (e, refl)
Result-cases (ok a) = inr (a, refl)

-- What holds of a run of the loop that begins at an attempt.
abbrev IsFetched : Config → (ℕ → Response) → ℕ → Fetched → Type 0
IsFetched cfg responses attempt r =
    (attempt ≤ r.attempts)
    × (r.attempts ≤ cfg.max_attempts)
    × (r.outcome ≡ attempt_of (responses r.attempts))
    × (attempt + length r.sleeps ≡ r.attempts)
    × All (λ delay. delay ≤ cfg.retry_max_delay) r.sleeps

loop-IsFetched :
    (cfg : Config) (responses : ℕ → Response) (left attempt : ℕ)
    → attempt + left ≡ suc cfg.max_attempts
    → 1 ≤ left
    → IsFetched cfg responses attempt (fetch_loop cfg responses left attempt)
unfolding fetch_loop
loop-IsFetched cfg responses zero attempt h some_left = absurd (omega arith)
loop-IsFetched cfg responses (suc left) attempt h some_left =
    elim (Result-cases (attempt_of (responses attempt))) [
      | inr (blocks, good) ↦
          rw (good, fetch_loop) (omega arith, ground arith, sym good, omega arith, tt)
      | inl (e, bad) ↦ elim (Bool-cases (not (is_retryable e) || leb cfg.max_attempts attempt)) [
        | inl stop ↦
            rw (bad, stop, fetch_loop) (omega arith, ground arith, sym bad, omega arith, tt)
        | inr again ↦
            let (low, high, last, slept, bounded) =
              loop-IsFetched cfg responses left (suc attempt) (omega arith) (ground arith) in
            rw (bad, again, fetch_loop)
              (omega arith, high, last, omega arith, (omega arith, bounded))
      ]
    ]

-- With at least one attempt allowed: the source is asked at least once and at most `max_attempts`
-- times, the outcome is that of the last attempt, one delay is slept before every further attempt, and
-- no delay is over the limit.
pub fetch_with_retry_lem :
    (cfg : Config) (responses : ℕ → Response)
    → 1 ≤ cfg.max_attempts
    → let r = fetch_with_retry cfg responses in
      (1 ≤ r.attempts)
      × (r.attempts ≤ cfg.max_attempts)
      × (r.outcome ≡ attempt_of (responses r.attempts))
      × (1 + length r.sleeps ≡ r.attempts)
      × All (λ delay. delay ≤ cfg.retry_max_delay) r.sleeps
unfolding fetch_with_retry
fetch_with_retry_lem cfg responses h =
    loop-IsFetched cfg responses cfg.max_attempts 1 (omega arith) h

-- A transient failure of the source.
abbrev pub is_transient : Result (List Block) → Bool
is_transient (ok blocks) = false
is_transient (err e) = is_retryable e

loop_recovers :
    (cfg : Config) (responses : ℕ → Response) (left attempt k : ℕ) (blocks : List Block)
    → k < left
    → attempt + k ≤ cfg.max_attempts
    → ((j : ℕ) → j < k → is_transient (attempt_of (responses (attempt + j))) ≡ true)
    → attempt_of (responses (attempt + k)) ≡ ok blocks
    → ((fetch_loop cfg responses left attempt).outcome ≡ ok blocks)
      × ((fetch_loop cfg responses left attempt).attempts ≡ attempt + k)
unfolding fetch_loop
loop_recovers cfg responses zero attempt k blocks h h' transient good = absurd (omega arith)
loop_recovers cfg responses (suc left) attempt zero blocks h h' transient good =
    let e : attempt + 0 ≡ attempt = omega arith in
    let now : attempt_of (responses attempt) ≡ ok blocks =
      subst (λ n. attempt_of (responses n) ≡ ok blocks) e good in
    rw (now, fetch_loop) (refl, sym e)
loop_recovers cfg responses (suc left) attempt (suc k) blocks h h' transient good =
    let now : is_transient (attempt_of (responses attempt)) ≡ true =
      subst (λ n. is_transient (attempt_of (responses n)) ≡ true) (omega arith)
        (transient 0 (omega arith)) in
    elim (Result-cases (attempt_of (responses attempt))) [
      | inr (early, ok_early) ↦ absurd (ground arith)
      | inl (e, bad) ↦
          let again : not (is_retryable e) || leb cfg.max_attempts attempt ≡ false =
            ground (arith, ap is_transient bad) in
          let shifted : (j : ℕ) → attempt + suc j ≡ suc attempt + j = λ j. omega arith in
          let (outcome, attempts) =
            loop_recovers cfg responses left (suc attempt) k blocks (omega arith) (omega arith)
              (λ j less.
                subst (λ n. is_transient (attempt_of (responses n)) ≡ true) (shifted j)
                  (transient (suc j) (omega arith)))
              (subst (λ n. attempt_of (responses n) ≡ ok blocks) (shifted k) good) in
          rw (bad, again, fetch_loop) (outcome, omega arith)
    ]

-- If the first k attempts fail in a way that is worth a retry, and the next one, still among those
-- allowed, gives a page, then this page is returned.
pub fetch_recovers :
    (cfg : Config) (responses : ℕ → Response) (k : ℕ) (blocks : List Block)
    → k < cfg.max_attempts
    → ((j : ℕ) → j < k → is_transient (attempt_of (responses (1 + j))) ≡ true)
    → attempt_of (responses (1 + k)) ≡ ok blocks
    → let r = fetch_with_retry cfg responses in (r.outcome ≡ ok blocks) × (r.attempts ≡ 1 + k)
unfolding fetch_with_retry
fetch_recovers cfg responses k blocks h transient good =
    loop_recovers cfg responses cfg.max_attempts 1 k blocks h (omega arith) transient good
