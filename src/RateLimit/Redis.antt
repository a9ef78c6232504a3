-- ===== src/RateLimit/Redis.antt =====
-- The limiter over Redis (app/core/rate_limiter.py): retries, the circuit, and the fallbacks to the
-- in-process limiter and to the ledger. One reading of the clock stands for a call.
use apex_chainx_backend.Common.{
  ℕ, suc, zero, ◌+◌, ◌-◌, ◌*◌, ◌/◌, ◌^◌, min, String, Bool, true, false, not, ◌||◌, Option, none,
  some, List, [], ◌∷◌, ltb, if◌then◌else◌,
}
use apex_chainx_backend.RateLimit.{Limits, Requests, is_allowed as memory_allowed, rate_limiter_lua}
use apex_chainx_backend.RateLimit.Ledger.{LedgerEnv, Rows, record_rate_limit_attempt}

-- How one attempt ends: with the answer of the script, with an error that is worth a retry, or with
-- another error. An error says whether the script has run all the same, its answer being lost.
pub data Reach : Type 0 where
  reached : Reach
  retryable : Bool → Reach
  unexpected : Bool → Reach

-- The sorted sets of Redis, the tables and the process.
pub record State : Type 0 where
  pub sets : Requests
  pub ledger : Rows
  pub fallback : Requests
  pub disabled_until : Option ℕ

-- The settings; `eager` is `CELERY_TASK_ALWAYS_EAGER`.
pub record Env : Type 0 where
  pub limits : Limits
  pub ledger : LedgerEnv
  pub use_redis : Bool
  pub eager : Bool

-- `_backoff_delay`, in milliseconds.
unfoldable pub backoff_delay : ℕ → ℕ
backoff_delay attempt = min (50 * 2 ^ (attempt - 1)) 500

-- The end of the retries, with the sets that are left: the answer of the script, or the error that is
-- raised.
pub data Evaluated : Type 0 where
  answered : Bool → Requests → Evaluated
  raised : Bool → Requests → Evaluated

-- The sets after an attempt that failed.
abbrev pub after_failure : Bool → Requests → Requests → Requests
after_failure ran sets' sets = if ran then sets' else sets

-- The loop over attempts `attempt` to 3 of `_eval_with_retry`; `left` is the number of attempts that
-- follow. It returns the delays too. `raised true` is a retryable error.
unfoldable pub eval_loop : Limits → (ℕ → Reach) → String → ℕ → ℕ → ℕ → Requests → Evaluated × List ℕ
eval_loop limits reach key now attempt zero sets =
    let (sets', allowed) = rate_limiter_lua limits key (now / 1000) sets in
    elim (reach attempt) [
      | reached ↦ (answered allowed sets', [])
      | retryable ran ↦ (raised true (after_failure ran sets' sets), [])
      | unexpected ran ↦ (raised false (after_failure ran sets' sets), [])
    ]
eval_loop limits reach key now attempt (suc left) sets =
    let (sets', allowed) = rate_limiter_lua limits key (now / 1000) sets in
    elim (reach attempt) [
      | reached ↦ (answered allowed sets', [])
      | retryable ran ↦
          let (outcome, delays) =
            eval_loop limits reach key now (attempt + 1) left (after_failure ran sets' sets) in
          (outcome, backoff_delay attempt ∷ delays)
      | unexpected ran ↦ (raised false (after_failure ran sets' sets), [])
    ]

unfoldable pub eval_with_retry : Limits → (ℕ → Reach) → String → ℕ → Requests → Evaluated × List ℕ
eval_with_retry limits reach key now sets = eval_loop limits reach key now 1 2 sets

unfoldable pub is_circuit_open : ℕ → State → Bool
is_circuit_open now s = elim s.disabled_until [ none ↦ false | some until ↦ ltb now until ]

unfoldable pub trip_circuit : ℕ → State → State
trip_circuit now s = record s { disabled_until = some (now + 30000) }

module _ (env : Env) where
  -- The answer of the in-process limiter.
  unfoldable pub fall_back : String → ℕ → State → State × Bool
  fall_back key now s =
      let (requests, allowed) = memory_allowed env.limits key now s.fallback in
      (record s { fallback = requests }, allowed)

  -- `is_allowed` without a session, and `is_allowed_async`, which differs in its sleep only.
  unfoldable pub is_allowed_shared : (ℕ → Reach) → String → ℕ → State → State × Bool × List ℕ
  is_allowed_shared reach key now s =
      let (outcome, delays) = eval_with_retry env.limits reach key now s.sets in
      let (fallen, allowed) = fall_back key now s in
      let (tripped, allowed') = fall_back key now (trip_circuit now s) in
      if not env.use_redis || env.eager || is_circuit_open now s
      then (fallen, allowed, [])
      else elim outcome [
        | answered granted sets' ↦ (record s { sets = sets' }, granted, delays)
        | raised _ sets' ↦ (record tripped { sets = sets' }, allowed', delays)
      ]

  -- `is_allowed` with a session. The coroutine that it would run is looked up on the limiter, which
  -- has no such method: the AttributeError is caught as an unexpected error.
  unfoldable pub is_allowed_ledger : String → String → ℕ → State → State × Bool
  is_allowed_ledger fresh key now s =
      let (rows, recorded) =
        record_rate_limit_attempt env.ledger fresh key env.limits.requests env.limits.window_seconds
          now s.ledger in
      let s' : State = record s { ledger = rows } in
      if not recorded
      then (s', false)
      else if not env.use_redis || env.eager || is_circuit_open now s'
      then (s', true)
      else (trip_circuit now s', true)
