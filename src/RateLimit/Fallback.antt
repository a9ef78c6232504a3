-- ===== src/RateLimit/Fallback.antt =====
-- The limiter of app/core/rate_limiter.py while Redis does not answer.
use apex_chainx_backend.Common.{
  ℕ, ◌≡◌, ◌≢◌, refl, ap, ap₂, ◌∙◌, inl, inr, String, Bool, true, false, not, ◌||◌, List, [], ◌∷◌,
  ◌++◌, if◌then◌else◌, Bool-cases,
}
use apex_chainx_backend.RateLimit.{Requests, is_allowed, window_ms}
use apex_chainx_backend.RateLimit.Window.{Call, promised, admitted, IsOrdered, within}
use apex_chainx_backend.RateLimit.Memory.{is_allowed-promised}
use apex_chainx_backend.RateLimit.Redis.{
  Env, State, Reach, reached, raised, eval_with_retry, is_circuit_open, trip_circuit, fall_back,
  is_allowed_shared,
}
use apex_chainx_backend.RateLimit.Script.{eval_with_retry-IsRetried}

module _ (env : Env) (reach : ℕ → Reach) (down : (attempt : ℕ) → reach attempt ≢ reached) where
  -- The decisions of the limiter without a session, whose attempts all fail.
  abbrev pub failing_step : String → ℕ → State → State × Bool
  failing_step key now s =
      let (s', allowed, delays) = is_allowed_shared env reach key now s in (s', allowed)

  eval_with_retry-raised :
      (key : String) (now : ℕ) (sets : Requests)
      → (retry : Bool) × (after : Requests) × ((eval_with_retry env.limits reach key now sets).0
          ≡ raised retry after)
  eval_with_retry-raised key now sets =
      elim (eval_with_retry-IsRetried env.limits reach key now sets).2 [
        | inl (last, _) ↦ absurd (down _ last)
        | inr (inl (_, _, out)) ↦ (true, _, out)
        | inr (inr (_, out)) ↦ (false, _, out)
      ]

  failing_step-lem :
      (key : String) (now : ℕ) (s : State)
      → ((failing_step key now s).0.fallback ≡ (is_allowed env.limits key now s.fallback).0)
        × ((failing_step key now s).1 ≡ (is_allowed env.limits key now s.fallback).1)
  unfolding is_allowed_shared fall_back trip_circuit
  failing_step-lem key now s =
      elim (Bool-cases (not env.use_redis || env.eager || is_circuit_open now s)) [
        | inl direct ↦ rw (direct, is_allowed_shared) (refl, refl)
        | inr asks ↦
            let (retry, after, out) = eval_with_retry-raised key now s.sets in
            rw (asks, out, is_allowed_shared) (refl, refl)
      ]

  admitted-failing_step :
      (calls : List Call) (s : State) (past : List Call)
      → admitted failing_step calls s past ≡ admitted (is_allowed env.limits) calls s.fallback past
  unfolding admitted
  admitted-failing_step [] s past = refl
  admitted-failing_step ((key, now) ∷ calls) s past =
      let (kept, answer) = failing_step-lem key now s in
      admitted-failing_step calls (failing_step key now s).0 _
      ∙ ap₂
          (λ requests allowed.
            admitted (is_allowed env.limits) calls requests
              (if allowed then past ++ (key, now) ∷ [] else past))
          kept answer

  -- While no attempt has an answer of Redis and the clock does not run backwards, the limiter without a
  -- session, from an empty state, admits exactly the calls that the sliding window promises.
  pub is_allowed_shared-promised :
      (calls : List Call) (s : State)
      → s.fallback ≡ []
      → IsOrdered 0 calls
      → admitted failing_step calls s []
        ≡ promised env.limits.requests (within (window_ms env.limits)) calls []
  is_allowed_shared-promised calls s fresh ordered =
      admitted-failing_step calls s []
      ∙ ap (λ requests. admitted (is_allowed env.limits) calls requests []) fresh
      ∙ is_allowed-promised env.limits calls ordered
