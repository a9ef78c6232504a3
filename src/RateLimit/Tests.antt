-- ===== src/RateLimit/Tests.antt =====
-- Rate limits of app/core/rate_limiter.py on concrete calls.
use apex_chainx_backend.Common.{
  ℕ, ◌≤◌, ◌≡◌, refl, true, false, none, List, [], ◌∷◌, arith, length, filter,
}
use apex_chainx_backend.RateLimit.{Limits, is_allowed, rate_limiter_lua}
use apex_chainx_backend.RateLimit.Window.{IsOrdered, Call, times, promised, admitted, within}
use apex_chainx_backend.RateLimit.Memory.{is_allowed-promised, is_allowed-le}
use apex_chainx_backend.RateLimit.Redis.{Env, State, Reach, reached, retryable, eval_with_retry}
use apex_chainx_backend.RateLimit.Script.{
  IsRetried, rate_limiter_lua-promised, eval_with_retry-IsRetried,
}
use apex_chainx_backend.RateLimit.Fallback.{failing_step, is_allowed_shared-promised}

abbrev limits : Limits
limits = record { requests = 2; window_seconds = 300 }

abbrev calls : List Call
calls = ("ip", 1000) ∷ ("ip", 2000) ∷ ("other", 2000) ∷ ("ip", 3000) ∷ ("ip", 301000) ∷ []

ordered : IsOrdered 0 calls
ordered = (omega arith, (omega arith, (omega arith, (omega arith, (omega arith, tt)))))

is_allowed-promised_example :
    admitted (is_allowed limits) calls [] [] ≡ promised 2 (within 300000) calls []
is_allowed-promised_example = is_allowed-promised limits calls ordered

is_allowed-le_example :
    length (filter (within 300000 301000) (times "ip" (admitted (is_allowed limits) calls [] [])))
    ≤ 2
is_allowed-le_example = is_allowed-le limits calls "ip" 301000 ordered (omega arith)

rate_limiter_lua-promised_example :
    admitted (rate_limiter_lua limits) calls [] [] ≡ promised 2 (within 300) calls []
rate_limiter_lua-promised_example = rate_limiter_lua-promised limits calls ordered

abbrev down : ℕ → Reach
down attempt = retryable true

eval_with_retry-IsRetried_example :
    IsRetried limits down "ip" 5000 1 2 [] (eval_with_retry limits down "ip" 5000 [])
eval_with_retry-IsRetried_example = eval_with_retry-IsRetried limits down "ip" 5000 []

abbrev env : Env
env = record {
  limits = limits;
  ledger = record {
    window_seconds = 300;
    stuffing_minutes = 5;
    sha256 = λ text. text;
    prefix = λ text. text;
  };
  use_redis = true;
  eager = false;
}

abbrev start : State
start = record { sets = []; ledger = []; fallback = []; disabled_until = none }

down_fails : (attempt : ℕ) → ¬ (down attempt ≡ reached)
down_fails attempt e = ground arith

is_allowed_shared-promised_example :
    admitted (failing_step env down down_fails) calls start [] ≡ promised 2 (within 300000) calls []
is_allowed_shared-promised_example =
    is_allowed_shared-promised env down down_fails calls start refl ordered
