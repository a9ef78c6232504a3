-- ===== src/RateLimit.antt =====
-- Rate limits (app/core/rate_limiter.py): the in-process limiter, the Lua script of Redis and the
-- limiter that chooses between them. Times are in milliseconds, those of the script in seconds.
pub mod Ledger
pub mod Window
pub mod Tracked
pub mod Memory
pub mod Redis
pub mod Script
pub mod Fallback
mod Tests
use Prim.Native.String.{◌++◌ as append}
use apex_chainx_backend.Common.{
  ℕ, suc, zero, ◌+◌, ◌-◌, ◌*◌, ◌/◌, ◌^◌, min, String, Bool, true, false, not, ◌&&◌, ◌||◌, Option,
  none, some, List, [], ◌∷◌, ◌++◌, ltb, leb, if◌then◌else◌, get_or, length, filter, Dict, lookup,
  insert, erase,
}

-- `AUTH_RATE_LIMIT_REQUESTS`, `AUTH_RATE_LIMIT_WINDOW_SECONDS`.
pub record Limits : Type 0 where
  pub requests : ℕ
  pub window_seconds : ℕ

-- The hits of each key, as `SimpleRateLimiter._shared`; a missing key reads as no hits.
abbrev pub Requests : Type 0
Requests = Dict (List ℕ)

abbrev pub hits_of : String → Requests → List ℕ
hits_of key requests = get_or (lookup key requests) []

-- `t > now - window`
abbrev pub alive : ℕ → ℕ → ℕ → Bool
alive window now t = ltb now (t + window)

abbrev pub window_ms : Limits → ℕ
window_ms limits = limits.window_seconds * 1000

abbrev pub keys {ℓ} : {V : Type ℓ} → Dict V → List String
keys [] = []
keys ((k, v) ∷ d) = k ∷ keys d

-- `not hits or hits[-1] <= window_start`
unfoldable pub is_stale : ℕ → ℕ → List ℕ → Bool
is_stale window now [] = true
is_stale window now (t ∷ []) = not (alive window now t)
is_stale window now (t ∷ u ∷ hits) = is_stale window now (u ∷ hits)

-- `for key in expired: del self.requests[key]`
unfoldable pub erase_all : List String → Requests → Requests
erase_all [] requests = requests
erase_all (key ∷ more) requests = erase_all more (erase key requests)

-- The keys that `cull_expired` collects.
unfoldable pub expired : ℕ → ℕ → Requests → List String
expired window now requests =
    filter (λ key. is_stale window now (hits_of key requests)) (keys requests)

module _ (limits : Limits) where
  -- The new dictionary, and the number of keys removed.
  unfoldable pub cull_expired : ℕ → Requests → Requests × ℕ
  unfolding expired erase_all
  cull_expired now requests =
      let gone = expired (window_ms limits) now requests in (erase_all gone requests, length gone)

  -- The key is pruned, and all keys are swept once there are more than 1024.
  unfoldable pub prepared : String → ℕ → Requests → Requests
  prepared key now requests =
      let pruned =
        insert key (filter (alive (window_ms limits) now) (hits_of key requests)) requests in
      let swept = (cull_expired now pruned).0 in if ltb 1024 (length pruned) then swept else pruned

  -- `SimpleRateLimiter.is_allowed` without a session. Reading a missing key stores no hits.
  unfoldable pub is_allowed : String → ℕ → Requests → Requests × Bool
  is_allowed key now requests =
      let ready = prepared key now requests in
      let hits = hits_of key ready in
      if leb limits.requests (length hits)
      then (insert key hits ready, false)
      else (insert key (hits ++ now ∷ []) ready, true)

  -- `RATE_LIMITER_LUA` on the sorted sets, by their scores.
  unfoldable pub rate_limiter_lua : String → ℕ → Requests → Requests × Bool
  rate_limiter_lua key now sets =
      let kept = filter (alive limits.window_seconds now) (hits_of key sets) in
      if leb limits.requests (length kept)
      then (insert key kept sets, false)
      else (insert key (kept ++ now ∷ []) sets, true)
