-- ===== src/Payments/Nonces.antt =====
-- `SingleUseTokenStore` (app/services/single_use_token_store.py). The answer of Redis to one
-- `SET NX EX` is an argument: `none` is an error, `some true` says that the key was set. Times are those
-- of the monotonic clock.
use apex_chainx_backend.Common.{
  ℕ, ◌+◌, String, Bool, true, false, not, Option, none, some, Dict, lookup, insert, ◌||◌, length,
  filter, is_some, ltb, leb, if◌then◌else◌,
}

abbrev pub circuit_open_ttl_seconds : ℕ
circuit_open_ttl_seconds = 30

abbrev pub max_fallback_tokens : ℕ
max_fallback_tokens = 50000

-- `SingleUseTokenStore`
pub record TokenStore : Type 0 where
  pub ttl_seconds : ℕ
  pub fallback : Dict ℕ
  pub disabled_until : ℕ

-- The stale entries are dropped when the map is large. `ts < now - ttl`, with no stop at 0.
abbrev pub evict : ℕ → TokenStore → Dict ℕ
evict now store =
    if leb max_fallback_tokens (length store.fallback)
    then filter (λ e. not (ltb (e.1 + store.ttl_seconds) now)) store.fallback
    else store.fallback

unfoldable pub consume_fallback : String → ℕ → TokenStore → Bool × TokenStore
unfolding lookup insert
consume_fallback token now store =
    let kept = evict now store in
    if is_some (lookup token kept)
    then (true, record store { fallback = kept })
    else (false, record store { fallback = insert token now kept })

abbrev pub trip_circuit : ℕ → TokenStore → TokenStore
trip_circuit now store = record store { disabled_until = now + circuit_open_ttl_seconds }

-- `configured` says that `CELERY_BROKER_URL` is not blank.
unfoldable pub consume : Bool → Option Bool → String → ℕ → TokenStore → Bool × TokenStore
unfolding consume_fallback
consume configured reply token now store =
    if not configured || ltb now store.disabled_until
    then consume_fallback token now store
    else elim reply [
      | none ↦ consume_fallback token now (trip_circuit now store)
      | some was_set ↦ (not was_set, store)
    ]
