-- ===== src/Breaker.antt =====
-- The per-host circuit breaker of webhook deliveries (app/services/webhook_breaker.py). The four
-- dictionaries of `CircuitBreaker` are the state; gauge updates and Redis writes are returned as
-- effects, in the order of the source. `t > now - window` is written `now < t + window`.
pub mod Host
pub mod Refines
pub mod Trips
pub mod Probe
mod Tests
use apex_chainx_backend.Common.{
  ℕ, ◌+◌, String, Bool, true, false, ◌&&◌, Option, none, some, List, [], ◌∷◌, ◌++◌, str_eq, ltb,
  leb, if◌then◌else◌, get_or, length, filter, Dict, lookup, insert, erase,
}

-- `BreakerState`; `opened` is OPEN.
pub data BreakerState : Type 0 where
  closed half_open opened : BreakerState

-- The arguments of `__init__`.
pub record Config : Type 0 where
  pub fail_threshold : ℕ
  pub window_seconds : ℕ
  pub reset_seconds : ℕ

pub record CircuitBreaker : Type 0 where
  pub state : Dict BreakerState
  pub failures : Dict (List ℕ)
  pub open_since : Dict ℕ
  pub probe_sent : Dict Bool

-- `set_gauge("webhook_breaker_state", value, {"host": host})`, and the writes of the marker
-- f"webhook_breaker:open:{host}".
pub data Effect : Type 0 where
  set_gauge : String → ℕ → Effect
  setex : String → ℕ → Effect
  delete : String → Effect

abbrev pub init : CircuitBreaker
init = record { state = []; failures = []; open_since = []; probe_sent = [] }

-- `self._state.get(host, BreakerState.CLOSED)`
abbrev pub state_of : CircuitBreaker → String → BreakerState
state_of b host = get_or (lookup host b.state) closed

abbrev is_state : BreakerState → BreakerState → Bool
is_state closed closed = true
is_state half_open half_open = true
is_state opened opened = true
is_state _ _ = false

gauge_value : BreakerState → ℕ
gauge_value closed = 0
gauge_value half_open = 1
gauge_value opened = 2

-- `_update_metric`
update_metric : CircuitBreaker → String → Effect
unfolding gauge_value
update_metric b host = set_gauge host (gauge_value (state_of b host))

-- The hostname that `urlparse` finds, if any; the text of the URL otherwise.
unfoldable pub host_key : (String → Option String) → String → String
host_key hostname url = elim (hostname url) [
  | none ↦ url
  | some host ↦ if str_eq host "" then url else host
]

-- `shared` is `_redis_client is not None`.
module _ (cfg : Config) (shared : Bool) where
  pub record_failure : String → ℕ → CircuitBreaker → CircuitBreaker × List Effect
  unfolding update_metric
  record_failure host now b =
      let kept =
        filter (λ t. ltb now (t + cfg.window_seconds)) (get_or (lookup host b.failures) [])
        ++ now ∷ [] in
      let counted : CircuitBreaker = record b { failures = insert host kept b.failures } in
      let tripped : CircuitBreaker = record counted {
        state = insert host opened b.state;
        open_since = insert host now b.open_since;
        probe_sent = insert host false b.probe_sent;
      } in
      if leb cfg.fail_threshold (length kept)
      then (
        tripped,
        update_metric tripped host ∷ (if shared then setex host cfg.reset_seconds ∷ [] else []),
      )
      else (counted, [])

  pub record_success : String → CircuitBreaker → CircuitBreaker × List Effect
  unfolding update_metric
  record_success host b =
      let cleared : CircuitBreaker = record {
        state = insert host closed b.state;
        failures = erase host b.failures;
        open_since = erase host b.open_since;
        probe_sent = erase host b.probe_sent;
      } in
      (cleared, update_metric cleared host ∷ (if shared then delete host ∷ [] else []))

  -- The last test of `allow_request`: in HALF_OPEN one probe goes out.
  probe : String → CircuitBreaker → CircuitBreaker × Bool
  probe host b =
      if is_state (state_of b host) half_open
      then (if get_or (lookup host b.probe_sent) false
          then (b, false)
          else (record b { probe_sent = insert host true b.probe_sent }, true))
      else (b, true)

  -- The marker of another worker is adopted; `exists` is the answer of Redis, `none` its failure.
  adopt : String → Option Bool → ℕ → CircuitBreaker → CircuitBreaker × List Effect
  unfolding update_metric
  adopt host exists now b =
      let adopted : CircuitBreaker = record b {
        state = insert host opened b.state;
        open_since = insert host now b.open_since;
      } in
      if is_state (state_of b host) closed && shared && get_or exists false
      then (adopted, update_metric adopted host ∷ [])
      else (b, [])

  -- `adopted_at` and `now` are the two readings of `time.time()`.
  pub allow_request :
      String → Option Bool → ℕ → ℕ → CircuitBreaker → CircuitBreaker × Bool × List Effect
  unfolding adopt probe update_metric
  allow_request host exists adopted_at now b =
      let (b1, effects) = adopt host exists adopted_at b in
      let half : CircuitBreaker = record b1 { state = insert host half_open b1.state } in
      let (probed, sent) = probe host half in
      let (passed, allowed) = probe host b1 in
      if is_state (state_of b1 host) opened
      then (if leb (get_or (lookup host b1.open_since) 0 + cfg.reset_seconds) now
          then (probed, sent, effects ++ update_metric half host ∷ [])
          else (b1, false, effects))
      else (passed, allowed, effects)

  pub on_success : String → CircuitBreaker → CircuitBreaker × List Effect
  unfolding record_success
  on_success = record_success

  pub on_failure : String → ℕ → CircuitBreaker → CircuitBreaker × List Effect
  unfolding record_failure update_metric
  on_failure host now b =
      let reopened : CircuitBreaker = record b {
        state = insert host opened b.state;
        open_since = insert host now b.open_since;
        probe_sent = insert host false b.probe_sent;
      } in
      if is_state (state_of b host) half_open
      then (reopened, update_metric reopened host ∷ [])
      else record_failure host now b

  pub reset : String → CircuitBreaker → CircuitBreaker
  reset host b = record {
    state = erase host b.state;
    failures = erase host b.failures;
    open_since = erase host b.open_since;
    probe_sent = erase host b.probe_sent;
  }

-- The public methods, each at a URL.
pub data Call : Type 0 where
  allow : String → Option Bool → ℕ → ℕ → Call
  failed : String → ℕ → Call
  succeeded : String → Call
  reset_call : String → Call

abbrev pub url_of : Call → String
url_of (allow url exists adopted_at now) = url
url_of (failed url now) = url
url_of (succeeded url) = url
url_of (reset_call url) = url

module _ (cfg : Config) (shared : Bool) (hostname : String → Option String) where
  -- One call: the new state, and the answer where the method has one.
  pub apply : Call → CircuitBreaker → CircuitBreaker × Bool × List Effect
  unfolding allow_request on_failure on_success reset
  apply (allow url exists adopted_at now) b =
      allow_request cfg shared (host_key hostname url) exists adopted_at now b
  apply (failed url now) b =
      let (b', effects) = on_failure cfg shared (host_key hostname url) now b in
      (b', false, effects)
  apply (succeeded url) b =
      let (b', effects) = on_success cfg shared (host_key hostname url) b in (b', false, effects)
  apply (reset_call url) b = (reset cfg shared (host_key hostname url) b, false, [])
