-- ===== src/Idempotency.antt =====
-- The idempotency middleware (app/middleware/idempotency.py). Redis is the cached responses with the
-- moments of their expiry, and the index of completed keys with their scores. Times are in seconds.
pub mod Replayed
pub mod Uncached
mod Tests
use Prim.Native.String.{◌++◌ as append}
use apex_chainx_backend.Common.{
  ℕ, suc, ◌+◌, ◌-◌, ◌*◌, String, Bool, true, false, not, ◌&&◌, ◌||◌, Option, none, some, List, [],
  ◌∷◌, str_eq, ltb, leb, if◌then◌else◌, get_or, length, take, Dict, lookup, insert, erase,
}

pub record Request : Type 0 where
  pub method : String
  pub path : String
  pub authorization : Option String
  pub idempotency_key : Option String
  pub body : String

pub record Response : Type 0 where
  pub status_code : ℕ
  pub content : String
  pub media_type : Option String
  pub headers : Dict String

-- `cached_response`
pub record Cached : Type 0 where
  pub fingerprint : String
  pub status_code : ℕ
  pub body : String
  pub media_type : String

-- The settings, and the functions of other packages: SHA-256, its first 16 digits of a token, the
-- token of an Authorization header, the canonical JSON of a body (`none` where it is not JSON), and
-- the first members of a sorted set by their scores.
pub record Env : Type 0 where
  pub ttl : ℕ
  pub max_completed_keys : ℕ
  pub sha256 : String → String
  pub sha256_16 : String → String
  pub token : String → String
  pub canonical : String → Option String
  pub zrange : Dict ℕ → ℕ → List String

-- Redis and the circuit of the process.
pub record State : Type 0 where
  pub store : Dict (Cached × ℕ)
  pub index : Dict ℕ
  pub disabled_until : ℕ

-- What one request meets: the clocks, the commands of Redis that fail, and what the application
-- answers, `none` an exception. `evicting` is `some n` if the eviction fails after n deletions.
pub record World : Type 0 where
  pub now : ℕ
  pub monotonic : ℕ
  pub get_fails : Bool
  pub setex_fails : Bool
  pub zadd_fails : Bool
  pub zcard_fails : Bool
  pub evicting : Option ℕ
  pub response : Option Response

-- The answer of the middleware, and whether the application has run.
pub data Reply : Type 0 where
  replayed : Response → Reply
  rejected : ℕ → String → Reply
  handled : Response → Reply
  raised : Reply

-- What the first part of `dispatch` decides.
pub data Begun : Type 0 where
  pass_through : Begun
  answered : Reply → Begun
  proceed : String → String → Begun

unfoldable pub circuit_open : World → State → Bool
circuit_open world s = ltb world.monotonic s.disabled_until

unfoldable pub trip_circuit : World → State → State
trip_circuit world s = record s { disabled_until = world.monotonic + 30 }

-- The header Idempotency-Key, empty where it is missing.
abbrev pub key_of : Request → String
key_of request = get_or request.idempotency_key ""

-- The value of a key that has not expired.
unfoldable pub live_value : ℕ → Option (Cached × ℕ) → Option Cached
live_value now none = none
live_value now (some (cached, expires_at)) = if ltb now expires_at then some cached else none

unfoldable pub redis_get : World → String → State → State × Option Cached
redis_get world key s =
    if circuit_open world s
    then (s, none)
    else if world.get_fails
    then (trip_circuit world s, none)
    else (s, live_value world.now (lookup key s.store))

unfoldable pub redis_setex : World → String → ℕ → Cached → State → State
redis_setex world key ttl value s =
    if circuit_open world s
    then s
    else if world.setex_fails
    then trip_circuit world s
    else record s { store = insert key (value, world.now + ttl) s.store }

unfoldable pub track_completed_key : World → String → State → State
track_completed_key world key s =
    if circuit_open world s
    then s
    else if world.zadd_fails
    then trip_circuit world s
    else record s { index = insert key world.now s.index }

unfoldable pub erase_all {ℓ} : {V : Type ℓ} → List String → Dict V → Dict V
erase_all [] d = d
erase_all (key ∷ more) d = erase_all more (erase key d)

module _ (env : Env) where
  unfoldable pub compute_fingerprint : Request → Option String
  compute_fingerprint request =
      let hash : String → String = λ canonical.
        env.sha256
          (append request.method (append ":" (append request.path (append ":" canonical)))) in
      if str_eq request.body "" then some (hash "{}") else elim (env.canonical request.body) [
        | none ↦ none
        | some canonical ↦ some (hash canonical)
      ]

  unfoldable pub actor_key : Request → String
  actor_key request =
      let token = env.token (get_or request.authorization "") in
      if str_eq token "" then "" else env.sha256_16 token

  unfoldable pub enforce_completed_key_cap : World → State → State
  enforce_completed_key_cap world s =
      let overflow = length s.index - env.max_completed_keys in
      let oldest = env.zrange s.index overflow in
      if circuit_open world s
      then s
      else if world.zcard_fails
      then trip_circuit world s
      else if leb overflow 0
      then s
      else elim world.evicting [
        | some done ↦ trip_circuit world (record s { store = erase_all (take done oldest) s.store })
        | none ↦ record s { store = erase_all oldest s.store; index = erase_all oldest s.index }
      ]

  unfoldable pub cache_key_of : Request → String
  cache_key_of request =
      append "idempotency:" (append (actor_key request) (append ":" (key_of request)))

  -- The reply from a cached response.
  unfoldable pub replay : Request → String → Cached → Reply
  replay request fingerprint cached =
      if str_eq cached.fingerprint fingerprint
      then replayed (record {
        status_code = cached.status_code;
        content = cached.body;
        media_type = some cached.media_type;
        headers = ("Content-Location", request.path) ∷ [];
      })
      else rejected 409 "Idempotency-Key already used with different payload"

  unfoldable pub is_changing : String → Bool
  is_changing method =
      str_eq method "POST" || str_eq method "PUT" || str_eq method "PATCH" || str_eq method "DELETE"

  -- Up to the call of the application.
  unfoldable pub begin : World → Request → State → State × Begun
  begin world request s =
      if not (is_changing request.method) || str_eq (key_of request) ""
      then (s, pass_through)
      else elim (compute_fingerprint request) [
        | none ↦ (
          s,
          answered
              (rejected 400 "Request body is not valid JSON; cannot fingerprint Idempotency-Key"),
        )
        | some fingerprint ↦
            let (s', existing) = redis_get world (cache_key_of request) s in
            elim existing [
              | some cached ↦ (s', answered (replay request fingerprint cached))
              | none ↦ (s', proceed fingerprint (cache_key_of request))
            ]
      ]

  -- After the application: a 2xx response is cached.
  unfoldable pub finish : World → String → String → Response → State → State
  finish world fingerprint cache_key response s =
      let cached : Cached = record {
        fingerprint = fingerprint;
        status_code = response.status_code;
        body = response.content;
        media_type = get_or response.media_type "application/json";
      } in
      if leb 200 response.status_code && ltb response.status_code 300
      then enforce_completed_key_cap world
          (track_completed_key world cache_key (redis_setex world cache_key env.ttl cached s))
      else s

  -- The rest of `dispatch`: the application runs unless the reply is known.
  unfoldable pub conclude : World → State × Begun → State × Reply
  conclude world (s, answered reply) = (s, reply)
  conclude world (s, pass_through) = elim world.response [
    | none ↦ (s, raised)
    | some response ↦ (s, handled response)
  ]
  conclude world (s, proceed fingerprint cache_key) = elim world.response [
    | none ↦ (s, raised)
    | some response ↦ (finish world fingerprint cache_key response s, handled response)
  ]

  unfoldable pub dispatch : World → Request → State → State × Reply
  unfolding conclude
  dispatch world request s = conclude world (begin world request s)
