-- ===== src/Idempotency/Replayed.antt =====
-- What the idempotency middleware (app/middleware/idempotency.py) promises of a repeated request.
use apex_chainx_backend.Common.{
  ℕ, ◌+◌, ◌-◌, ◌≤◌, ◌<◌, ◌≡◌, refl, sym, ap, ◌∙◌, String, Bool, true, false, ◌&&◌, none, some, [],
  ◌∷◌, str_eq, ltb, leb, lt→ltb, if◌then◌else◌, get_or, length, arith, lookup, insert,
  lookup-insert_self, subst,
}
use apex_chainx_backend.Idempotency.{
  Request, Response, Cached, Env, State, World, Reply, replayed, rejected, handled, answered,
  proceed, circuit_open, live_value, redis_get, redis_setex, track_completed_key,
  compute_fingerprint, enforce_completed_key_cap, cache_key_of, replay, key_of, is_changing, begin,
  finish, conclude, dispatch,
}

-- The entry of a response.
abbrev pub cached_response : String → Response → Cached
cached_response fingerprint response = record {
  fingerprint = fingerprint;
  status_code = response.status_code;
  body = response.content;
  media_type = get_or response.media_type "application/json";
}

-- `200 <= response.status_code < 300`
abbrev pub is_success : Response → Bool
is_success response = leb 200 response.status_code && ltb response.status_code 300

-- Redis answers every command of a request.
abbrev pub IsUp : World → State → Type 0
IsUp world s =
    (circuit_open world s ≡ false)
    × (world.get_fails ≡ false)
    × (world.setex_fails ≡ false)
    × (world.zadd_fails ≡ false)
    × (world.zcard_fails ≡ false)

-- The answer to a repeated request: the response, or 409 for another fingerprint.
abbrev pub repeated : Request → String → String → Response → Reply
repeated again first second response =
    if str_eq first second
    then replayed (record {
      status_code = response.status_code;
      content = response.content;
      media_type = some (get_or response.media_type "application/json");
      headers = ("Content-Location", again.path) ∷ [];
    })
    else rejected 409 "Idempotency-Key already used with different payload"

module _ (env : Env) where
  redis_setex_up :
      (world : World) (key : String) (ttl : ℕ) (value : Cached) (s : State)
      → circuit_open world s ≡ false
      → world.setex_fails ≡ false
      → redis_setex world key ttl value s
        ≡ record s { store = insert key (value, world.now + ttl) s.store }
  unfolding redis_setex
  redis_setex_up world key ttl value s shut works = rw (shut, works, redis_setex) refl

  track_completed_key_up :
      (world : World) (key : String) (s : State)
      → circuit_open world s ≡ false
      → world.zadd_fails ≡ false
      → track_completed_key world key s ≡ record s { index = insert key world.now s.index }
  unfolding track_completed_key
  track_completed_key_up world key s shut works = rw (shut, works, track_completed_key) refl

  enforce_completed_key_cap_room :
      (world : World) (s : State)
      → circuit_open world s ≡ false
      → world.zcard_fails ≡ false
      → length s.index ≤ env.max_completed_keys
      → enforce_completed_key_cap env world s ≡ s
  unfolding enforce_completed_key_cap
  enforce_completed_key_cap_room world s shut works room =
      let none_over : leb (length s.index - env.max_completed_keys) 0 ≡ true =
        ground (arith, room) in
      rw (shut, works, none_over, enforce_completed_key_cap) refl

  finish_stored :
      (world : World) (fingerprint key : String) (response : Response) (s : State)
      → IsUp world s
      → is_success response ≡ true
      → length (insert key world.now s.index) ≤ env.max_completed_keys
      → finish env world fingerprint key response s ≡ record s {
        store = insert key (cached_response fingerprint response, world.now + env.ttl) s.store;
        index = insert key world.now s.index;
      }
  unfolding finish circuit_open
  finish_stored world fingerprint key response s (shut, _, setex, zadd, zcard) good room =
      let cached = cached_response fingerprint response in
      let stored : State = record s { store = insert key (cached, world.now + env.ttl) s.store } in
      let tracked : State = record stored { index = insert key world.now s.index } in
      rw
        (
          good,
          finish,
          redis_setex_up world key env.ttl cached s shut setex,
          track_completed_key_up world key stored shut zadd,
        )
        (enforce_completed_key_cap_room world tracked shut zcard room)

  redis_get_up :
      (world : World) (key : String) (s : State)
      → IsUp world s
      → redis_get world key s ≡ (s, live_value world.now (lookup key s.store))
  unfolding redis_get
  redis_get_up world key s (shut, get, _, _, _) = rw (shut, redis_get) (rw get refl)

  -- A request that the middleware looks up.
  abbrev pub IsKeyed : Request → String → Type 0
  IsKeyed request fingerprint =
      (is_changing env request.method ≡ true)
      × (str_eq (key_of request) "" ≡ false)
      × (compute_fingerprint env request ≡ some fingerprint)

  begin_found :
      (world : World) (request : Request) (s : State) (fingerprint : String) (cached : Cached)
      (expires_at : ℕ)
      → IsKeyed request fingerprint
      → IsUp world s
      → lookup (cache_key_of env request) s.store ≡ some (cached, expires_at)
      → world.now < expires_at
      → begin env world request s ≡ (s, answered (replay env request fingerprint cached))
  unfolding begin live_value
  begin_found world request s fingerprint cached expires_at (changing, named, print) up found
        alive =
      let live = lt→ltb _ _ alive in
      let read = redis_get_up world (cache_key_of env request) s up in
      rw (changing, named, print, read, found, live, begin)
        (ap (λ r. (r.0, answered (replay env request fingerprint cached))) read)

  begin_missing :
      (world : World) (request : Request) (s : State) (fingerprint : String)
      → IsKeyed request fingerprint
      → IsUp world s
      → live_value world.now (lookup (cache_key_of env request) s.store) ≡ none
      → begin env world request s ≡ (s, proceed fingerprint (cache_key_of env request))
  unfolding begin
  begin_missing world request s fingerprint (changing, named, print) up missing =
      let read = redis_get_up world (cache_key_of env request) s up in
      rw (changing, named, print, read, missing, begin)
        (ap (λ r. (r.0, proceed fingerprint (cache_key_of env request))) read)

  -- While Redis answers and the index has room, the 2xx response of the application to a request
  -- without a cached response is cached: a request with the same key and user that comes next, within
  -- the lifetime, is answered from it, with 409 if its fingerprint differs, and the application does
  -- not run again.
  pub dispatch-replay :
      (world later : World) (request again : Request) (s : State) (first second : String)
      (response : Response)
      → IsKeyed request first
      → IsKeyed again second
      → cache_key_of env again ≡ cache_key_of env request
      → live_value world.now (lookup (cache_key_of env request) s.store) ≡ none
      → world.response ≡ some response
      → is_success response ≡ true
      → length (insert (cache_key_of env request) world.now s.index) ≤ env.max_completed_keys
      → IsUp world s
      → IsUp later s
      → later.now < world.now + env.ttl
      → let (s', reply) = dispatch env world request s in
        (reply ≡ handled response)
        × (dispatch env later again s' ≡ (s', repeated again first second response))
  unfolding dispatch conclude circuit_open replay
  dispatch-replay world later request again s first second response keyed keyed' same missing answer
        good room up up' alive =
      let key = cache_key_of env request in
      let cached = cached_response first response in
      let after : State = record s {
        store = insert key (cached, world.now + env.ttl) s.store;
        index = insert key world.now s.index;
      } in
      let kept = finish_stored world first key response s up good room in
      let proceeds : conclude env world (s, proceed first key) ≡ (after, handled response) =
        rw (answer, conclude) (ap (λ t. (t, handled response)) kept) in
      let ran : dispatch env world request s ≡ (after, handled response) =
        ap (conclude env world) (begin_missing world request s first keyed up missing) ∙ proceeds in
      let found : lookup (cache_key_of env again) after.store ≡ some (cached, world.now + env.ttl) =
        rw same (lookup-insert_self key (cached, world.now + env.ttl) s.store) in
      let again_found =
        begin_found later again after second cached (world.now + env.ttl) keyed' up' found alive in
      subst
        (λ r.
          (r.1 ≡ handled response)
          × (dispatch env later again r.0 ≡ (r.0, replay env again second cached)))
        (sym ran) (refl, ap (conclude env later) again_found)
