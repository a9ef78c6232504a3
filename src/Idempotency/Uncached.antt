-- ===== src/Idempotency/Uncached.antt =====
-- What the idempotency middleware (app/middleware/idempotency.py) does not cache, and what it does
-- without Redis.
use apex_chainx_backend.Common.{
  ℕ, ◌≡◌, refl, ap, ◌∙◌, inl, inr, String, true, false, not, ◌||◌, none, some, str_eq,
  if◌then◌else◌, Bool-cases, Option-cases, arith,
}
use apex_chainx_backend.Idempotency.{
  Request, Response, Cached, Env, State, World, Reply, rejected, handled, Begun, pass_through,
  answered, proceed, circuit_open, trip_circuit, redis_get, redis_setex, track_completed_key,
  enforce_completed_key_cap, compute_fingerprint, cache_key_of, key_of, is_changing, begin, finish,
  conclude, dispatch,
}
use apex_chainx_backend.Idempotency.Replayed.{cached_response, is_success}

-- The cached responses and the index.
abbrev pub IsSameCache : State → State → Type 0
IsSameCache s s' = (s'.store ≡ s.store) × (s'.index ≡ s.index)

module _ (env : Env) (world : World) (request : Request) where
  redis_get-IsSameCache : (key : String) (s : State) → IsSameCache s (redis_get world key s).0
  unfolding redis_get trip_circuit
  redis_get-IsSameCache key s = elim (Bool-cases (circuit_open world s)) [
    | inl opened ↦ rw (opened, redis_get) (refl, refl)
    | inr shut ↦ elim (Bool-cases world.get_fails) [
      | inl fails ↦ (ground (arith, shut, fails), ground (arith, shut, fails))
      | inr works ↦ (ground (arith, shut, works), ground (arith, shut, works))
    ]
  ]

  begin-IsSameCache : (s : State) → IsSameCache s (begin env world request s).0
  unfolding begin
  begin-IsSameCache s =
      elim (Bool-cases (not (is_changing env request.method) || str_eq (key_of request) "")) [
        | inl passes ↦ rw (passes, begin) (refl, refl)
        | inr keyed ↦ elim (Option-cases (compute_fingerprint env request)) [
          | inl malformed ↦ rw (keyed, malformed, begin) (refl, refl)
          | inr (fingerprint, e) ↦
              elim (Option-cases (redis_get world (cache_key_of env request) s).1) [
                | inl missing ↦
                    rw (keyed, e, missing, begin)
                      (redis_get-IsSameCache (cache_key_of env request) s)
                | inr (cached, found) ↦
                    rw (keyed, e, found, begin) (redis_get-IsSameCache (cache_key_of env request) s)
              ]
        ]
      ]

  finish_failed :
      (fingerprint key : String) (response : Response) (s : State)
      → is_success response ≡ false
      → finish env world fingerprint key response s ≡ s
  unfolding finish
  finish_failed fingerprint key response s bad = rw (bad, finish) refl

  conclude-IsSameCache :
      (s : State) (begun : Begun)
      → ((response : Response) → world.response ≡ some response → is_success response ≡ false)
      → IsSameCache s (conclude env world (s, begun)).0
  unfolding conclude
  conclude-IsSameCache s (answered reply) bad = (refl, refl)
  conclude-IsSameCache s pass_through bad = elim (Option-cases world.response) [
    | inl none_sent ↦ rw (none_sent, conclude) (refl, refl)
    | inr (response, sent) ↦ rw (sent, conclude) (refl, refl)
  ]
  conclude-IsSameCache s (proceed fingerprint key) bad = elim (Option-cases world.response) [
    | inl none_sent ↦ rw (none_sent, conclude) (refl, refl)
    | inr (response, sent) ↦
        let same = finish_failed fingerprint key response s (bad response sent) in
        rw (sent, conclude) (ap (λ t. t.store) same, ap (λ t. t.index) same)
  ]

  -- A request whose response is not 2xx, or that the application fails with an exception, leaves the
  -- cached responses and their index as they are, whatever Redis does.
  pub dispatch-IsSameCache :
      (s : State)
      → ((response : Response) → world.response ≡ some response → is_success response ≡ false)
      → IsSameCache s (dispatch env world request s).0
  unfolding dispatch
  dispatch-IsSameCache s bad =
      let begun = begin-IsSameCache s in
      let concluded =
        conclude-IsSameCache (begin env world request s).0 (begin env world request s).1 bad in
      (concluded.0 ∙ begun.0, concluded.1 ∙ begun.1)

  redis_get_open :
      (key : String) (s : State) → circuit_open world s ≡ true → redis_get world key s ≡ (s, none)
  unfolding redis_get
  redis_get_open key s opened = rw (opened, redis_get) refl

  redis_setex_open :
      (key : String) (ttl : ℕ) (value : Cached) (s : State)
      → circuit_open world s ≡ true
      → redis_setex world key ttl value s ≡ s
  unfolding redis_setex
  redis_setex_open key ttl value s opened = rw (opened, redis_setex) refl

  track_completed_key_open :
      (key : String) (s : State) → circuit_open world s ≡ true → track_completed_key world key s ≡ s
  unfolding track_completed_key
  track_completed_key_open key s opened = rw (opened, track_completed_key) refl

  enforce_completed_key_cap_open :
      (s : State) → circuit_open world s ≡ true → enforce_completed_key_cap env world s ≡ s
  unfolding enforce_completed_key_cap
  enforce_completed_key_cap_open s opened = rw (opened, enforce_completed_key_cap) refl

  finish_open :
      (fingerprint key : String) (response : Response) (s : State)
      → circuit_open world s ≡ true
      → finish env world fingerprint key response s ≡ s
  unfolding finish
  finish_open fingerprint key response s opened = elim (Bool-cases (is_success response)) [
    | inr bad ↦ rw (bad, finish) refl
    | inl good ↦
        let cached = cached_response fingerprint response in
        rw
          (
            good,
            finish,
            redis_setex_open key env.ttl cached s opened,
            track_completed_key_open key s opened,
          )
          (enforce_completed_key_cap_open s opened)
  ]

  dispatch_begun :
      (s s' : State) (begun : Begun)
      → begin env world request s ≡ (s', begun)
      → dispatch env world request s ≡ conclude env world (s', begun)
  unfolding dispatch
  dispatch_begun s s' begun e = ap (conclude env world) e

  begin_unread :
      (s : State) (fingerprint : String)
      → circuit_open world s ≡ true
      → not (is_changing env request.method) || str_eq (key_of request) "" ≡ false
      → compute_fingerprint env request ≡ some fingerprint
      → begin env world request s ≡ (s, proceed fingerprint (cache_key_of env request))
  unfolding begin
  begin_unread s fingerprint opened keyed e =
      let read : redis_get world (cache_key_of env request) s ≡ (s, none) =
        redis_get_open (cache_key_of env request) s opened in
      rw (keyed, e, read, begin)
        (ap (λ r. (r.0, proceed fingerprint (cache_key_of env request))) read)

  conclude_proceeded :
      (s : State) (fingerprint key : String) (response : Response)
      → circuit_open world s ≡ true
      → world.response ≡ some response
      → conclude env world (s, proceed fingerprint key) ≡ (s, handled response)
  unfolding conclude
  conclude_proceeded s fingerprint key response opened sent =
      rw (sent, conclude)
        (ap (λ t. (t, handled response)) (finish_open fingerprint key response s opened))

  conclude_passed :
      (s : State) (response : Response)
      → world.response ≡ some response
      → conclude env world (s, pass_through) ≡ (s, handled response)
  unfolding conclude
  conclude_passed s response sent = rw (sent, conclude) refl

  conclude_answered :
      (s : State) (reply : Reply) → conclude env world (s, answered reply) ≡ (s, reply)
  unfolding conclude
  conclude_answered s reply = refl

  -- While the circuit is open, the application answers every request whose body can be fingerprinted,
  -- and nothing changes; a body that cannot is rejected with 400 before Redis is asked.
  dispatch_open :
      (s : State) (response : Response)
      → circuit_open world s ≡ true
      → world.response ≡ some response
      → dispatch env world request s ≡ (
        s,
        (if (not (is_changing env request.method) || str_eq (key_of request) "")
            then handled response
            else elim (compute_fingerprint env request) [
              | none ↦
                  rejected 400 "Request body is not valid JSON; cannot fingerprint Idempotency-Key"
              | some fingerprint ↦ handled response
            ]),
      )
  unfolding begin
  dispatch_open s response opened sent =
      elim (Bool-cases (not (is_changing env request.method) || str_eq (key_of request) "")) [
        | inl passes ↦
            let begun : begin env world request s ≡ (s, pass_through) = rw (passes, begin) refl in
            rw passes (dispatch_begun s s pass_through begun ∙ conclude_passed s response sent)
        | inr keyed ↦ elim (Option-cases (compute_fingerprint env request)) [
          | inl malformed ↦
              let reply =
                rejected 400 "Request body is not valid JSON; cannot fingerprint Idempotency-Key" in
              let begun : begin env world request s ≡ (s, answered reply) =
                rw (keyed, malformed, begin) refl in
              rw (keyed, malformed)
                (dispatch_begun s s (answered reply) begun ∙ conclude_answered s reply)
          | inr (fingerprint, e) ↦
              let begun = begin_unread s fingerprint opened keyed e in
              rw (keyed, e)
                (dispatch_begun s s (proceed fingerprint (cache_key_of env request)) begun
                  ∙ conclude_proceeded s fingerprint (cache_key_of env request) response opened
                      sent)
        ]
      ]
