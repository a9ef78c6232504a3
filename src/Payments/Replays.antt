-- ===== src/Payments/Replays.antt =====
-- Replays of a nonce against the in-process map, which is what is left when Redis is not configured
-- (app/services/single_use_token_store.py, app/api/v1/endpoints/payments.py).
use apex_chainx_backend.Common.{
  ℕ, ◌+◌, ◌≤◌, ◌<◌, ◌≡◌, ◌≢◌, refl, String, Bool, true, false, not, ◌&&◌, Option, some, [], ◌∷◌,
  arith, str_eq, str_eq_refl, eq_iff, ltb, leb, is_some, get_or, Dict, lookup, lookup-insert,
  length, filter, Bool-cases, inl, inr,
}
use apex_chainx_backend.Payments.Nonces.{
  TokenStore, max_fallback_tokens, evict, consume_fallback, consume,
}
use apex_chainx_backend.Payments.Callback.{
  State, http, CallbackRequest, Redis, effective_nonce, is_authentic, auto_retry, settle,
  provider_callback,
}

lookup-filter :
    (test : ℕ → Bool) (k : String) (v : ℕ) (d : Dict ℕ)
    → lookup k d ≡ some v
    → test v ≡ true
    → lookup k (filter (λ e. test e.1) d) ≡ some v
unfolding lookup
lookup-filter test k v [] h ht = h
lookup-filter test k v ((j, w) ∷ d) h ht = elim (Bool-cases (str_eq j k)) [
  | inl hit ↦ ground arith
  | inr miss ↦ ground (arith, lookup-filter test k v d (ground arith) ht)
]

-- A token in the map that the window still holds survives the eviction.
lookup-evict :
    (token : String) (ts now : ℕ) (store : TokenStore)
    → lookup token store.fallback ≡ some ts
    → now ≤ ts + store.ttl_seconds
    → lookup token (evict now store) ≡ some ts
lookup-evict token ts now store h young =
    elim (Bool-cases (leb max_fallback_tokens (length store.fallback))) [
      | inl large ↦ rw large (
          lookup-filter (λ t. not (ltb (t + store.ttl_seconds) now)) token ts store.fallback h
            (ground arith))
      | inr small ↦ rw small h
    ]

-- What the first use of a token leaves in the map.
fallback-stored :
    (token : String) (now : ℕ) (store : TokenStore)
    → (consume_fallback token now store).0 ≡ false
    → ((consume_fallback token now store).1.ttl_seconds ≡ store.ttl_seconds)
      × (lookup token (consume_fallback token now store).1.fallback ≡ some now)
unfolding consume_fallback
fallback-stored token now store h = elim (Bool-cases (is_some (lookup token (evict now store)))) [
  | inl used ↦ ground arith
  | inr unused ↦ (
    rw (unused, consume_fallback) refl,
    rw (unused, consume_fallback, lookup-insert, str_eq_refl token) refl,
  )
]

fallback-used :
    (token : String) (ts now : ℕ) (store : TokenStore)
    → lookup token (evict now store) ≡ some ts
    → (consume_fallback token now store).0 ≡ true
unfolding consume_fallback
fallback-used token ts now store h = rw (h, consume_fallback) refl

-- Without Redis, once a use of a token was answered with false, every use within the window from
-- then is answered with true, also when the map is large and gets cleaned.
pub consume_replay :
    (token : String) (now later : ℕ) (store : TokenStore) (reply reply' : Option Bool)
    → (consume false reply token now store).0 ≡ false
    → later ≤ now + store.ttl_seconds
    → (consume false reply' token later (consume false reply token now store).1).0 ≡ true
unfolding consume
consume_replay token now later store reply reply' h window =
    let (ttl, stored) = fallback-stored token now store h in
    let used = (consume_fallback token now store).1 in
    fallback-used token now later used (lookup-evict token now later used stored (rw ttl window))

-- Without Redis, once a use of a token was answered with false and left a map below its limit, the
-- token stays used at any time, past the window too.
pub consume_forever :
    (token : String) (now later : ℕ) (store : TokenStore) (reply reply' : Option Bool)
    → (consume false reply token now store).0 ≡ false
    → length (consume false reply token now store).1.fallback < max_fallback_tokens
    → (consume false reply' token later (consume false reply token now store).1).0 ≡ true
unfolding consume
consume_forever token now later store reply reply' h small =
    let (ttl, stored) = fallback-stored token now store h in
    let used = (consume_fallback token now store).1 in
    let kept : leb max_fallback_tokens (length used.fallback) ≡ false = ground arith in
    fallback-used token now later used (rw kept stored)

module _ (hmac_sha256 : String → String → String) (secret : String) where
  settle-tokens :
      (request : CallbackRequest) (now : ℕ) (s : State)
      → (settle hmac_sha256 secret request now s).1.tokens ≡ s.tokens
  unfolding settle auto_retry
  settle-tokens request now s = ground arith

  -- Past the first guards, a callback with a used nonce is refused.
  refused_nonce :
      (redis : Redis) (request : CallbackRequest) (now : ℕ) (s : State)
      → str_eq (effective_nonce request) "" ≡ false
      → not (str_eq secret "") && str_eq (get_or request.signature "") "" ≡ false
      → is_authentic hmac_sha256 secret request ≡ true
      → (consume redis.configured redis.reply (effective_nonce request) now s.tokens).0 ≡ true
      → let (answer, after) = provider_callback hmac_sha256 secret redis request now s in
        (answer ≡ http 409) × (after.payments ≡ s.payments)
  unfolding provider_callback
  refused_nonce redis request now s named signed authentic used = (
    rw (named, signed, authentic, used, provider_callback) refl,
    rw (named, signed, authentic, used, provider_callback) refl,
  )

  -- What a callback that passes the guards leaves in the token store.
  passed-tokens :
      (redis : Redis) (request : CallbackRequest) (now : ℕ) (s : State)
      → str_eq (effective_nonce request) "" ≡ false
      → not (str_eq secret "") && str_eq (get_or request.signature "") "" ≡ false
      → is_authentic hmac_sha256 secret request ≡ true
      → let used = consume redis.configured redis.reply (effective_nonce request) now s.tokens in
        used.0 ≡ false
        → (provider_callback hmac_sha256 secret redis request now s).1.tokens ≡ used.1
  unfolding provider_callback
  passed-tokens redis request now s named signed authentic fresh =
      let used = consume redis.configured redis.reply (effective_nonce request) now s.tokens in
      rw (named, signed, authentic, fresh, provider_callback)
        (settle-tokens request now (record s { tokens = used.1 }))

  -- Without Redis, an authentic callback whose nonce was unused, sent again within the window, is
  -- answered with 409 the second time, and then changes no payment.
  pub provider_callback_replay :
      (request : CallbackRequest) (now later : ℕ) (s : State) (reply reply' : Option Bool)
      → (effective_nonce request ≢ "")
      → (is_authentic hmac_sha256 secret request ≡ true)
      → (consume false reply (effective_nonce request) now s.tokens).0 ≡ false
      → later ≤ now + s.tokens.ttl_seconds
      → let callback = provider_callback hmac_sha256 secret in
        let s' = (callback (record { configured = false; reply = reply }) request now s).1 in
        let (answer, s'') =
          callback (record { configured = false; reply = reply' }) request later s' in
        (answer ≡ http 409) × (s''.payments ≡ s'.payments)
  provider_callback_replay request now later s reply reply' nonempty authentic fresh window =
      let named : str_eq (effective_nonce request) "" ≡ false =
        ground (arith, eq_iff (effective_nonce request) "") in
      let signed : not (str_eq secret "") && str_eq (get_or request.signature "") "" ≡ false =
        ground arith in
      let redis : Redis = record { configured = false; reply = reply } in
      let redis' : Redis = record { configured = false; reply = reply' } in
      let s' = (provider_callback hmac_sha256 secret redis request now s).1 in
      let kept = passed-tokens redis request now s named signed authentic fresh in
      refused_nonce redis' request later s' named signed authentic (
        rw kept
          (consume_replay (effective_nonce request) now later s.tokens reply reply' fresh window))
