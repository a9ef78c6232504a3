-- ===== src/Webhooks/Answered.antt =====
-- What an attempt does to the row, and what it sends (app/services/webhook_service.py).
use apex_chainx_backend.Common.{
  ℕ, ◌≡◌, refl, inl, inr, ◌⊎◌, String, Bool, true, false, List, [], ◌∷◌, ◌++◌, map, Dict,
  Option-cases, Bool-cases, subst, ap, filter, filter-append, insert,
}
use apex_chainx_backend.Breaker
use apex_chainx_backend.Breaker.{CircuitBreaker, allow, failed, succeeded, apply}
use apex_chainx_backend.Webhooks.{
  breaker_open, Webhook, WebhookDelivery, Env, World, Exception, Effect, post, breaker_effect,
  enqueue, audit_entry, Answer, response, timeout, request_error, Attempt, raised, attempted,
}
use apex_chainx_backend.Webhooks.Network.{accepted, validate_webhook_url}
use apex_chainx_backend.Webhooks.Screened.{Checked-cases}
use apex_chainx_backend.Webhooks.Sending.{build_headers, is_rebound, send, attempt_delivery}

pub Attempt-cases :
    (a : Attempt)
    → ((e : Exception) × (a ≡ raised e))
      ⊎ ((ok : Bool) × (row : WebhookDelivery) × (b : CircuitBreaker) × (effects : List Effect) × (a
            ≡ attempted ok row b effects))
Attempt-cases (raised e) = inl (e, refl)
Attempt-cases (attempted ok row b effects) = inr (ok, row, b, effects, refl)

-- What a property of rows and answers says of a whole attempt.
abbrev pub Always : (Bool → WebhookDelivery → List Effect → Type 0) → Attempt → Type 0
Always P (raised e) = Unit
Always P (attempted ok row b effects) = P ok row effects

-- A row as the attempt leaves it: the same delivery and count, deferred where it is not SENDING.
abbrev pub IsAnswered : WebhookDelivery → Bool → WebhookDelivery → Type 0
IsAnswered d ok row =
    (row.webhook_id ≡ d.webhook_id)
    × (row.attempt_count ≡ d.attempt_count)
    × ((row.status ≡ d.status) ⊎ ((ok ≡ false) × (row.status ≡ breaker_open)))

-- The requests among effects.
abbrev pub is_post : Effect → Bool
is_post (post url payload headers) = true
is_post (breaker_effect e) = false
is_post (enqueue id) = false
is_post (audit_entry event details) = false

no_posts : (es : List Breaker.Effect) → filter is_post (map breaker_effect es) ≡ []
no_posts [] = refl
no_posts (e ∷ es) = no_posts es

Answer-cases :
    (a : Answer)
    → ((code : ℕ) × (text : List ℕ) × (a ≡ response code true text))
      ⊎ ((code : ℕ) × (text : List ℕ) × (a ≡ response code false text))
      ⊎ ((exc : String) × (a ≡ timeout exc))
      ⊎ ((exc : String) × (a ≡ request_error exc))
Answer-cases (response code true text) = inl (code, text, refl)
Answer-cases (response code false text) = inr (inl (code, text, refl))
Answer-cases (timeout exc) = inr (inr (inl (exc, refl)))
Answer-cases (request_error exc) = inr (inr (inr (exc, refl)))

module _ (env : Env) (world : World) (d : WebhookDelivery) (w : Webhook) where
  send-IsAnswered :
      (headers : Dict String) (b : CircuitBreaker)
      → Always (λ ok row effects. IsAnswered d ok row) (send env world d w headers b)
  unfolding send
  send-IsAnswered headers b = elim (Answer-cases world.answer) [
    | inl (code, text, e) ↦ rw (e, send) ((refl, refl, inl refl))
    | inr (inl (code, text, e)) ↦ rw (e, send) ((refl, refl, inl refl))
    | inr (inr (inl (exc, e))) ↦ rw (e, send) ((refl, refl, inl refl))
    | inr (inr (inr (exc, e))) ↦ rw (e, send) ((refl, refl, inl refl))
  ]

  send-posts :
      (headers : Dict String) (b : CircuitBreaker)
      → Always
          (λ ok row effects. filter is_post effects ≡ post w.url d.payload headers ∷ [])
          (send env world d w headers b)
  unfolding send
  send-posts headers b =
      let up = (apply env.breaker env.shared env.hostname (succeeded w.url) b).2 in
      let down = (apply env.breaker env.shared env.hostname (failed w.url world.failed_at) b).2 in
      elim (Answer-cases world.answer) [
        | inl (code, text, e) ↦
            rw (e, send) (ap (λ es. post w.url d.payload headers ∷ es) (no_posts up))
        | inr (inl (code, text, e)) ↦
            rw (e, send) (ap (λ es. post w.url d.payload headers ∷ es) (no_posts down))
        | inr (inr (inl (exc, e))) ↦
            rw (e, send) (ap (λ es. post w.url d.payload headers ∷ es) (no_posts down))
        | inr (inr (inr (exc, e))) ↦
            rw (e, send) (ap (λ es. post w.url d.payload headers ∷ es) (no_posts down))
      ]

  -- Where an attempt may send its request.
  abbrev pub IsCleared : CircuitBreaker → Type 0
  IsCleared b =
      (ips : List String) × (validate_webhook_url env.library env.network w.url world.addr_info
        ≡ accepted ips)
      × (is_rebound env w ips ≡ false)
      × ((apply env.breaker env.shared env.hostname
            (allow w.url world.marker world.adopted_at world.checked_at) b).1
          ≡ true)

  -- The requests of an attempt: none, or one after every check has passed.
  abbrev pub IsPolite : CircuitBreaker → List Effect → Type 0
  IsPolite b effects =
      (filter is_post effects ≡ [])
      ⊎ (IsCleared b
          × ((headers : Dict String) × (filter is_post effects
                ≡ post w.url d.payload headers ∷ [])))

  pub attempt_delivery-IsAnswered :
      (b : CircuitBreaker)
      → Always
          (λ ok row effects. IsAnswered d ok row × IsPolite b effects)
          (attempt_delivery env world d w b)
  unfolding attempt_delivery
  attempt_delivery-IsAnswered b =
      let request = allow w.url world.marker world.adopted_at world.checked_at in
      let asked = apply env.breaker env.shared env.hostname request b in
      elim (Option-cases (build_headers env world w d.payload d.event d.signature_version)) [
        | inl e ↦ rw (e, attempt_delivery) tt
        | inr (built, e) ↦
            elim (Checked-cases
              (validate_webhook_url env.library env.network w.url world.addr_info)) [
                | inl (m, e') ↦ rw (e, e', attempt_delivery) tt
                | inr (ips, e') ↦ elim (Bool-cases (is_rebound env w ips)) [
                  | inl rebound ↦ rw (e, e', rebound, attempt_delivery) tt
                  | inr same ↦ elim (Bool-cases asked.1) [
                    | inr refused_now ↦
                        rw (e, e', same, refused_now, attempt_delivery)
                          ((refl, refl, inr (refl, refl)), inl (no_posts asked.2))
                    | inl allowed ↦
                        let headers : Dict String = insert "X-Webhook-Delivery-ID" d.id built in
                        elim (Attempt-cases (send env world d w headers asked.0)) [
                          | inl (exc, e'') ↦ rw (e, e', same, allowed, e'', attempt_delivery) tt
                          | inr (ok, row, b', sent, e'') ↦
                              let row_answered =
                                subst (Always (λ ok row effects. IsAnswered d ok row)) e''
                                  (send-IsAnswered headers asked.0) in
                              let sent_posts =
                                subst
                                  (Always (λ ok row effects.
                                    filter is_post effects ≡ post w.url d.payload headers ∷ []))
                                  e'' (send-posts headers asked.0) in
                              let posted : filter is_post (map breaker_effect asked.2 ++ sent)
                                  ≡ post w.url d.payload headers ∷ [] =
                                rw
                                  (
                                    filter-append is_post (map breaker_effect asked.2) sent,
                                    no_posts asked.2,
                                  )
                                  sent_posts in
                              rw (e, e', same, allowed, e'', attempt_delivery)
                                (row_answered, inr ((ips, refl, same, refl), (headers, posted)))
                        ]
                  ]
                ]
              ]
      ]
