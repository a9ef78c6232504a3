-- ===== src/Webhooks/Sending.antt =====
-- One attempt to deliver (app/services/webhook_service.py).
use Prim.Native.String.{◌++◌ as append}
use apex_chainx_backend.Common.{
  ℕ, String, Bool, true, false, not, Option, none, some, List, [], ◌∷◌, ◌++◌, map, str_eq,
  if◌then◌else◌, get_or, any, Dict, insert,
}
use apex_chainx_backend.Breaker.{CircuitBreaker, allow, failed, succeeded, apply}
use apex_chainx_backend.Webhooks.Network.{refused, accepted, validate_webhook_url}
use apex_chainx_backend.Webhooks.Signing.{sign_payload}
use apex_chainx_backend.Webhooks.{
  breaker_open, Webhook, WebhookDelivery, Env, response, timeout, request_error, World,
  network_validation_error, value_error, post, breaker_effect, Attempt, raised, attempted,
  scrub_response_body, is_set,
}

module _ (env : Env) where
  -- `none` is the ValueError of an unknown signature version.
  unfoldable pub build_headers : World → Webhook → String → String → ℕ → Option (Dict String)
  build_headers world webhook payload event signature_version =
      let plain : Dict String =
        ("Content-Type", "application/json")
        ∷ ("X-Webhook-Event", event)
        ∷ ("X-Webhook-Timestamp", world.timestamp)
        ∷ ("X-Correlation-ID", world.correlation_id)
        ∷ [] in
      let headers : Dict String =
        if is_set world.traceparent
        then insert "traceparent" (get_or world.traceparent "") plain
        else plain in
      if is_set webhook.secret
      then elim (sign_payload env.hmac (get_or webhook.secret "") payload signature_version
          (some world.timestamp) world.timestamp) [
            | none ↦ none
            | some (sig_hex, version, signed_timestamp) ↦ some (
                insert "X-Webhook-Timestamp"
                  (if str_eq signed_timestamp "" then world.timestamp else signed_timestamp)
                  (insert "X-Webhook-Signature-Version" (env.digits signature_version)
                    (insert "X-Webhook-Signature" (append "sha256=" sig_hex) headers)))
          ]
      else some headers

  -- The addresses approved at registration, `[]` where there is none that can be read.
  approved_ips : Webhook → List String
  approved_ips webhook = elim webhook.resolved_ips [
    | none ↦ []
    | some text ↦ if str_eq text "" then [] else get_or (env.loads text) []
  ]

  -- `approved_ips and not (approved_ips & set(current_ips))`
  unfoldable pub is_rebound : Webhook → List String → Bool
  unfolding approved_ips
  is_rebound webhook current_ips = elim (approved_ips webhook) [
    | [] ↦ false
    | ip ∷ ips ↦ not (any (λ approved. any (str_eq approved) current_ips) (ip ∷ ips))
  ]

  -- The request and what the answer does to the row and to the breaker.
  unfoldable pub send : World → WebhookDelivery → Webhook → Dict String → CircuitBreaker → Attempt
  unfolding scrub_response_body
  send world delivery webhook headers breaker =
      let (down, _, down_effects) =
        apply env.breaker env.shared env.hostname (failed webhook.url world.failed_at) breaker in
      let (up, _, up_effects) =
        apply env.breaker env.shared env.hostname (succeeded webhook.url) breaker in
      let sent = post webhook.url delivery.payload headers in
      elim world.answer [
        | response code is_success text ↦
            let answered : WebhookDelivery = record delivery {
              response_status_code = some code;
              response_body = some (scrub_response_body env text);
            } in
            if is_success
            then attempted true answered up (sent ∷ map breaker_effect up_effects)
            else attempted false
                (record answered {
                  error_message = some (append "Non-success status: " (env.digits code));
                })
                down (sent ∷ map breaker_effect down_effects)
        | timeout exc ↦
            attempted false
              (record delivery { error_message = some (append "Request timed out: " exc) }) down
              (sent ∷ map breaker_effect down_effects)
        | request_error exc ↦
            attempted false
              (record delivery { error_message = some (append "Request error: " exc) }) down
              (sent ∷ map breaker_effect down_effects)
      ]

  unfoldable pub attempt_delivery : World → WebhookDelivery → Webhook → CircuitBreaker → Attempt
  attempt_delivery world delivery webhook breaker =
      let (asked, allowed, effects) =
        apply env.breaker env.shared env.hostname
          (allow webhook.url world.marker world.adopted_at world.checked_at) breaker in
      elim (build_headers world webhook delivery.payload delivery.event
        delivery.signature_version) [
          | none ↦ raised value_error
          | some built ↦
              let headers = insert "X-Webhook-Delivery-ID" delivery.id built in
              elim (validate_webhook_url env.library env.network webhook.url world.addr_info) [
                | refused message ↦ raised (network_validation_error message)
                | accepted current_ips ↦
                    if is_rebound webhook current_ips
                    then raised (
                        network_validation_error
                          "Webhook host resolution no longer matches the approved address.")
                    else if not allowed
                    then attempted false
                        (record delivery {
                          status = breaker_open;
                          error_message = some "Circuit breaker open, delivery deferred";
                        })
                        asked (map breaker_effect effects)
                    else elim (send world delivery webhook headers asked) [
                      | raised exc ↦ raised exc
                      | attempted ok row after sent ↦
                          attempted ok row after (map breaker_effect effects ++ sent)
                    ]
              ]
        ]
