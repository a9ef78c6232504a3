-- ===== src/Webhooks/Endpoint.antt =====
-- The retry endpoint of one delivery (app/api/v1/endpoints/webhooks.py).
use apex_chainx_backend.Common.{
  ℕ, String, Option, none, some, List, [], ◌∷◌, ◌++◌, str_eq, if◌then◌else◌, lookup, get_or,
}
use apex_chainx_backend.Webhooks.Dispatch.{State, after_call, dispatch_delivery}
use apex_chainx_backend.Webhooks.{
  DeliveryStatus, sending, success, WebhookDelivery, Env, World, Exception, Effect, audit_entry,
}

-- The answers: a status code with its detail, the row, or an exception of the dispatch.
pub data Reply : Type 0 where
  http_error : ℕ → String → Reply
  serialized : WebhookDelivery → Reply
  server_error : Exception → Reply

-- What becomes of a delivery asked for again; `none` is the dispatch.
unfoldable pub refusal : DeliveryStatus → Option Reply
refusal success = some (http_error 400 "Delivery already succeeded; retry not needed.")
refusal sending = some (http_error 409 "Delivery is already being sent.")
refusal _ = none

-- `dispatch_delivery` is asked for every other status. The row is read again, and the audit log gets
-- an entry; `actor` is the user's e-mail address.
unfoldable pub retry_delivery :
    Env → World → String → String → String → State → State × List Effect × Reply
retry_delivery env world actor webhook_id delivery_id s =
    let entry =
      audit_entry "webhook_delivery_retried"
        (("webhook_id", webhook_id) ∷ ("delivery_id", delivery_id) ∷ ("actor", actor) ∷ []) in
    let missing : State × List Effect × Reply = (s, [], http_error 404 "Delivery not found.") in
    let (s', effects, outcome) = dispatch_delivery env world delivery_id s in
    elim (lookup webhook_id s.webhooks) [
      | none ↦ (s, [], http_error 404 "Webhook not found.")
      | some webhook ↦ elim (lookup delivery_id s.deliveries) [
        | none ↦ missing
        | some delivery ↦
            if str_eq delivery.webhook_id webhook_id
            then elim (refusal delivery.status) [
              | some reply ↦ (s, [], reply)
              | none ↦
                  after_call outcome
                    (
                      s',
                      effects ++ entry ∷ [],
                      serialized (get_or (lookup delivery_id s'.deliveries) delivery),
                    )
                    (λ exc. (s', effects, server_error exc))
            ]
            else missing
      ]
    ]
