-- ===== src/Webhooks/Retried.antt =====
-- The retry endpoint (app/api/v1/endpoints/webhooks.py) on a delivery that waits for nothing.
use apex_chainx_backend.Common.{
  ◌≡◌, ap, String, true, false, none, some, [], ◌∷◌, lookup, str_eq, get_or,
}
use apex_chainx_backend.Webhooks.{Webhook, WebhookDelivery, Env, World, Effect, audit_entry}
use apex_chainx_backend.Webhooks.Dispatch.{State, is_claimable}
use apex_chainx_backend.Webhooks.Exhausted.{dispatch_delivery-kept}
use apex_chainx_backend.Webhooks.Endpoint.{serialized, refusal, retry_delivery}

-- The audit entry of a retry.
abbrev retried : String → String → String → Effect
retried actor webhook_id id =
    audit_entry "webhook_delivery_retried"
      (("webhook_id", webhook_id) ∷ ("delivery_id", id) ∷ ("actor", actor) ∷ [])

-- A delivery that is neither SUCCESS nor SENDING and that no dispatch takes is answered as it is. The
-- audit log says that it was retried, while no row changes and nothing is sent.
retry_delivery_idle :
    (env : Env) (world : World) (actor webhook_id id : String) (s : State) (w : Webhook)
    (d : WebhookDelivery)
    → lookup webhook_id s.webhooks ≡ some w
    → lookup id s.deliveries ≡ some d
    → str_eq d.webhook_id webhook_id ≡ true
    → refusal d.status ≡ none
    → is_claimable d.status ≡ false
    → retry_delivery env world actor webhook_id id s
      ≡ (s, retried actor webhook_id id ∷ [], serialized d)
unfolding retry_delivery
retry_delivery_idle env world actor webhook_id id s w d e e' own open_for_retry kept =
    let same = dispatch_delivery-kept env world id s d e' kept in
    rw (e, e', own, open_for_retry, same, retry_delivery)
      (ap (λ found. (s, retried actor webhook_id id ∷ [], serialized (get_or found d))) e')
