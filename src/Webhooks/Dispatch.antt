-- ===== src/Webhooks/Dispatch.antt =====
-- One dispatch of a delivery (app/services/webhook_service.py): the claim, the attempt, the end.
use apex_chainx_backend.Common.{
  ◌+◌, ◌-◌, ◌*◌, ◌^◌, min, String, Bool, true, false, ◌&&◌, none, some, List, [], ltb, ◌==◌,
  if◌then◌else◌, get_or, length, Dict, insert, lookup, get_elem?,
}
use apex_chainx_backend.Breaker.{CircuitBreaker}
use apex_chainx_backend.Webhooks.Sending.{attempt_delivery}
use apex_chainx_backend.Webhooks.{
  DeliveryStatus, pending, sending, success, retrying, dead_letter, breaker_open, Webhook,
  WebhookDelivery, Env, World, Exception, attribute_error, Effect, raised, attempted, apply_jitter,
}

-- The two tables by their primary keys, and the breaker of the process.
pub record State : Type 0 where
  pub webhooks : Dict Webhook
  pub deliveries : Dict WebhookDelivery
  pub breaker : CircuitBreaker

-- What a dispatch returns or raises.
pub data Outcome : Type 0 where
  returned : Outcome
  escaped : Exception → Outcome

-- The code after a call that may raise: `rest` where it returns, `handler` where it raises.
abbrev pub after_call {ℓ} : {A : Type ℓ} → Outcome → A → (Exception → A) → A
after_call returned rest handler = rest
after_call (escaped exc) rest handler = handler exc

-- The statuses that the claim takes.
unfoldable pub is_claimable : DeliveryStatus → Bool
is_claimable pending = true
is_claimable retrying = true
is_claimable _ = false

unfoldable pub is_terminal : DeliveryStatus → Bool
is_terminal success = true
is_terminal dead_letter = true
is_terminal _ = false

unfoldable pub is_breaker_open : DeliveryStatus → Bool
is_breaker_open breaker_open = true
is_breaker_open _ = false

module _ (env : Env) where
  -- The end of a failed attempt: another one is due later, or none. `attempt_count` is at least 1.
  unfoldable pub retry_or_bury : World → Webhook → WebhookDelivery → WebhookDelivery
  retry_or_bury world webhook delivery =
      let retry_index = delivery.attempt_count - 1 in
      let max_retries = if webhook.max_retries == 0 then 3 else webhook.max_retries in
      let base_delay = get_or (get_elem? env.retry_base_delays retry_index) 0 in
      let raw_delay = min (base_delay * 2 ^ retry_index) env.retry_max_delay_seconds in
      let delay =
        min (apply_jitter env world.uniform (raw_delay * 1000))
          (env.retry_max_delay_seconds * 1000) in
      if ltb retry_index max_retries && ltb retry_index (length env.retry_base_delays)
      then record delivery { next_retry_at = some (world.settled_at + delay); status = retrying }
      else record delivery {
        status = dead_letter;
        dead_lettered_at = some world.settled_at;
        next_retry_at = none;
      }

  -- The row after an attempt, as `dispatch_delivery` commits it.
  unfoldable pub settle : World → Webhook → Bool → WebhookDelivery → WebhookDelivery
  settle world webhook attempt_succeeded delivery =
      let settled =
        if attempt_succeeded
        then record delivery {
          status = success;
          delivered_at = some world.settled_at;
          next_retry_at = none;
        }
        else if is_breaker_open delivery.status
        then delivery
        else retry_or_bury world webhook delivery in
      record settled { updated_at = world.finished_at }

  -- The update that takes a delivery for this call alone.
  unfoldable pub claim : World → WebhookDelivery → WebhookDelivery
  claim world delivery = record delivery {
    status = sending;
    attempt_count = delivery.attempt_count + 1;
    updated_at = world.claimed_at;
  }

  -- The claimed delivery is read again, attempted and settled; an exception leaves the claim.
  unfoldable pub dispatch_claimed : World → String → State → State × List Effect × Outcome
  dispatch_claimed world id s = elim (lookup id s.deliveries) [
    | none ↦ (s, [], returned)
    | some delivery ↦
        if is_terminal delivery.status
        then (s, [], returned)
        else elim (lookup delivery.webhook_id s.webhooks) [
          | none ↦ (s, [], escaped attribute_error)
          | some webhook ↦ elim (attempt_delivery env world delivery webhook s.breaker) [
            | raised exc ↦ (s, [], escaped exc)
            | attempted attempt_succeeded row breaker effects ↦ (
              record s {
                deliveries = insert id (settle world webhook attempt_succeeded row) s.deliveries;
                breaker = breaker;
              },
              effects,
              returned,
            )
          ]
        ]
  ]

  unfoldable pub dispatch_delivery : World → String → State → State × List Effect × Outcome
  dispatch_delivery world id s = elim (lookup id s.deliveries) [
    | none ↦ (s, [], returned)
    | some delivery ↦
        if is_claimable delivery.status
        then dispatch_claimed world id
            (record s { deliveries = insert id (claim world delivery) s.deliveries })
        else (s, [], returned)
  ]
