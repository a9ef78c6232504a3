-- ===== src/Webhooks/Queue.antt =====
-- Creation, fan-out, sweeps and replays of deliveries (app/services/webhook_service.py), and the
-- retry endpoint (app/api/v1/endpoints/webhooks.py).
use apex_chainx_backend.Common.{
  ℕ, suc, String, Bool, true, false, not, Option, none, some, List, [], ◌∷◌, ◌++◌, leb,
  if◌then◌else◌, take, filter, Dict, insert, lookup, is_some, get_or,
}
use apex_chainx_backend.Webhooks.Dispatch.{
  State, Outcome, returned, escaped, after_call, dispatch_delivery,
}
use apex_chainx_backend.Webhooks.{
  pending, retrying, breaker_open, Webhook, WebhookDelivery, Env, World, Effect, enqueue,
  integrity_error,
}

-- The arguments of one `create_delivery`: the fresh key, the clock, and the encoded payload.
unfoldable pub new_delivery : String → ℕ → Webhook → String → String → ℕ → WebhookDelivery
new_delivery id now webhook event payload signature_version = record {
  id = id;
  webhook_id = webhook.id;
  event = event;
  payload = payload;
  status = pending;
  attempt_count = 0;
  next_retry_at = none;
  response_status_code = none;
  response_body = none;
  error_message = none;
  delivered_at = none;
  dead_lettered_at = none;
  signature_version = signature_version;
  created_at = now;
  updated_at = now;
}

-- `none` is the IntegrityError of a primary key that is taken.
unfoldable pub create_delivery : String → ℕ → Webhook → String → String → ℕ → State → Option State
unfolding new_delivery
create_delivery id now webhook event payload signature_version s =
    if is_some (lookup id s.deliveries)
    then none
    else some (record s {
      deliveries =
          insert id (new_delivery id now webhook event payload signature_version) s.deliveries;
    })

-- One subscriber that the listener decided on, with the fresh key of its delivery, the moment of
-- its creation, and what its dispatch finds.
pub record Decision : Type 0 where
  pub webhook : Webhook
  pub allowed : Bool
  pub id : String
  pub created_at : ℕ
  pub world : World

-- A status that the sweep looks for, due by `now`. A missing time is not due.
unfoldable pub is_due : ℕ → WebhookDelivery → Bool
is_due now delivery = elim delivery.next_retry_at [
  | none ↦ false
  | some due ↦
      let late = leb due now in
      elim delivery.status [ retrying ↦ late | breaker_open ↦ late | _ ↦ false ]
]

-- Before which of two deliveries a sorted query lists the other, by `next_retry_at`.
earlier : WebhookDelivery → WebhookDelivery → Bool
earlier a b = elim a.next_retry_at [
  | none ↦ false
  | some t ↦ elim b.next_retry_at [ none ↦ true | some u ↦ leb t u ]
]

unfoldable pub insert_by_due : WebhookDelivery → List WebhookDelivery → List WebhookDelivery
unfolding earlier
insert_by_due a [] = a ∷ []
insert_by_due a (b ∷ bs) =
    let rest = insert_by_due a bs in if earlier a b then a ∷ b ∷ bs else b ∷ rest

unfoldable pub sort_by_due : List WebhookDelivery → List WebhookDelivery
sort_by_due [] = []
sort_by_due (a ∷ more) = insert_by_due a (sort_by_due more)

abbrev pub rows : Dict WebhookDelivery → List WebhookDelivery
rows [] = []
rows ((id, delivery) ∷ more) = delivery ∷ rows more

module _ (env : Env) where
  -- The loop over the decisions; `celery` tells whether a worker takes the deliveries.
  unfoldable pub fan_out :
      Bool
      → String
      → String
      → ℕ
      → List Decision
      → State
      → State × List String × List Effect × Outcome
  fan_out celery event payload version [] s = (s, [], [], returned)
  fan_out celery event payload version (d ∷ ds) s =
      let skipped = fan_out celery event payload version ds s in
      let after = create_delivery d.id d.created_at d.webhook event payload version s in
      let created = get_or after s in
      let queued = fan_out celery event payload version ds created in
      let (sent, effects, outcome) = dispatch_delivery env d.world d.id created in
      let followed = fan_out celery event payload version ds sent in
      if not d.allowed
      then skipped
      else if not (is_some after)
      then (s, [], [], escaped integrity_error)
      else if celery
      then (queued.0, d.id ∷ queued.1, enqueue d.id ∷ queued.2, queued.3)
      else after_call outcome (followed.0, d.id ∷ followed.1, effects ++ followed.2, followed.3)
          (λ exc. (sent, d.id ∷ [], effects, escaped exc))

  -- The due deliveries of a sweep, in its order.
  unfoldable pub due_deliveries : ℕ → ℕ → State → List WebhookDelivery
  due_deliveries now batch_size s =
      take batch_size (sort_by_due (filter (is_due now) (rows s.deliveries)))

  -- The loop of a sweep, with the number of dispatches; an exception ends it.
  unfoldable pub dispatch_all :
      (String → World) → List WebhookDelivery → State → State × ℕ × List Effect × Outcome
  dispatch_all worlds [] s = (s, 0, [], returned)
  dispatch_all worlds (d ∷ ds) s =
      let (s', effects, outcome) = dispatch_delivery env (worlds d.id) d.id s in
      let rest = dispatch_all worlds ds s' in
      after_call outcome (rest.0, suc rest.1, effects ++ rest.2, rest.3)
        (λ exc. (s', 0, effects, escaped exc))

  unfoldable pub retry_pending_deliveries :
      (String → World) → ℕ → ℕ → State → State × ℕ × List Effect × Outcome
  unfolding due_deliveries dispatch_all
  retry_pending_deliveries worlds now batch_size s =
      dispatch_all worlds (due_deliveries now batch_size s) s
