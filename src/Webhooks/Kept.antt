-- ===== src/Webhooks/Kept.antt =====
-- What every single change of the deliveries keeps, every operation of
-- app/services/webhook_service.py keeps.
use apex_chainx_backend.Common.{
  ℕ, ◌≡◌, inl, inr, String, Bool, some, List, [], ◌∷◌, Option-cases, Bool-cases, is_some, lookup,
  str_eq, get_or,
}
use apex_chainx_backend.Webhooks.{Webhook, WebhookDelivery, Env, World, Exception, Effect}
use apex_chainx_backend.Webhooks.Dispatch.{
  State, Outcome, returned, escaped, after_call, dispatch_delivery,
}
use apex_chainx_backend.Webhooks.Queue.{
  Decision, create_delivery, fan_out, dispatch_all, due_deliveries, retry_pending_deliveries,
}
use apex_chainx_backend.Webhooks.Replay.{
  replay_dead_letter_delivery, replay_all, replay_deliveries_by_event_context,
}
use apex_chainx_backend.Webhooks.Endpoint.{Reply, refusal, retry_delivery}
use apex_chainx_backend.Webhooks.Runs.{
  Op, trigger, dispatch, sweep, replay, replay_context, retry, step, run,
}

after_call-kept {ℓ κ} :
    {A : Type ℓ} (Q : A → Type κ) (o : Outcome) (rest : A) (handler : Exception → A)
    → Q rest
    → ((e : Exception) → Q (handler e))
    → Q (after_call o rest handler)
after_call-kept Q returned rest handler h h' = h
after_call-kept Q (escaped exc) rest handler h h' = h' exc

module _ (env : Env) (P : State → Type 0)
    (dispatched : (world : World) (id : String) (s : State)
      → P s
      → P (dispatch_delivery env world id s).0)
    (created : (id : String) (now : ℕ) (webhook : Webhook) (event payload : String) (version : ℕ)
        (s s' : State)
      → create_delivery id now webhook event payload version s ≡ some s'
      → P s
      → P s')
    (replayed : (world : World) (now : ℕ) (id : String) (s : State)
      → P s
      → P (replay_dead_letter_delivery env world now id s).0) where
  dispatch_all-kept :
      (worlds : String → World) (ds : List WebhookDelivery) (s : State)
      → P s
      → P (dispatch_all env worlds ds s).0
  unfolding dispatch_all
  dispatch_all-kept worlds [] s h = h
  dispatch_all-kept worlds (d ∷ ds) s h =
      let Q : State × ℕ × List Effect × Outcome → Type 0 = λ r. P r.0 in
      let next = dispatched (worlds d.id) d.id s h in
      after_call-kept Q _ _ _ (dispatch_all-kept worlds ds _ next) (λ e. next)

  replay_all-kept :
      (worlds : String → World) (now : ℕ) (ds : List WebhookDelivery) (s : State)
      → P s
      → P (replay_all env worlds now ds s).0
  unfolding replay_all
  replay_all-kept worlds now [] s h = h
  replay_all-kept worlds now (d ∷ ds) s h =
      let Q : State × ℕ × List Effect × Outcome → Type 0 = λ r. P r.0 in
      let next = replayed (worlds d.id) now d.id s h in
      after_call-kept Q _ _ _ (replay_all-kept worlds now ds _ next) (λ e. next)

  created_or_same :
      (id : String) (now : ℕ) (webhook : Webhook) (event payload : String) (version : ℕ) (s : State)
      → P s
      → P (get_or (create_delivery id now webhook event payload version s) s)
  created_or_same id now webhook event payload version s h =
      elim (Option-cases (create_delivery id now webhook event payload version s)) [
        | inl e ↦ rw e h
        | inr (s', e) ↦ rw e (created id now webhook event payload version s s' e h)
      ]

  fan_out-kept :
      (celery : Bool) (event payload : String) (version : ℕ) (ds : List Decision) (s : State)
      → P s
      → P (fan_out env celery event payload version ds s).0
  unfolding fan_out
  fan_out-kept celery event payload version [] s h = h
  fan_out-kept celery event payload version (d ∷ ds) s h =
      let Q : State × List String × List Effect × Outcome → Type 0 = λ r. P r.0 in
      let made = created_or_same d.id d.created_at d.webhook event payload version s h in
      let next = dispatched d.world d.id _ made in
      let outcome =
        (dispatch_delivery env d.world d.id
          (get_or (create_delivery d.id d.created_at d.webhook event payload version s) s)).2 in
      elim (Bool-cases d.allowed) [
        | inr skipped ↦ rw (skipped, fan_out) (fan_out-kept celery event payload version ds s h)
        | inl allowed ↦
            elim (Bool-cases
              (is_some (create_delivery d.id d.created_at d.webhook event payload version s))) [
                | inr taken ↦ rw (allowed, taken, fan_out) h
                | inl fresh ↦ elim (Bool-cases celery) [
                  | inl queued ↦
                      rw (allowed, fresh, queued, fan_out)
                        (fan_out-kept celery event payload version ds _ made)
                  | inr direct ↦
                      rw (allowed, fresh, direct, fan_out)
                        (after_call-kept Q outcome _ _
                          (fan_out-kept celery event payload version ds _ next) (λ e. next))
                ]
              ]
      ]

  retry_delivery-kept :
      (world : World) (actor webhook_id id : String) (s : State)
      → P s
      → P (retry_delivery env world actor webhook_id id s).0
  unfolding retry_delivery
  retry_delivery-kept world actor webhook_id id s h =
      let Q : State × List Effect × Reply → Type 0 = λ r. P r.0 in
      elim (Option-cases (lookup webhook_id s.webhooks)) [
        | inl e ↦ rw (e, retry_delivery) h
        | inr (webhook, e) ↦ elim (Option-cases (lookup id s.deliveries)) [
          | inl e' ↦ rw (e, e', retry_delivery) h
          | inr (delivery, e') ↦ elim (Bool-cases (str_eq delivery.webhook_id webhook_id)) [
            | inr other ↦ rw (e, e', other, retry_delivery) h
            | inl own ↦ elim (Option-cases (refusal delivery.status)) [
              | inl e'' ↦
                  let next = dispatched world id s h in
                  rw (e, e', own, e'', retry_delivery)
                    (after_call-kept Q (dispatch_delivery env world id s).2 _ _ next (λ exc. next))
              | inr (reply, e'') ↦ rw (e, e', own, e'', retry_delivery) h
            ]
          ]
        ]
      ]

  step-kept : (op : Op) (s : State) → P s → P (step env op s)
  unfolding step retry_pending_deliveries replay_deliveries_by_event_context
  step-kept (trigger celery event payload version ds) s h =
      fan_out-kept celery event payload version ds s h
  step-kept (dispatch world id) s h = dispatched world id s h
  step-kept (sweep worlds now batch_size) s h =
      dispatch_all-kept worlds (due_deliveries env now batch_size s) s h
  step-kept (replay world now id) s h = replayed world now id s h
  step-kept (replay_context worlds now read event device_id outage_id limit) s h =
      replay_all-kept worlds now _ s h
  step-kept (retry world actor webhook_id id) s h =
      retry_delivery-kept world actor webhook_id id s h

  pub run-kept : (ops : List Op) (s : State) → P s → P (run env ops s)
  unfolding run
  run-kept [] s h = h
  run-kept (op ∷ ops) s h = run-kept ops (step env op s) (step-kept op s h)
