-- ===== src/Webhooks/Schedule.antt =====
-- How a dispatch ends (app/services/webhook_service.py).
use apex_chainx_backend.Common.{
  ℕ, ◌+◌, ◌-◌, ◌*◌, ◌≤◌, ◌<◌, ◌≡◌, refl, inl, inr, ◌⊎◌, String, Bool, true, false, some, List, [],
  lookup, lookup-insert_self, Bool-cases, arith, subst, ap, ◌∙◌, leb,
}
use apex_chainx_backend.Webhooks.{
  sending, success, retrying, dead_letter, breaker_open, Webhook, WebhookDelivery, Env, World,
  Effect, Exception,
}
use apex_chainx_backend.Webhooks.Sending.{attempt_delivery}
use apex_chainx_backend.Webhooks.Answered.{
  Attempt-cases, Always, IsAnswered, IsPolite, attempt_delivery-IsAnswered,
}
use apex_chainx_backend.Webhooks.Dispatch.{
  State, Outcome, returned, escaped, retry_or_bury, settle, claim, dispatch_claimed,
  dispatch_delivery, is_claimable, is_terminal, is_breaker_open,
}
use apex_chainx_backend.Webhooks.Phases.{retry_limit, retry_test, settle-same}

-- A retry is due between the end of the attempt and the cap.
abbrev pub IsScheduled : Env → World → WebhookDelivery → Type 0
IsScheduled env world d =
    (due : ℕ) × (d.next_retry_at ≡ some due)
    × (world.settled_at ≤ due)
    × (due ≤ world.settled_at + env.retry_max_delay_seconds * 1000)

-- The ends of a dispatch of a delivery that had failed `attempts` times.
abbrev pub IsSettled : Env → World → Webhook → ℕ → WebhookDelivery → Type 0
IsSettled env world w attempts d =
    (d.status ≡ success)
    ⊎ (d.status ≡ breaker_open)
    ⊎ ((attempts < retry_limit env w) × (d.status ≡ retrying) × IsScheduled env world d)
    ⊎ ((retry_limit env w ≤ attempts) × (d.status ≡ dead_letter))

module _ (env : Env) (world : World) (w : Webhook) where
  retry_or_bury-IsSettled :
      (d : WebhookDelivery) (time : ℕ)
      → 1 ≤ d.attempt_count
      → IsSettled env world w
          (d.attempt_count - 1)
          (record (retry_or_bury env world w d) { updated_at = time })
  unfolding retry_or_bury
  retry_or_bury-IsSettled d time h = elim (Bool-cases (leb d.attempt_count (retry_limit env w))) [
    | inl more ↦
        rw (retry_or_bury, retry_test env world w d h, more)
          (inr (inr (inl (ground arith, refl, (_, refl, omega arith, omega arith)))))
    | inr last ↦
        rw (retry_or_bury, retry_test env world w d h, last) (inr (inr (inr (ground arith, refl))))
  ]

  settle-IsSettled :
      (d row : WebhookDelivery) (ok : Bool)
      → d.status ≡ sending
      → 1 ≤ d.attempt_count
      → IsAnswered d ok row
      → IsSettled env world w (d.attempt_count - 1) (settle env world w ok row)
  unfolding settle is_breaker_open
  settle-IsSettled d row true e h answered = inl refl
  settle-IsSettled d row false e h (_, count, inl same) =
      let closed : is_breaker_open row.status ≡ false = ap is_breaker_open (same ∙ e) in
      rw closed (
        subst
          (λ n.
            IsSettled env world w (n - 1)
              (record (retry_or_bury env world w row) { updated_at = world.finished_at }))
          count (retry_or_bury-IsSettled row world.finished_at (omega (arith, count))))
  settle-IsSettled d row false e h (_, count, inr (_, deferred)) =
      let hit : is_breaker_open row.status ≡ true = ap is_breaker_open deferred in
      inr (inl (rw hit deferred))

-- What a dispatch of a claimable delivery leaves and returns.
abbrev pub IsEnded :
    Env
    → World
    → Webhook
    → String
    → WebhookDelivery
    → State
    → State × List Effect × Outcome
    → Type 0
IsEnded env world w id d s (s', effects, outcome) =
    (s'.webhooks ≡ s.webhooks)
    × (d' : WebhookDelivery) × (lookup id s'.deliveries ≡ some d')
    × (d'.attempt_count ≡ d.attempt_count + 1)
    × (d'.webhook_id ≡ d.webhook_id)
    × (((outcome ≡ returned) × IsSettled env world w d.attempt_count d')
        ⊎ ((exc : Exception) × (outcome ≡ escaped exc) × (effects ≡ []) × (d'.status ≡ sending)))

module _ (env : Env) (world : World) (w : Webhook) (id : String) (d : WebhookDelivery) (s : State)
    (e : lookup id s.deliveries ≡ some d) (claimable : is_claimable d.status ≡ true)
    (owner : lookup d.webhook_id s.webhooks ≡ some w) where
  pub dispatch_delivery_ends : IsEnded env world w id d s (dispatch_delivery env world id s)
  unfolding dispatch_delivery dispatch_claimed claim is_terminal
  dispatch_delivery_ends =
      let stored = lookup-insert_self id (claim env world d) s.deliveries in
      elim (Attempt-cases (attempt_delivery env world (claim env world d) w s.breaker)) [
        | inl (exc, e') ↦
            rw (e, claimable, dispatch_delivery, dispatch_claimed, stored, owner, e')
              (refl, claim env world d, stored, refl, refl, inr (exc, refl, refl, refl))
        | inr (ok, row, b, effects, e') ↦
            let after = settle env world w ok row in
            let (answered, _) =
              subst
                (Always (λ ok row effects.
                  IsAnswered (claim env world d) ok row
                  × IsPolite env world (claim env world d) w s.breaker effects))
                e' (attempt_delivery-IsAnswered env world (claim env world d) w s.breaker) in
            let (owned, counted) = settle-same env world w row ok in
            let settled : IsSettled env world w d.attempt_count after =
              subst (λ n. IsSettled env world w n after) (omega arith)
                (settle-IsSettled env world w (claim env world d) row ok refl (omega arith)
                  answered) in
            rw (e, claimable, dispatch_delivery, dispatch_claimed, stored, owner, e')
              (
                refl,
                after,
                lookup-insert_self id after _,
                counted ∙ answered.1,
                owned ∙ answered.0,
                inl (refl, settled),
              )
      ]
