-- ===== src/Webhooks/Exhausted.antt =====
-- A delivery is not dispatched for ever (app/services/webhook_service.py).
use apex_chainx_backend.Common.{
  ◌+◌, ◌<◌, ◌≡◌, refl, inl, inr, ◌⊎◌, String, false, some, List, [], ◌∷◌, map, length, lookup,
  Bool-cases, arith, ap, ap₂, ◌∙◌,
}
use apex_chainx_backend.Webhooks.{Webhook, WebhookDelivery, Env, World}
use apex_chainx_backend.Webhooks.Dispatch.{State, returned, dispatch_delivery, is_claimable}
use apex_chainx_backend.Webhooks.Phases.{retry_limit, limit_of, claimable-bound}
use apex_chainx_backend.Webhooks.Lifecycle.{IsLawful, run-IsLawful}
use apex_chainx_backend.Webhooks.Schedule.{dispatch_delivery_ends}
use apex_chainx_backend.Webhooks.Runs.{Op, dispatch, run, step}

module _ (env : Env) where
  pub dispatch_delivery-kept :
      (world : World) (id : String) (s : State) (d : WebhookDelivery)
      → lookup id s.deliveries ≡ some d
      → is_claimable d.status ≡ false
      → dispatch_delivery env world id s ≡ (s, [], returned)
  unfolding dispatch_delivery
  dispatch_delivery-kept world id s d e kept = rw (e, kept, dispatch_delivery) refl

  -- Dispatches of one delivery, one after the other.
  abbrev pub dispatches : String → List World → List Op
  dispatches id worlds = map (λ world. dispatch world id) worlds

  run-kept_waiting :
      (worlds : List World) (id : String) (s : State) (d : WebhookDelivery)
      → lookup id s.deliveries ≡ some d
      → is_claimable d.status ≡ false
      → run env (dispatches id worlds) s ≡ s
  unfolding run step
  run-kept_waiting [] id s d e kept = refl
  run-kept_waiting (world ∷ worlds) id s d e kept =
      ap (λ r. run env (dispatches id worlds) r.0) (dispatch_delivery-kept world id s d e kept)
      ∙ run-kept_waiting worlds id s d e kept

  counted :
      (worlds : List World) (w : Webhook) (id : String) (s : State) (d : WebhookDelivery)
      → lookup id s.deliveries ≡ some d
      → lookup d.webhook_id s.webhooks ≡ some w
      → (d' : WebhookDelivery) × (lookup id (run env (dispatches id worlds) s).deliveries ≡ some d')
        × (d'.webhook_id ≡ d.webhook_id)
        × ((run env (dispatches id worlds) s).webhooks ≡ s.webhooks)
        × ((is_claimable d'.status ≡ false) ⊎ (d'.attempt_count ≡ d.attempt_count + length worlds))
  unfolding run step
  counted [] w id s d e owner = (d, e, refl, refl, inr (omega arith))
  counted (world ∷ worlds) w id s d e owner = elim (Bool-cases (is_claimable d.status)) [
    | inr kept ↦
        let same = run-kept_waiting (world ∷ worlds) id s d e kept in
        (d, ap (λ t. lookup id t.deliveries) same ∙ e, refl, ap (λ t. t.webhooks) same, inl kept)
    | inl claimable ↦
        let (webhooks, d1, e1, count1, same1, _) =
          dispatch_delivery_ends env world w id d s e claimable owner in
        let next = (dispatch_delivery env world id s).0 in
        let ended : (d2 : WebhookDelivery)
            → (is_claimable d2.status ≡ false)
              ⊎ (d2.attempt_count ≡ d1.attempt_count + length worlds)
            → (is_claimable d2.status ≡ false)
              ⊎ (d2.attempt_count ≡ d.attempt_count + length (world ∷ worlds)) =
          λ d2 end. ground (arith, end, count1) in
        let (d2, e2, same2, webhooks2, end) =
          counted worlds w id next d1 e1
            (ap (λ k. lookup k next.webhooks) same1 ∙ ap (lookup d.webhook_id) webhooks ∙ owner) in
        (d2, e2, same2 ∙ same1, webhooks2 ∙ webhooks, ended d2 end)
  ]

  -- More dispatches than the retry limit of its webhook, whatever they meet, leave a valid delivery
  -- where no further dispatch takes it.
  pub dispatches_end :
      (worlds : List World) (w : Webhook) (id : String) (s : State) (d : WebhookDelivery)
      → IsLawful env s
      → lookup id s.deliveries ≡ some d
      → lookup d.webhook_id s.webhooks ≡ some w
      → retry_limit env w < length worlds
      → (d' : WebhookDelivery) × (lookup id (run env (dispatches id worlds) s).deliveries ≡ some d')
        × (is_claimable d'.status ≡ false)
  dispatches_end worlds w id s d valid e owner long =
      let (d', e', same, webhooks, end) = counted worlds w id s d e owner in
      (
        d',
        e',
        elim (Bool-cases (is_claimable d'.status)) [
          | inr kept ↦ kept
          | inl claimable ↦
              let after = run env (dispatches id worlds) s in
              let bound =
                claimable-bound (limit_of env after.webhooks d'.webhook_id) d' d'.status claimable
                  (run-IsLawful env (dispatches id worlds) s valid id d' e') in
              let limit : limit_of env after.webhooks d'.webhook_id ≡ retry_limit env w =
                ap₂ (limit_of env) webhooks same ∙ ground (arith, owner) in
              ground (arith, end, bound, limit, long)
        ],
      )
