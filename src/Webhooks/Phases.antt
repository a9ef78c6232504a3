-- ===== src/Webhooks/Phases.antt =====
-- The fields that go with the states of a delivery
-- (app/services/webhook_service.py).
use apex_chainx_backend.Common.{
  ℕ, ◌+◌, ◌-◌, ◌≤◌, min, ◌≡◌, refl, inl, inr, String, Bool, true, false, none, some, Dict,
  Bool-cases, arith, if◌then◌else◌, subst, ap, ◌∙◌, length, is_some, lookup, ltb, leb, ◌==◌, ◌&&◌,
  leb→le,
}
use apex_chainx_backend.Webhooks.{
  DeliveryStatus, pending, sending, success, failed, retrying, dead_letter, breaker_open, Webhook,
  WebhookDelivery, Env, World,
}
use apex_chainx_backend.Webhooks.Answered.{IsAnswered}
use apex_chainx_backend.Webhooks.Dispatch.{retry_or_bury, settle, is_breaker_open, is_claimable}

-- The number of retries of a webhook: its own bound, or that of the configured delays.
abbrev pub retry_limit : Env → Webhook → ℕ
retry_limit env w =
    min (if w.max_retries == 0 then 3 else w.max_retries) (length env.retry_base_delays)

abbrev pub limit_of : Env → Dict Webhook → String → ℕ
limit_of env webhooks webhook_id = elim (lookup webhook_id webhooks) [
  | none ↦ 0
  | some w ↦ retry_limit env w
]

-- The fields that go with each status, for a delivery with `limit` retries.
abbrev pub IsInPhase : ℕ → DeliveryStatus → WebhookDelivery → Type 0
IsInPhase limit pending d = d.attempt_count ≡ 0
IsInPhase limit sending d = (1 ≤ d.attempt_count) × (d.attempt_count ≤ limit + 1)
IsInPhase limit success d =
    (1 ≤ d.attempt_count)
    × (d.attempt_count ≤ limit + 1)
    × (is_some d.delivered_at ≡ true)
    × (d.next_retry_at ≡ none)
IsInPhase limit failed d = ⊥
IsInPhase limit retrying d =
    (1 ≤ d.attempt_count) × (d.attempt_count ≤ limit) × (is_some d.next_retry_at ≡ true)
IsInPhase limit dead_letter d =
    (d.attempt_count ≡ limit + 1) × (is_some d.dead_lettered_at ≡ true) × (d.next_retry_at ≡ none)
IsInPhase limit breaker_open d = (1 ≤ d.attempt_count) × (d.attempt_count ≤ limit + 1)

abbrev pub IsPhased : ℕ → WebhookDelivery → Type 0
IsPhased limit d = IsInPhase limit d.status d

module _ (env : Env) (world : World) (w : Webhook) where
  -- The retry test, as one comparison.
  pub retry_test :
      (d : WebhookDelivery)
      → 1 ≤ d.attempt_count
      → (ltb (d.attempt_count - 1) (if w.max_retries == 0 then 3 else w.max_retries)
          && ltb (d.attempt_count - 1) (length env.retry_base_delays))
        ≡ leb d.attempt_count (retry_limit env w)
  retry_test d h = ground arith

  retry_or_bury-IsPhased :
      (d : WebhookDelivery)
      → 1 ≤ d.attempt_count
      → d.attempt_count ≤ retry_limit env w + 1
      → (time : ℕ)
      → IsPhased (retry_limit env w) (record (retry_or_bury env world w d) { updated_at = time })
  unfolding retry_or_bury
  retry_or_bury-IsPhased d h h' time = elim (Bool-cases (leb d.attempt_count (retry_limit env w))) [
    | inl more ↦ rw (retry_or_bury, retry_test d h, more) (h, leb→le _ _ more, refl)
    | inr last ↦ rw (retry_or_bury, retry_test d h, last) (ground arith, refl, refl)
  ]

  pub settle-IsPhased :
      (d row : WebhookDelivery) (ok : Bool)
      → d.status ≡ sending
      → 1 ≤ d.attempt_count
      → d.attempt_count ≤ retry_limit env w + 1
      → IsAnswered d ok row
      → IsPhased (retry_limit env w) (settle env world w ok row)
  unfolding settle is_breaker_open
  settle-IsPhased d row true e h h' (_, count, _) =
      (omega (arith, count), omega (arith, count), refl, refl)
  settle-IsPhased d row false e h h' (_, count, inl same) =
      let closed : is_breaker_open row.status ≡ false = ap is_breaker_open (same ∙ e) in
      rw closed
        (retry_or_bury-IsPhased row (omega (arith, count)) (omega (arith, count)) world.finished_at)
  settle-IsPhased d row false e h h' (_, count, inr (_, deferred)) =
      rw deferred (omega (arith, count), omega (arith, count))

  retry_or_bury-same :
      (d : WebhookDelivery)
      → ((retry_or_bury env world w d).webhook_id ≡ d.webhook_id)
        × ((retry_or_bury env world w d).attempt_count ≡ d.attempt_count)
  unfolding retry_or_bury
  retry_or_bury-same d = (ground arith, ground arith)

  pub settle-same :
      (row : WebhookDelivery) (ok : Bool)
      → ((settle env world w ok row).webhook_id ≡ row.webhook_id)
        × ((settle env world w ok row).attempt_count ≡ row.attempt_count)
  unfolding settle
  settle-same row true = (refl, refl)
  settle-same row false = elim (Bool-cases (is_breaker_open row.status)) [
    | inl hit ↦ rw (hit, settle) (refl, refl)
    | inr shut ↦ rw (shut, settle) (retry_or_bury-same row)
  ]

pub IsInPhase-sending :
    (limit : ℕ) (d : WebhookDelivery)
    → d.status ≡ sending
    → IsPhased limit d
    → (1 ≤ d.attempt_count) × (d.attempt_count ≤ limit + 1)
IsInPhase-sending limit d e h = subst (λ st. IsInPhase limit st d) e h

pub claimable-bound :
    (limit : ℕ) (d : WebhookDelivery) (st : DeliveryStatus)
    → is_claimable st ≡ true
    → IsInPhase limit st d
    → d.attempt_count ≤ limit
unfolding is_claimable
claimable-bound limit d pending h phase = omega (arith, phase)
claimable-bound limit d retrying h phase = phase.1
claimable-bound limit d sending h phase = ground arith
claimable-bound limit d success h phase = ground arith
claimable-bound limit d dead_letter h phase = ground arith
claimable-bound limit d failed h phase = ground arith
claimable-bound limit d breaker_open h phase = ground arith
