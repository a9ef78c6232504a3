-- ===== src/Webhooks/Stuck.antt =====
-- Deliveries that no operation of app/services/webhook_service.py changes any more.
use apex_chainx_backend.Common.{
  ℕ, ◌≡◌, refl, inl, inr, String, true, false, none, some, List, Option-cases, Bool-cases, arith,
  lookup, str_eq, eq_iff, subst, lookup-insert-ne, insert, sym, ap, ◌∙◌,
}
use apex_chainx_backend.Webhooks.{Webhook, WebhookDelivery, Env, World}
use apex_chainx_backend.Webhooks.Answered.{Attempt-cases}
use apex_chainx_backend.Webhooks.Sending.{attempt_delivery}
use apex_chainx_backend.Webhooks.Dispatch.{
  State, is_claimable, is_terminal, claim, settle, dispatch_claimed, dispatch_delivery,
}
use apex_chainx_backend.Webhooks.Queue.{create_delivery, new_delivery}
use apex_chainx_backend.Webhooks.Replay.{is_dead, revived, replay_dead_letter_delivery}
use apex_chainx_backend.Webhooks.Runs.{Op, run}
use apex_chainx_backend.Webhooks.Kept.{run-kept}

module _ (env : Env) (world : World) where
  dispatch_claimed-other :
      (id other : String) (s : State)
      → str_eq other id ≡ false
      → lookup id (dispatch_claimed env world other s).0.deliveries ≡ lookup id s.deliveries
  unfolding dispatch_claimed
  dispatch_claimed-other id other s h = elim (Option-cases (lookup other s.deliveries)) [
    | inl e ↦ rw (e, dispatch_claimed) refl
    | inr (d, e) ↦ elim (Bool-cases (is_terminal d.status)) [
      | inl over ↦ rw (e, over, dispatch_claimed) refl
      | inr going ↦ elim (Option-cases (lookup d.webhook_id s.webhooks)) [
        | inl e' ↦ rw (e, going, e', dispatch_claimed) refl
        | inr (w, e') ↦ elim (Attempt-cases (attempt_delivery env world d w s.breaker)) [
          | inl (exc, e'') ↦ rw (e, going, e', e'', dispatch_claimed) refl
          | inr (ok, row, b, effects, e'') ↦
              rw (e, going, e', e'', dispatch_claimed)
                (lookup-insert-ne other id (settle env world w ok row) s.deliveries h)
        ]
      ]
    ]
  ]

  pub dispatch_delivery-other :
      (id other : String) (s : State)
      → str_eq other id ≡ false
      → lookup id (dispatch_delivery env world other s).0.deliveries ≡ lookup id s.deliveries
  unfolding dispatch_delivery
  dispatch_delivery-other id other s h = elim (Option-cases (lookup other s.deliveries)) [
    | inl e ↦ rw (e, dispatch_delivery) refl
    | inr (d, e) ↦ elim (Bool-cases (is_claimable d.status)) [
      | inr kept ↦ rw (e, kept, dispatch_delivery) refl
      | inl claimable ↦
          rw (e, claimable, dispatch_delivery)
            (dispatch_claimed-other id other _ h
              ∙ lookup-insert-ne other id (claim env world d) s.deliveries h)
    ]
  ]

pub create_delivery-some :
    (id : String) (now : ℕ) (webhook : Webhook) (event payload : String) (version : ℕ)
    (s s' : State)
    → create_delivery id now webhook event payload version s ≡ some s'
    → (lookup id s.deliveries ≡ none)
      × (s' ≡ record s {
        deliveries = insert id (new_delivery id now webhook event payload version) s.deliveries;
      })
unfolding create_delivery
create_delivery-some id now webhook event payload version s s' made =
    elim (Option-cases (lookup id s.deliveries)) [
      | inl e ↦ (e, ground arith)
      | inr (d, e) ↦ ground arith
    ]

-- A row that is neither waiting for a dispatch nor a dead letter.
abbrev pub IsLeft : String → WebhookDelivery → State → Type 0
IsLeft id d s = lookup id s.deliveries ≡ some d

module _ (env : Env) (id : String) (d : WebhookDelivery) (resting : is_claimable d.status ≡ false)
    (alive : is_dead d.status ≡ false) where
  dispatch_delivery-IsLeft :
      (world : World) (other : String) (s : State)
      → IsLeft id d s
      → IsLeft id d (dispatch_delivery env world other s).0
  unfolding dispatch_delivery
  dispatch_delivery-IsLeft world other s h = elim (Bool-cases (str_eq other id)) [
    | inr different ↦ dispatch_delivery-other env world id other s different ∙ h
    | inl same ↦
        let e : lookup other s.deliveries ≡ some d = ground (arith, eq_iff other id, h) in
        rw (e, resting, dispatch_delivery) h
  ]

  create_delivery-IsLeft :
      (other : String) (now : ℕ) (webhook : Webhook) (event payload : String) (version : ℕ)
      (s s' : State)
      → create_delivery other now webhook event payload version s ≡ some s'
      → IsLeft id d s
      → IsLeft id d s'
  create_delivery-IsLeft other now webhook event payload version s s' made h =
      let (free, e) = create_delivery-some other now webhook event payload version s s' made in
      let row : WebhookDelivery = new_delivery other now webhook event payload version in
      let different : str_eq other id ≡ false = ground (arith, eq_iff other id, h) in
      subst (IsLeft id d) (sym e) (lookup-insert-ne other id row s.deliveries different ∙ h)

  dead-different :
      (other : String) (found : WebhookDelivery) (s : State)
      → IsLeft id d s
      → lookup other s.deliveries ≡ some found
      → is_dead found.status ≡ true
      → str_eq other id ≡ false
  dead-different other found s h e dead = elim (Bool-cases (str_eq other id)) [
    | inr different ↦ different
    | inl same ↦
        let e' : found ≡ d = ground (arith, eq_iff other id, h, e) in
        ground (arith, ap (λ x. is_dead x.status) e', dead, alive)
  ]

  replay_dead_letter_delivery-IsLeft :
      (world : World) (now : ℕ) (other : String) (s : State)
      → IsLeft id d s
      → IsLeft id d (replay_dead_letter_delivery env world now other s).0
  unfolding replay_dead_letter_delivery
  replay_dead_letter_delivery-IsLeft world now other s h =
      elim (Option-cases (lookup other s.deliveries)) [
        | inl e ↦ rw (e, replay_dead_letter_delivery) h
        | inr (found, e) ↦ elim (Bool-cases (is_dead found.status)) [
          | inr waiting ↦ rw (e, waiting, replay_dead_letter_delivery) h
          | inl dead ↦
              let different = dead-different other found s h e dead in
              rw (e, dead, replay_dead_letter_delivery)
                (dispatch_delivery-IsLeft world other _
                  (lookup-insert-ne other id (revived now found) s.deliveries different ∙ h))
        ]
      ]

  -- A delivery that is SENDING, SUCCESS or BREAKER_OPEN is the same after any run of triggers,
  -- tasks, sweeps, replays and retries through the endpoint.
  pub run-IsLeft : (ops : List Op) (s : State) → IsLeft id d s → IsLeft id d (run env ops s)
  run-IsLeft ops s h =
      run-kept env (IsLeft id d) dispatch_delivery-IsLeft create_delivery-IsLeft
        replay_dead_letter_delivery-IsLeft ops s h
