-- ===== src/Webhooks/Lifecycle.antt =====
-- The states of a delivery, the bound on its attempts and the schedule of its retries
-- (app/services/webhook_service.py).
use apex_chainx_backend.Common.{
  ℕ, ◌≡◌, refl, inl, inr, String, false, some, List, Option-cases, Bool-cases, arith, str_eq, subst,
  sym, ap, ◌∙◌, lookup, lookup-insert, lookup-insert_self, insert,
}
use apex_chainx_backend.Webhooks.{sending, Webhook, WebhookDelivery, Env, World}
use apex_chainx_backend.Webhooks.Phases.{
  retry_limit, limit_of, IsPhased, settle-IsPhased, settle-same, IsInPhase-sending, claimable-bound,
}
use apex_chainx_backend.Webhooks.Answered.{
  Attempt-cases, Always, IsAnswered, IsPolite, attempt_delivery-IsAnswered,
}
use apex_chainx_backend.Webhooks.Queue.{create_delivery, new_delivery}
use apex_chainx_backend.Webhooks.Replay.{is_dead, revived, replay_dead_letter_delivery}
use apex_chainx_backend.Webhooks.Runs.{Op, run}
use apex_chainx_backend.Webhooks.Kept.{run-kept}
use apex_chainx_backend.Webhooks.Stuck.{create_delivery-some}
use apex_chainx_backend.Breaker.{CircuitBreaker}
use apex_chainx_backend.Webhooks.Sending.{attempt_delivery}
use apex_chainx_backend.Webhooks.Dispatch.{
  State, settle, claim, is_claimable, is_terminal, dispatch_claimed, dispatch_delivery,
}

-- Every stored delivery has the fields of its status.
abbrev pub IsLawful : Env → State → Type 0
IsLawful env s =
    (id : String) (d : WebhookDelivery)
    → lookup id s.deliveries ≡ some d
    → IsPhased (limit_of env s.webhooks d.webhook_id) d

IsLawful-insert :
    (env : Env) (s : State) (id : String) (d : WebhookDelivery)
    → IsLawful env s
    → IsPhased (limit_of env s.webhooks d.webhook_id) d
    → IsLawful env (record s { deliveries = insert id d s.deliveries })
IsLawful-insert env s id d valid h other found e = elim (Bool-cases (str_eq id other)) [
  | inl same ↦
      let e' : d ≡ found = ground (arith, lookup-insert id other d s.deliveries) in
      subst (λ x. IsPhased (limit_of env s.webhooks x.webhook_id) x) e' h
  | inr different ↦ valid other found (ground (arith, lookup-insert id other d s.deliveries))
]

-- The breaker has no part in it.
IsLawful-moved :
    (env : Env) (s : State) (b : CircuitBreaker) (id : String) (d : WebhookDelivery)
    → IsLawful env s
    → IsPhased (limit_of env s.webhooks d.webhook_id) d
    → IsLawful env (record s { deliveries = insert id d s.deliveries; breaker = b })
IsLawful-moved env s b id d = IsLawful-insert env s id d

module _ (env : Env) (world : World) where
  -- A delivery that has just been claimed, as the rest of the dispatch finds it.
  dispatch_claimed-IsLawful :
      (id : String) (d : WebhookDelivery) (s : State)
      → lookup id s.deliveries ≡ some d
      → d.status ≡ sending
      → IsLawful env s
      → IsLawful env (dispatch_claimed env world id s).0
  unfolding dispatch_claimed is_terminal
  dispatch_claimed-IsLawful id d s e active valid =
      elim (Option-cases (lookup d.webhook_id s.webhooks)) [
        | inl e' ↦ rw (e, going, e', dispatch_claimed) valid
        | inr (w, e') ↦ elim (Attempt-cases (attempt_delivery env world d w s.breaker)) [
          | inl (exc, e'') ↦ rw (e, going, e', e'', dispatch_claimed) valid
          | inr (ok, row, b, effects, e'') ↦
              let (_, bound) = IsInPhase-sending _ d active (valid id d e) in
              let here : limit_of env s.webhooks d.webhook_id ≡ retry_limit env w =
                ground (arith, e') in
              let (answered, _) =
                subst
                  (Always (λ ok row effects.
                    IsAnswered d ok row × IsPolite env world d w s.breaker effects))
                  e'' (attempt_delivery-IsAnswered env world d w s.breaker) in
              let owner : (settle env world w ok row).webhook_id ≡ d.webhook_id =
                (settle-same env world w row ok).0 ∙ answered.0 in
              let phased =
                settle-IsPhased env world w d row ok active
                  (IsInPhase-sending _ d active (valid id d e)).0 (omega (arith, here, bound))
                  answered in
              rw (e, going, e', e'', dispatch_claimed)
                (IsLawful-moved env s b id (settle env world w ok row) valid (
                  subst (λ n. IsPhased n (settle env world w ok row))
                    (sym (ap (limit_of env s.webhooks) owner ∙ here)) phased))
        ]
      ]
    where
      going : is_terminal d.status ≡ false
      going = ap is_terminal active

  pub dispatch_delivery-IsLawful :
      (id : String) (s : State) → IsLawful env s → IsLawful env (dispatch_delivery env world id s).0
  unfolding dispatch_delivery claim
  dispatch_delivery-IsLawful id s valid = elim (Option-cases (lookup id s.deliveries)) [
    | inl e ↦ rw (e, dispatch_delivery) valid
    | inr (d, e) ↦ elim (Bool-cases (is_claimable d.status)) [
      | inr kept ↦ rw (e, kept, dispatch_delivery) valid
      | inl claimable ↦
          rw (e, claimable, dispatch_delivery)
            (dispatch_claimed-IsLawful id (claim env world d) _
              (lookup-insert_self id (claim env world d) s.deliveries) refl
              (IsLawful-insert env s id (claim env world d) valid (
                omega arith,
                omega (arith, claimable-bound _ d d.status claimable (valid id d e)),
              )))
    ]
  ]

  replay_dead_letter_delivery-IsLawful :
      (now : ℕ) (id : String) (s : State)
      → IsLawful env s
      → IsLawful env (replay_dead_letter_delivery env world now id s).0
  unfolding replay_dead_letter_delivery revived
  replay_dead_letter_delivery-IsLawful now id s valid =
      elim (Option-cases (lookup id s.deliveries)) [
        | inl e ↦ rw (e, replay_dead_letter_delivery) valid
        | inr (d, e) ↦ elim (Bool-cases (is_dead d.status)) [
          | inr kept ↦ rw (e, kept, replay_dead_letter_delivery) valid
          | inl dead ↦
              rw (e, dead, replay_dead_letter_delivery)
                (dispatch_delivery-IsLawful id _
                  (IsLawful-insert env s id (revived now d) valid refl))
        ]
      ]

create_delivery-IsLawful :
    (env : Env) (id : String) (now : ℕ) (webhook : Webhook) (event payload : String) (version : ℕ)
    (s s' : State)
    → create_delivery id now webhook event payload version s ≡ some s'
    → IsLawful env s
    → IsLawful env s'
unfolding new_delivery
create_delivery-IsLawful env id now webhook event payload version s s' made valid =
    let (_, e) = create_delivery-some id now webhook event payload version s s' made in
    subst (IsLawful env) (sym e)
      (IsLawful-insert env s id (new_delivery id now webhook event payload version) valid refl)

pub run-IsLawful :
    (env : Env) (ops : List Op) (s : State) → IsLawful env s → IsLawful env (run env ops s)
run-IsLawful env =
    run-kept env (IsLawful env) (dispatch_delivery-IsLawful env) (create_delivery-IsLawful env)
      (replay_dead_letter_delivery-IsLawful env)
