-- ===== src/Webhooks/Screening.antt =====
-- Where a dispatch may send its request (app/services/webhook_service.py,
-- app/utils/network_validation.py).
use apex_chainx_backend.Common.{
  ◌≡◌, refl, inl, inr, ◌⊎◌, String, false, ◌&&◌, some, List, [], ◌∷◌, Dict, lookup,
  lookup-insert_self, Bool-cases, subst, filter, str_eq, get_or,
}
use apex_chainx_backend.Webhooks.{Webhook, WebhookDelivery, Env, World, post}
use apex_chainx_backend.Webhooks.Sending.{attempt_delivery, is_rebound}
use apex_chainx_backend.Webhooks.Screened.{IsScreened, validate_webhook_url-IsScreened}
use apex_chainx_backend.Webhooks.Answered.{
  Attempt-cases, Always, IsAnswered, IsPolite, is_post, attempt_delivery-IsAnswered,
}
use apex_chainx_backend.Webhooks.Dispatch.{
  State, claim, dispatch_claimed, dispatch_delivery, is_claimable, is_terminal,
}

-- The host of the webhook's URL was screened, and one of the addresses that were kept
-- is among those approved at registration, where any were.
abbrev pub IsSafe : Env → World → Webhook → Type 0
IsSafe env world w =
    (ips : List String) × IsScreened env.library env.network
      (get_or (env.library.urlparse w.url).hostname "") world.addr_info ips
    × (is_rebound env w ips ≡ false)

module _ (env : Env) (world : World) (w : Webhook) (id : String) (d : WebhookDelivery) (s : State)
    (e : lookup id s.deliveries ≡ some d) (owner : lookup d.webhook_id s.webhooks ≡ some w)
    (strict : env.network.validator_bypass && str_eq env.network.environment "local" ≡ false) where
  dispatch_delivery-IsPolite :
      IsPolite env world (claim env world d) w s.breaker (dispatch_delivery env world id s).1
  unfolding dispatch_delivery dispatch_claimed claim is_terminal
  dispatch_delivery-IsPolite = elim (Bool-cases (is_claimable d.status)) [
    | inr kept ↦ rw (e, kept, dispatch_delivery) (inl refl)
    | inl claimable ↦
        let stored = lookup-insert_self id (claim env world d) s.deliveries in
        elim (Attempt-cases (attempt_delivery env world (claim env world d) w s.breaker)) [
          | inl (exc, e') ↦
              rw (e, claimable, dispatch_delivery, dispatch_claimed, stored, owner, e') (inl refl)
          | inr (ok, row, b, effects, e') ↦
              let (_, polite) =
                subst
                  (Always (λ ok row effects.
                    IsAnswered (claim env world d) ok row
                    × IsPolite env world (claim env world d) w s.breaker effects))
                  e' (attempt_delivery-IsAnswered env world (claim env world d) w s.breaker) in
              rw (e, claimable, dispatch_delivery, dispatch_claimed, stored, owner, e') polite
        ]
  ]

  -- Outside of the bypass of local environments, a dispatch sends nothing, or one request with the
  -- stored payload to the URL of the webhook. In that case the resolver answers for the host of that
  -- URL, the addresses that the screening keeps of its answer (all, or five) are public, private
  -- networks being allowed only by the setting, and one of them is among those approved at
  -- registration, where any were.
  pub dispatch_delivery-IsSafe :
      let effects = (dispatch_delivery env world id s).1 in
      (filter is_post effects ≡ [])
      ⊎ (IsSafe env world w
          × ((headers : Dict String) × (filter is_post effects
                ≡ post w.url d.payload headers ∷ [])))
  unfolding claim
  dispatch_delivery-IsSafe = elim dispatch_delivery-IsPolite [
    | inl silent ↦ inl silent
    | inr ((ips, found, same, _), sent) ↦
        let (_, _, screened) =
          validate_webhook_url-IsScreened env.library env.network w.url world.addr_info ips strict
            found in
        inr ((ips, screened, same), sent)
  ]
