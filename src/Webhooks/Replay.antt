-- ===== src/Webhooks/Replay.antt =====
-- Replays of dead letters (app/services/webhook_service.py).
use apex_chainx_backend.Common.{
  ℕ, suc, String, Bool, true, false, not, ◌&&◌, ◌||◌, Option, none, some, List, [], ◌∷◌, ◌++◌,
  str_eq, if◌then◌else◌, take, filter, Dict, insert, lookup,
}
use apex_chainx_backend.Webhooks.{
  DeliveryStatus, pending, dead_letter, WebhookDelivery, Env, World, Effect, is_set,
}
use apex_chainx_backend.Webhooks.Dispatch.{
  State, Outcome, returned, escaped, after_call, dispatch_delivery,
}
use apex_chainx_backend.Webhooks.Queue.{rows}

unfoldable pub is_dead : DeliveryStatus → Bool
is_dead dead_letter = true
is_dead _ = false

-- One of the identifiers is asked for and is the one that is found.
asked : Option String → Option String → Bool
asked none found = false
asked (some wanted) none = false
asked (some wanted) (some found) = not (str_eq wanted "") && str_eq found wanted

-- A dead letter as `replay_dead_letter_delivery` resets it.
unfoldable pub revived : ℕ → WebhookDelivery → WebhookDelivery
revived now delivery = record delivery {
  status = pending;
  attempt_count = 0;
  next_retry_at = none;
  dead_lettered_at = none;
  error_message = none;
  response_status_code = none;
  response_body = none;
  delivered_at = none;
  updated_at = now;
}

module _ (env : Env) where
  -- The Boolean answer, before what the dispatch raises.
  unfoldable pub replay_dead_letter_delivery :
      World → ℕ → String → State → State × Bool × List Effect × Outcome
  unfolding revived
  replay_dead_letter_delivery world now id s = elim (lookup id s.deliveries) [
    | none ↦ (s, false, [], returned)
    | some delivery ↦
        let (s', effects, outcome) =
          dispatch_delivery env world id
            (record s { deliveries = insert id (revived now delivery) s.deliveries }) in
        if is_dead delivery.status then (s', true, effects, outcome) else (s, false, [], returned)
  ]

  -- The loop of `replay_deliveries_by_event_context`, with the number of replays.
  unfoldable pub replay_all :
      (String → World) → ℕ → List WebhookDelivery → State → State × ℕ × List Effect × Outcome
  replay_all worlds now [] s = (s, 0, [], returned)
  replay_all worlds now (d ∷ ds) s =
      let (s', replayed, effects, outcome) = replay_dead_letter_delivery (worlds d.id) now d.id s in
      let rest = replay_all worlds now ds s' in
      after_call outcome
        (rest.0, (if replayed then suc rest.1 else rest.1), effects ++ rest.2, rest.3)
        (λ exc. (s', 0, effects, escaped exc))

  -- `device_id and data.get("device_id") == device_id or outage_id and ...`; `read` is the object
  -- under "data" in a payload, `none` where it cannot be read.
  in_context : (String → Option (Dict String)) → Option String → Option String → String → Bool
  unfolding asked
  in_context read device_id outage_id payload = elim (read payload) [
    | none ↦ false
    | some found ↦
        asked device_id (lookup "device_id" found) || asked outage_id (lookup "outage_id" found)
  ]

  unfoldable pub replay_deliveries_by_event_context :
      (String → World)
      → ℕ
      → (String → Option (Dict String))
      → String
      → Option String
      → Option String
      → ℕ
      → State
      → State × ℕ × List Effect × Outcome
  unfolding in_context
  replay_deliveries_by_event_context worlds now read event device_id outage_id limit s =
      let dead = filter (λ d. is_dead d.status && str_eq d.event event) (rows s.deliveries) in
      let chosen =
        if is_set device_id || is_set outage_id
        then filter (λ d. in_context read device_id outage_id d.payload) dead
        else dead in
      replay_all worlds now (take limit chosen) s
