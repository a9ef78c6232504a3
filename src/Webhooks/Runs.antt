-- ===== src/Webhooks/Runs.antt =====
-- Runs of the operations on deliveries (app/services/webhook_service.py).
use apex_chainx_backend.Common.{ℕ, String, Bool, Option, List, [], ◌∷◌, Dict}
use apex_chainx_backend.Webhooks.{Env, World}
use apex_chainx_backend.Webhooks.Dispatch.{State, dispatch_delivery}
use apex_chainx_backend.Webhooks.Queue.{Decision, fan_out, retry_pending_deliveries}
use apex_chainx_backend.Webhooks.Replay.{
  replay_dead_letter_delivery, replay_deliveries_by_event_context,
}
use apex_chainx_backend.Webhooks.Endpoint.{retry_delivery}

-- The operations: an event, a task of the queue, a sweep, replays, the retry endpoint.
pub data Op : Type 0 where
  trigger : Bool → String → String → ℕ → List Decision → Op
  dispatch : World → String → Op
  sweep : (String → World) → ℕ → ℕ → Op
  replay : World → ℕ → String → Op
  replay_context :
      (String → World)
      → ℕ
      → (String → Option (Dict String))
      → String
      → Option String
      → Option String
      → ℕ
      → Op
  retry : World → String → String → String → Op

module _ (env : Env) where
  unfoldable pub step : Op → State → State
  step (trigger celery event payload version ds) s =
      (fan_out env celery event payload version ds s).0
  step (dispatch world id) s = (dispatch_delivery env world id s).0
  step (sweep worlds now batch_size) s = (retry_pending_deliveries env worlds now batch_size s).0
  step (replay world now id) s = (replay_dead_letter_delivery env world now id s).0
  step (replay_context worlds now read event device_id outage_id limit) s =
      (replay_deliveries_by_event_context env worlds now read event device_id outage_id limit s).0
  step (retry world actor webhook_id id) s = (retry_delivery env world actor webhook_id id s).0

  unfoldable pub run : List Op → State → State
  run [] s = s
  run (op ∷ ops) s = run ops (step op s)
