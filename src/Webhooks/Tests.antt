-- ===== src/Webhooks/Tests.antt =====
-- Deliveries of app/services/webhook_service.py on concrete calls.
use apex_chainx_backend.Common.{
  ℕ, get_or, ◌==◌, ◌||◌, Option, ◌≡◌, refl, inl, inr, ◌⊎◌, String, true, false, none, some, List,
  [], ◌∷◌, arith, Dict, Bool-cases, subst, filter, lookup, str_eq, insert,
}
use apex_chainx_backend.Breaker
use apex_chainx_backend.Webhooks.{
  dead_letter, breaker_open, Webhook, WebhookDelivery, Env, World, response, post,
}
use apex_chainx_backend.Webhooks.Network.{
  Library, NetworkSettings, distinct_upto, resolve_host, resolve_public, validate_ips,
  validate_ip_address, validate_webhook_url,
}
use apex_chainx_backend.Webhooks.Signing.{
  sign_payload, sign_payload_v2, signing_input_v2, verify_signature, verify_delivery_signature,
  is_timestamp_fresh,
}
use apex_chainx_backend.Webhooks.Answered.{is_post}
use apex_chainx_backend.Webhooks.Dispatch.{State, dispatch_delivery, is_claimable}
use apex_chainx_backend.Webhooks.Queue.{new_delivery}
use apex_chainx_backend.Webhooks.Replay.{is_dead}
use apex_chainx_backend.Webhooks.Endpoint.{refusal}
use apex_chainx_backend.Webhooks.Runs.{Op, dispatch, sweep, replay, retry, run}
use apex_chainx_backend.Webhooks.Screened.{IsScreened, validate_webhook_url-IsScreened}
use apex_chainx_backend.Webhooks.Phases.{limit_of, IsPhased}
use apex_chainx_backend.Webhooks.Lifecycle.{IsLawful}
use apex_chainx_backend.Webhooks.Stuck.{IsLeft, run-IsLeft}
use apex_chainx_backend.Webhooks.Exhausted.{dispatches, dispatches_end}
use apex_chainx_backend.Webhooks.Screening.{IsSafe, dispatch_delivery-IsSafe}
use apex_chainx_backend.Webhooks.Verified.{sign_payload-verified}

abbrev library : Library
library = record {
  urlparse = λ url. record {
    scheme = "https";
    hostname = some "hooks.test";
    port = some none;
    fragment = "";
  };
  ip_address = λ ip. some (record {
    text = ip;
    is_loopback = false;
    is_link_local = false;
    is_multicast = false;
    is_reserved = false;
    is_private = false;
  });
  lower = λ host. host;
}

abbrev network : NetworkSettings
network = record {
  environment = "production";
  allow_private_networks = false;
  url_allowlist = [];
  validator_bypass = false;
}

-- Two delays, so that a delivery is attempted three times.
abbrev env : Env
env = record {
  retry_base_delays = 30 ∷ 120 ∷ [];
  retry_jitter = "none";
  retry_max_delay_seconds = 3600;
  library = library;
  network = network;
  breaker = record { fail_threshold = 5; window_seconds = 300; reset_seconds = 600 };
  shared = false;
  hostname = λ url. some "hooks.test";
  hmac = λ key message. message;
  digits = λ n. "n";
  loads = λ text. none;
  redact = λ body. body;
}

-- The host answers with an error at 1000.
abbrev world : World
world = record {
  claimed_at = 1000;
  correlation_id = "c";
  traceparent = none;
  timestamp = "t";
  addr_info = λ host. some ("93.184.216.34" ∷ []);
  marker = none;
  adopted_at = 1;
  checked_at = 1;
  answer = response 500 false [];
  failed_at = 1;
  uniform = λ low high. low;
  settled_at = 1000;
  finished_at = 1000;
}

abbrev hook : Webhook
hook = record {
  id = "w";
  url = "https://hooks.test/a";
  secret = some "k";
  is_active = true;
  events = "[]";
  resolved_ips = none;
  max_retries = 3;
  deleted_at = none;
}

abbrev fresh : WebhookDelivery
unfolding new_delivery
fresh = new_delivery "d" 900 hook "sla.violation" "{}" 2

abbrev start : State
start = record {
  webhooks = ("w", hook) ∷ [];
  deliveries = ("d", fresh) ∷ [];
  breaker = Breaker.init;
}

program : Unit {0}
unfolding validate_webhook_url resolve_public resolve_host distinct_upto validate_ips
    validate_ip_address lookup insert new_delivery is_claimable is_dead refusal sign_payload
    sign_payload_v2 signing_input_v2
program = tt

-- Six addresses, of which five are kept.
abbrev answers : String → Option (List String)
answers host = some ("8.8.8.1" ∷ "8.8.8.2" ∷ "8.8.8.3" ∷ "8.8.8.4" ∷ "8.8.8.5" ∷ "8.8.8.6" ∷ [])

abbrev kept : List String
kept = "8.8.8.1" ∷ "8.8.8.2" ∷ "8.8.8.3" ∷ "8.8.8.4" ∷ "8.8.8.5" ∷ []

validate_webhook_url-IsScreened_example :
    ((str_eq "production" "local" ≡ true) ⊎ (str_eq "https" "https" ≡ true))
    × ((port : Option ℕ) × (some none ≡ some port)
        × (get_or port 443 == 80 || get_or port 443 == 443 ≡ true))
    × IsScreened library network "hooks.test" answers kept
unfolding program
validate_webhook_url-IsScreened_example =
    validate_webhook_url-IsScreened library network "https://hooks.test/a" answers kept refl refl

start-IsLawful : IsLawful env start
unfolding program
start-IsLawful id d e = elim (Bool-cases (str_eq "d" id)) [
  | inl same ↦
      let e' : fresh ≡ d = ground (arith, e) in
      subst (λ x. IsPhased (limit_of env start.webhooks x.webhook_id) x) e' refl
  | inr different ↦ ground (arith, e)
]

abbrev ops : List Op
ops =
    dispatch world "d"
    ∷ sweep (λ id. world) 40000 100
    ∷ replay world 50000 "d"
    ∷ retry world "admin@x" "w" "d"
    ∷ []

abbrev deferred : WebhookDelivery
deferred = record fresh { status = breaker_open; attempt_count = 1 }

run-IsLeft_example :
    let stored : State = record start { deliveries = ("d", deferred) ∷ [] } in
    IsLeft "d" deferred (run env ops stored)
unfolding program
run-IsLeft_example =
    run-IsLeft env "d" deferred refl refl ops (record start { deliveries = ("d", deferred) ∷ [] })
      refl

dispatches_end_example :
    let after = run env (dispatches env "d" (world ∷ world ∷ world ∷ [])) start in
    (d' : WebhookDelivery) × (lookup "d" after.deliveries ≡ some d')
    × (is_claimable d'.status ≡ false)
unfolding program
dispatches_end_example =
    dispatches_end env (world ∷ world ∷ world ∷ []) hook "d" start fresh start-IsLawful refl refl
      (omega arith)

dispatch_delivery-IsSafe_example :
    let effects = (dispatch_delivery env world "d" start).1 in
    (filter is_post effects ≡ [])
    ⊎ (IsSafe env world hook
        × ((headers : Dict String) × (filter is_post effects ≡ post hook.url "{}" headers ∷ [])))
unfolding program
dispatch_delivery-IsSafe_example =
    dispatch_delivery-IsSafe env world hook "d" fresh start refl refl refl

sign_payload-verified_example :
    (verify_signature env.hmac "k" "{}" "t.{}" 2 (some "t") ≡ true)
    × (verify_delivery_signature env.hmac (λ text. some 5) "k" "{}" "t.{}" 2 (some "t") 300 900
        ≡ is_timestamp_fresh (λ text. some 5) "t" 300 900)
unfolding program
sign_payload-verified_example =
    sign_payload-verified env.hmac (λ text. some 5) "k" "{}" 2 (some "t") "now" "t.{}" "t" 2 300 900
      refl refl

abbrev buried : WebhookDelivery
buried = record fresh { status = dead_letter; attempt_count = 3; dead_lettered_at = some 7 }
