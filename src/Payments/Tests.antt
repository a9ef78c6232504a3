-- ===== src/Payments/Tests.antt =====
-- Payments of app/repositories/payment_repository.py on concrete calls.
use Prim.Native.String.{◌++◌ as append}
use apex_chainx_backend.Common.{
  ℕ, ◌≡◌, ◌≢◌, refl, String, true, false, Option, none, some, List, [], ◌∷◌, arith, All, lookup,
  insert, get_or, eq_iff, ap,
}
use apex_chainx_backend.Common.Int.{negsuc}
use apex_chainx_backend.Payments.{
  Payment, Rows, Settlement, Settings, get, get_by_sla_result, create, create_for_sla_result,
  reconcile, retry, reconciled, pending_payment, compute_next_retry_at, validate_transition,
}
use apex_chainx_backend.Payments.Change.{Op, settling, reconciling, retrying, run, IsPayment}
use apex_chainx_backend.Payments.Lifecycle.{run-IsPayment, confirmed_final}
use apex_chainx_backend.Payments.Nonces.{consume, consume_fallback}
use apex_chainx_backend.Payments.Callback.{
  State, http, CallbackRequest, Redis, effective_nonce, is_ascii, is_authentic, auto_retry, settle,
  provider_callback,
}
use apex_chainx_backend.Payments.Settled.{provider_callback-authentic}
use apex_chainx_backend.Payments.Replays.{consume_forever, provider_callback_replay}

abbrev settings : Settings
settings = record { asset_code = "USDC"; from_address = "POOL"; to_address = "OUT" }

abbrev settlement : Settlement
settlement = record { id = some 7; payment_type = "penalty"; amount = negsuc 499 }

abbrev stored : Payment
stored = pending_payment settings "o1" 7 "penalty" (negsuc 499) "pay_1" "h1" 100

program : Unit {0}
unfolding is_ascii get get_by_sla_result create create_for_sla_result reconcile retry
    validate_transition compute_next_retry_at consume consume_fallback auto_retry settle
    provider_callback lookup insert
program = tt

abbrev ops : List Op
ops =
    settling "o1" settlement "pay_1" "h1" 100
    ∷ reconciling "pay_1" "failed" 110
    ∷ retrying "pay_1" 120
    ∷ reconciling "pay_1" "confirmed" 130
    ∷ reconciling "pay_1" "failed" 140
    ∷ []

run-IsPayment_example : All IsPayment (run settings ops [])
run-IsPayment_example = run-IsPayment settings ops [] tt

abbrev final : Payment
final = reconciled "confirmed" 130 stored

confirmed_final_example : get "pay_1" (run settings ops (final ∷ [])) ≡ some final
unfolding program
confirmed_final_example = confirmed_final settings ops "pay_1" final (final ∷ []) refl refl

abbrev hmac_sha256 : String → String → String
hmac_sha256 secret message = append secret message

abbrev request : CallbackRequest
request = record {
  transaction_id = "pay_1";
  status = "failed";
  body_nonce = none;
  header_nonce = some "n1";
  signature = some "k:pay_1:failed:n1";
}

abbrev state : State
state = record {
  payments = stored ∷ [];
  tokens = record { ttl_seconds = 300; fallback = []; disabled_until = 0 };
  audit = [];
}

abbrev redis : Redis
redis = record { configured = true; reply = some true }

changed : (provider_callback hmac_sha256 "k:" redis request 110 state).1.payments ≢ state.payments
unfolding program
changed h =
    let count : Rows → ℕ = λ rows. get_or (first_retries rows) 0 in ground (arith, ap count h)
  where
    first_retries : Rows → Option ℕ
    first_retries [] = none
    first_retries (p ∷ rows) = some p.retry_count

provider_callback-authentic_example :
    (effective_nonce request ≢ "")
    × (is_authentic hmac_sha256 "k:" request ≡ true)
    × ((consume true (some true) "n1" 110 state.tokens).0 ≡ false)
provider_callback-authentic_example =
    provider_callback-authentic hmac_sha256 "k:" redis request 110 state changed

consume_forever_example :
    (consume false none "n1" 9000 (consume false none "n1" 110 state.tokens).1).0 ≡ true
unfolding program
consume_forever_example = consume_forever "n1" 110 9000 state.tokens none none refl (ground arith)

provider_callback_replay_example :
    let callback = provider_callback hmac_sha256 "k:" in
    let s' = (callback (record { configured = false; reply = none }) request 110 state).1 in
    let (answer, s'') = callback (record { configured = false; reply = none }) request 120 s' in
    (answer ≡ http 409) × (s''.payments ≡ s'.payments)
unfolding consume consume_fallback lookup is_ascii
provider_callback_replay_example =
    provider_callback_replay hmac_sha256 "k:" request 110 120 state none none
      (λ h. ground (arith, eq_iff "n1" "")) refl refl (ground arith)
