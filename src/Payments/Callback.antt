-- ===== src/Payments/Callback.antt =====
-- The callback of the payment provider, and the endpoints for an operator
-- (app/api/v1/endpoints/payments.py). HMAC-SHA256 is a parameter, and one clock reading stands for a
-- call. The audit log keeps the event types.
use Prim.Native.Char.{code}
use Prim.Native.String.{◌++◌ as append}
use apex_chainx_backend.Common.{
  ℕ, String, Bool, true, leb, not, ◌&&◌, ◌||◌, Option, none, some, List, [], ◌∷◌, ◌++◌, str_eq, ltb,
  if◌then◌else◌, get_or,
}
use apex_chainx_backend.Payments.{
  Error, ok, err, transition_error, value_error, type_error, Payment, Rows, max_retries, get,
  reconcile, retry,
}
use apex_chainx_backend.Payments.Nonces.{TokenStore, consume}

pub record State : Type 0 where
  pub payments : Rows
  pub tokens : TokenStore
  pub audit : List String

-- The payment of a response, or the status of a `CodedHTTPException`. What no handler catches is
-- `raised`.
pub data Reply : Type 0 where
  payment : Payment → Reply
  http : ℕ → Reply
  raised : Error → Reply

-- `ProviderCallbackRequest`, with the two headers.
pub record CallbackRequest : Type 0 where
  pub transaction_id : String
  pub status : String
  pub body_nonce : Option String
  pub header_nonce : Option String
  pub signature : Option String

-- What the store's environment does during the call: see `consume`.
pub record Redis : Type 0 where
  pub configured : Bool
  pub reply : Option Bool

abbrev pub log : String → State → State
log event s = record s { audit = s.audit ++ event ∷ [] }

-- `a or b or ""`
abbrev pub effective_nonce : CallbackRequest → String
effective_nonce request =
    let header = get_or request.header_nonce "" in
    if str_eq header "" then get_or request.body_nonce "" else header

abbrev pub canonical_message : String → String → String → String
canonical_message transaction_id status nonce =
    append transaction_id (append ":" (append status (append ":" nonce)))

-- `str.isascii`
unfoldable pub is_ascii : String → Bool
is_ascii String.[] = true
is_ascii (String.◌∷◌ c s) = leb (code c) 127 && is_ascii s

module _ (hmac_sha256 : String → String → String) (secret : String) where
  -- `hmac.compare_digest` raises TypeError on a text that is not ASCII: see `provider_callback`.
  abbrev pub verify_callback_signature : String → String → String → String → Bool
  verify_callback_signature transaction_id status nonce signature =
      is_ascii signature
      && str_eq (hmac_sha256 secret (canonical_message transaction_id status nonce)) signature

  -- The signature is right, or no secret is set.
  abbrev pub is_authentic : CallbackRequest → Bool
  is_authentic request =
      let given = get_or request.signature "" in
      str_eq secret ""
      || (not (str_eq given "")
          && verify_callback_signature request.transaction_id request.status
              (effective_nonce request) given)

  -- The automatic retry that follows a failure; `updated` is the answer in any case.
  unfoldable pub auto_retry : CallbackRequest → ℕ → Payment → State → Reply × State
  unfolding retry
  auto_retry request now updated s =
      if str_eq request.status "failed" && ltb updated.retry_count max_retries
      then (let (r, rows) = retry request.transaction_id now s.payments in
          let s' = record s { payments = rows } in
          elim r [
            | err e ↦ (raised e, s')
            | ok none ↦ (payment updated, s')
            | ok (some _) ↦ (payment updated, log "payment_auto_retry_scheduled" s')
          ])
      else (payment updated, s)

  -- From the lookup of the payment on.
  unfoldable pub settle : CallbackRequest → ℕ → State → Reply × State
  unfolding get reconcile auto_retry
  settle request now s = elim (get request.transaction_id s.payments) [
    | none ↦ (http 404, log "callback_rejected_unknown_payment" s)
    | some existing ↦
        if str_eq existing.status request.status
        then (payment existing, log "payment_provider_callback_duplicate" s)
        else (let (r, rows) = reconcile request.transaction_id request.status now s.payments in
            let s' = record s { payments = rows } in
            elim r [
              | err _ ↦ (
                http 422,
                log "payment_dead_letter" (log "callback_rejected_invalid_transition" s'),
              )
              | ok none ↦ (raised value_error, log "payment_provider_callback" s')
              | ok (some updated) ↦
                  auto_retry request now updated (log "payment_provider_callback" s')
            ])
  ]

  unfoldable pub provider_callback : Redis → CallbackRequest → ℕ → State → Reply × State
  unfolding consume settle
  provider_callback redis request now s =
      let nonce = effective_nonce request in
      if str_eq nonce ""
      then (http 400, log "callback_rejected_missing_nonce" s)
      else if not (str_eq secret "") && str_eq (get_or request.signature "") ""
      then (http 401, log "callback_rejected_missing_signature" s)
      else if not (is_authentic request)
      then (if is_ascii (get_or request.signature "")
          then (http 401, log "callback_rejected_bad_signature" s)
          else (raised type_error, s))
      else (let (replayed, tokens) = consume redis.configured redis.reply nonce now s.tokens in
          let s' = record s { tokens = tokens } in
          if replayed then (http 409, log "callback_rejected_replay" s') else settle request now s')

-- `reconcile_payment`
unfoldable pub reconcile_payment : String → String → ℕ → State → Reply × State
unfolding get reconcile
reconcile_payment transaction_id status now s = elim (get transaction_id s.payments) [
  | none ↦ (http 404, s)
  | some _ ↦
      let (r, rows) = reconcile transaction_id status now s.payments in
      let s' = record s { payments = rows } in
      elim r [
        | err (transition_error _) ↦ (http 422, s')
        | err e ↦ (raised e, s')
        | ok none ↦ (http 404, s')
        | ok (some p) ↦ (payment p, log "payment_reconciled" s')
      ]
]

-- `retry_payment` and `retry_now`
unfoldable pub retry_payment : String → ℕ → State → Reply × State
unfolding get retry
retry_payment transaction_id now s = elim (get transaction_id s.payments) [
  | none ↦ (http 404, s)
  | some _ ↦
      let (r, rows) = retry transaction_id now s.payments in
      let s' = record s { payments = rows } in
      elim r [
        | err (transition_error _) ↦ (http 422, s')
        | err e ↦ (raised e, s')
        | ok none ↦ (http 409, s')
        | ok (some p) ↦ (payment p, log "payment_retried" s')
      ]
]
