-- ===== src/Payments/Settled.antt =====
-- What settling an outage, and the callback of the provider, do to the payments
-- (app/repositories/payment_repository.py, app/api/v1/endpoints/payments.py).
use apex_chainx_backend.Common.{
  ℕ, zero, suc, ◌+◌, ◌*◌, ◌^◌, ◌<◌, ◌≡◌, ◌≢◌, refl, ap, ◌∙◌, String, true, false, not, ◌&&◌, Option,
  none, some, [], ◌∷◌, arith, str_eq, eq_iff, ltb, leb, if◌then◌else◌, get_or, any, update_first,
  Bool-cases, Option-cases, inl, inr, first-append, first-test, first-update_first, ◌⊎◌,
}
use apex_chainx_backend.Common.Int.{ℤ}
use apex_chainx_backend.Payments.{
  ok, Payment, Rows, Settlement, Settings, max_retries, get, get_by_sla_result, create,
  create_for_sla_result, reconcile, retry, reconciled, retried, of_sla_result, clashes,
  validate_transition, compute_next_retry_at, pending_payment,
}
use apex_chainx_backend.Payments.Nonces.{consume}
use apex_chainx_backend.Payments.Callback.{
  State, payment, CallbackRequest, Redis, effective_nonce, is_ascii, is_authentic, auto_retry,
  settle, provider_callback,
}

-- The payment that settling returns is the one that is stored for the SLA result.
settle-stored :
    (settings : Settings) (outage : String) (n : ℕ) (payment_type : String) (amount : ℤ)
    → (id hash : String) (now : ℕ) (rows : Rows) (p : Payment)
    → let out =
        create_for_sla_result settings outage
          (record { id = some n; payment_type = payment_type; amount = amount })
          id
          hash
          now
          rows in
      out.0 ≡ ok p → get_by_sla_result n out.1 ≡ some p
unfolding create_for_sla_result create get_by_sla_result
settle-stored settings outage n payment_type amount id hash now rows p h =
    elim (Option-cases (get_by_sla_result n rows)) [
      | inr (q, found) ↦ ground arith
      | inl nothing ↦
          let orm = pending_payment settings outage n payment_type amount id hash now in
          elim (Bool-cases (any (clashes orm) rows)) [
            | inl taken ↦ ground arith
            | inr free ↦ ground (arith, first-append (of_sla_result n) rows (orm ∷ []))
          ]
    ]

-- If settling an outage gives a payment, settling it again gives the same payment and adds no
-- second row, whatever ids and hashes are drawn the second time.
pub settle_idem :
    (settings settings' : Settings) (outage outage' : String) (r : Settlement)
    (id id' hash hash' : String)
    → (now now' : ℕ) (rows : Rows) (p : Payment)
    → (create_for_sla_result settings outage r id hash now rows).0 ≡ ok p
    → let after = (create_for_sla_result settings outage r id hash now rows).1 in
      create_for_sla_result settings' outage' r id' hash' now' after ≡ (ok p, after)
unfolding create_for_sla_result create get_by_sla_result
settle_idem settings settings' outage outage' r id id' hash hash' now now' rows p h =
    by_id r.id r.payment_type r.amount h
  where
    by_id :
        (o : Option ℕ) (payment_type : String) (amount : ℤ)
        → let r : Settlement = record { id = o; payment_type = payment_type; amount = amount } in
          let out = create_for_sla_result settings outage r id hash now rows in
          out.0 ≡ ok p
          → create_for_sla_result settings' outage' r id' hash' now' out.1 ≡ (ok p, out.1)
    by_id none payment_type amount h = ground arith
    by_id (some n) payment_type amount h =
        ground (arith, settle-stored settings outage n payment_type amount id hash now rows p h)

-- The time of the next retry doubles from 30 seconds; the cap of an hour is never met. There is no
-- such time exactly when no retry is left.
pub compute_next_retry_at_lem :
    (retry_count now : ℕ) (last : Option ℕ)
    → compute_next_retry_at retry_count last now ≡ (
        if ltb retry_count max_retries then some (get_or last now + 30 * 2 ^ retry_count) else none)
unfolding compute_next_retry_at
compute_next_retry_at_lem zero now last = refl
compute_next_retry_at_lem (suc zero) now last = refl
compute_next_retry_at_lem (suc (suc zero)) now last = refl
compute_next_retry_at_lem (suc (suc (suc n))) now last = ground arith

first-rewritten :
    (id : String) (f : Payment → Payment) (p : Payment) (rows : Rows)
    → get id rows ≡ some p
    → (f p).id ≡ p.id
    → get id (update_first (λ q. str_eq q.id id) f rows) ≡ some (f p)
unfolding get
first-rewritten id f p rows found same =
    first-update_first (λ q. str_eq q.id id) f rows p found
      (ap (λ i. str_eq i id) same ∙ first-test (λ q. str_eq q.id id) rows p found)

reconcile-pending :
    (id status : String) (now : ℕ) (p : Payment) (rows : Rows)
    → get id rows ≡ some p
    → p.status ≡ "pending"
    → (status ≡ "confirmed") ⊎ (status ≡ "failed")
    → ((reconcile id status now rows).0 ≡ ok (some (reconciled status now p)))
      × (get id (reconcile id status now rows).1 ≡ some (reconciled status now p))
unfolding reconcile
reconcile-pending id status now p rows found pending target =
    let allowed : validate_transition p.status status ≡ ok tt = validates pending target in
    (
      rw (found, allowed, reconcile) refl,
      rw (found, allowed, reconcile) (first-rewritten id (reconciled status now) p rows found refl),
    )
  where
    validates :
        {current status : String}
        → current ≡ "pending"
        → (status ≡ "confirmed") ⊎ (status ≡ "failed")
        → validate_transition current status ≡ ok tt
    validates e (inl e') = rw (e, e', validate_transition) refl
    validates e (inr e') = rw (e, e', validate_transition) refl

retry-failed :
    (id : String) (now : ℕ) (p : Payment) (rows : Rows)
    → get id rows ≡ some p
    → p.status ≡ "failed"
    → p.retry_count < max_retries
    → ((retry id now rows).0 ≡ ok (some (retried now p)))
      × (get id (retry id now rows).1 ≡ some (retried now p))
unfolding retry
retry-failed id now p rows found fails few =
    let left : leb max_retries p.retry_count ≡ false = ground arith in
    let allowed : validate_transition p.status "pending" ≡ ok tt =
      rw (fails, validate_transition) refl in
    (
      rw (found, left, allowed, retry) refl,
      rw (found, left, allowed, retry) (first-rewritten id (retried now) p rows found refl),
    )

module _ (hmac_sha256 : String → String → String) (secret : String) where
  -- A callback that changes any payment has a nonce that the store had not seen, and a right signature
  -- if a secret is set.
  pub provider_callback-authentic :
      (redis : Redis) (request : CallbackRequest) (now : ℕ) (s : State)
      → (provider_callback hmac_sha256 secret redis request now s).1.payments ≢ s.payments
      → (effective_nonce request ≢ "")
        × (is_authentic hmac_sha256 secret request ≡ true)
        × ((consume redis.configured redis.reply (effective_nonce request) now s.tokens).0 ≡ false)
  unfolding provider_callback
  provider_callback-authentic redis request now s h =
      let nonce = effective_nonce request in
      let missing = not (str_eq secret "") && str_eq (get_or request.signature "") "" in
      let used = (consume redis.configured redis.reply nonce now s.tokens).0 in
      elim (Bool-cases (str_eq nonce "")) [
        | inl empty ↦ ground (arith, h (rw (empty, provider_callback) refl))
        | inr named ↦ elim (Bool-cases missing) [
          | inl unsigned ↦ ground (arith, h (rw (named, unsigned, provider_callback) refl))
          | inr signed ↦ elim (Bool-cases (is_authentic hmac_sha256 secret request)) [
            | inr forged ↦ elim (Bool-cases (is_ascii (get_or request.signature ""))) [
              | inl ascii ↦
                  ground (arith, h (rw (named, signed, forged, ascii, provider_callback) refl))
              | inr garbled ↦
                  ground (arith, h (rw (named, signed, forged, garbled, provider_callback) refl))
            ]
            | inl authentic ↦ elim (Bool-cases used) [
              | inl again ↦
                  ground (arith, h (rw (named, signed, authentic, again, provider_callback) refl))
              | inr first_use ↦ (λ e. ground (arith, eq_iff nonce ""), authentic, first_use)
            ]
          ]
        ]
      ]

  -- A pending payment that the provider reports as failed, with a retry left, is pending again with
  -- one retry more, while the answer shows it as failed.
  pub settle_failed :
      (request : CallbackRequest) (now : ℕ) (s : State) (p : Payment)
      → get request.transaction_id s.payments ≡ some p
      → p.status ≡ "pending"
      → p.retry_count < max_retries
      → let (reply, after) =
          settle hmac_sha256 secret (record request { status = "failed" }) now s in
        (reply ≡ payment (reconciled "failed" now p))
        × (get request.transaction_id after.payments
            ≡ some (retried now (reconciled "failed" now p)))
  unfolding settle auto_retry
  settle_failed request now s p found pending few =
      let id = request.transaction_id in
      let (moved, stored) =
        reconcile-pending id "failed" now p s.payments found pending (inr refl) in
      let rows = (reconcile id "failed" now s.payments).1 in
      let (tried, stored') =
        retry-failed id now (reconciled "failed" now p) rows stored refl (ground arith) in
      let differs : str_eq p.status "failed" ≡ false = ap (λ x. str_eq x "failed") pending in
      let left : ltb p.retry_count max_retries ≡ true = ground arith in
      (
        rw (found, differs, moved, left, tried, settle, auto_retry) refl,
        rw (found, differs, moved, left, tried, settle, auto_retry) stored',
      )
