-- ===== src/Payments/Change.antt =====
-- What a call of `PaymentRepository` (app/repositories/payment_repository.py) can do to the rows.
use apex_chainx_backend.Common.{
  ℕ, ◌≤◌, ◌≡◌, refl, sym, subst, ap, ◌∙◌, String, true, false, Option, none, some, List, [], ◌∷◌,
  ◌++◌, arith, str_eq, eq_iff, ltb, leb, is_some, any, update_first, Bool-cases, Option-cases, inl,
  inr, ◌⊎◌,
}
use apex_chainx_backend.Common.Int.{ℤ}
use apex_chainx_backend.Payments.{
  Error, Result, ok, err, validate_transition, Payment, Rows, Settlement, Settings, max_retries,
  get, get_by_sla_result, create, create_for_sla_result, reconcile, retry, reconciled, retried,
  parse_status, clashes, pending_payment,
}

-- One call, with the time and the texts that it draws.
pub data Op : Type 0 where
  settling : String → Settlement → String → String → ℕ → Op
  reconciling : String → String → ℕ → Op
  retrying : String → ℕ → Op

abbrev pub step : Settings → Op → Rows → Rows
step settings (settling outage_id result id hash now) rows =
    (create_for_sla_result settings outage_id result id hash now rows).1
step settings (reconciling id status now) rows = (reconcile id status now rows).1
step settings (retrying id now) rows = (retry id now rows).1

abbrev pub run : Settings → List Op → Rows → Rows
run settings [] rows = rows
run settings (o ∷ ops) rows = run settings ops (step settings o rows)

-- A known status, at most three retries, a time of confirmation exactly when the payment is confirmed,
-- and a time of the last retry exactly when there was one.
abbrev pub IsPayment : Payment → Type 0
IsPayment p =
    (is_some (parse_status p.status) ≡ true)
    × (p.retry_count ≤ max_retries)
    × (is_some p.confirmed_at ≡ str_eq p.status "confirmed")
    × (is_some p.last_retried_at ≡ ltb 0 p.retry_count)

-- What the policy lets through.
pub validate_allows :
    (current next_status : String)
    → validate_transition current next_status ≡ ok tt
    → ((current ≡ "pending") × ((next_status ≡ "confirmed") ⊎ (next_status ≡ "failed")))
      ⊎ ((current ≡ "failed") × (next_status ≡ "pending"))
unfolding validate_transition
validate_allows current next_status h = ground (
  arith,
  eq_iff current "pending",
  eq_iff current "failed",
  eq_iff next_status "pending",
  eq_iff next_status "confirmed",
  eq_iff next_status "failed",
)

abbrev IsUnconfirmed : Payment → Type 0
IsUnconfirmed p = is_some p.confirmed_at ≡ false

open-IsUnconfirmed :
    (p : Payment) → IsPayment p → (p.status ≡ "pending") ⊎ (p.status ≡ "failed") → IsUnconfirmed p
open-IsUnconfirmed p (_, _, h, _) (inl e) = h ∙ ap (λ s. str_eq s "confirmed") e
open-IsUnconfirmed p (_, _, h, _) (inr e) = h ∙ ap (λ s. str_eq s "confirmed") e

pub reconciled-IsPayment :
    (p : Payment) (status : String) (now : ℕ)
    → IsPayment p
    → validate_transition p.status status ≡ ok tt
    → IsPayment (reconciled status now p)
reconciled-IsPayment p status now hp h = elim (validate_allows p.status status h) [
  | inl (e, inl e') ↦ subst (λ s. IsPayment (reconciled s now p)) (sym e') (refl, hp.1, refl, hp.3)
  | inl (e, inr e') ↦
      subst (λ s. IsPayment (reconciled s now p)) (sym e')
        (refl, hp.1, open-IsUnconfirmed p hp (inl e), hp.3)
  | inr (e, e') ↦
      subst (λ s. IsPayment (reconciled s now p)) (sym e')
        (refl, hp.1, open-IsUnconfirmed p hp (inr e), hp.3)
]

pub retried-IsPayment :
    (p : Payment) (now : ℕ)
    → IsPayment p
    → leb max_retries p.retry_count ≡ false
    → validate_transition p.status "pending" ≡ ok tt
    → IsPayment (retried now p)
retried-IsPayment p now hp few h =
    let unfinished : (p.status ≡ "pending") ⊎ (p.status ≡ "failed") =
      elim (validate_allows p.status "pending" h) [ inl (e, _) ↦ inl e | inr (e, _) ↦ inr e ] in
    (refl, ground arith, open-IsUnconfirmed p hp unfinished, ground arith)

-- A step leaves the rows alone, rewrites one found row as the policy allows, or adds one row.
pub data Change (settings : Settings) (rows : Rows) : Rows → Type 0 where
  kept : Change settings rows rows
  moved :
      (id status : String) (now : ℕ) (p : Payment)
      → get id rows ≡ some p
      → validate_transition p.status status ≡ ok tt
      → Change settings rows (update_first (λ q. str_eq q.id id) (reconciled status now) rows)
  tried :
      (id : String) (now : ℕ) (p : Payment)
      → get id rows ≡ some p
      → leb max_retries p.retry_count ≡ false
      → validate_transition p.status "pending" ≡ ok tt
      → Change settings rows (update_first (λ q. str_eq q.id id) (retried now) rows)
  added :
      (p : Payment)
      → IsPayment p
      → any (clashes p) rows ≡ false
      → Change settings rows (rows ++ p ∷ [])

result-cases : (r : Result (Unit {0})) → (r ≡ ok tt) ⊎ ((e : Error) × (r ≡ err e))
result-cases (ok tt) = inl refl
result-cases (err e) = inr (e, refl)

reconcile-Change :
    (settings : Settings) (id status : String) (now : ℕ) (rows : Rows)
    → Change settings rows (reconcile id status now rows).1
unfolding reconcile
reconcile-Change settings id status now rows = elim (Option-cases (get id rows)) [
  | inl nothing ↦ rw (nothing, reconcile) kept
  | inr (p, found) ↦ elim (result-cases (validate_transition p.status status)) [
    | inl allowed ↦ rw (found, allowed, reconcile) (moved id status now p found allowed)
    | inr (e, refused) ↦ rw (found, refused, reconcile) kept
  ]
]

retry-Change :
    (settings : Settings) (id : String) (now : ℕ) (rows : Rows)
    → Change settings rows (retry id now rows).1
unfolding retry
retry-Change settings id now rows = elim (Option-cases (get id rows)) [
  | inl nothing ↦ rw (nothing, retry) kept
  | inr (p, found) ↦ elim (Bool-cases (leb max_retries p.retry_count)) [
    | inl spent ↦ rw (found, spent, retry) kept
    | inr few ↦ elim (result-cases (validate_transition p.status "pending")) [
      | inl allowed ↦ rw (found, few, allowed, retry) (tried id now p found few allowed)
      | inr (e, refused) ↦ rw (found, few, refused, retry) kept
    ]
  ]
]

create-Change :
    (settings : Settings) (p : Payment) (rows : Rows)
    → IsPayment (record p { retry_count = 0; last_retried_at = none })
    → Change settings rows (create p rows).1
unfolding create
create-Change settings p rows hp =
    let orm = record p { retry_count = 0; last_retried_at = none } in
    elim (Bool-cases (any (clashes orm) rows)) [
      | inl taken ↦ rw taken kept
      | inr free ↦ rw free (added orm hp free)
    ]

settle-Change :
    (settings : Settings) (outage_id : String) (sla_result_id : Option ℕ) (payment_type : String)
    → (amount : ℤ) (id hash : String) (now : ℕ) (rows : Rows)
    → Change settings rows
        (create_for_sla_result settings outage_id
          (record { id = sla_result_id; payment_type = payment_type; amount = amount })
          id
          hash
          now
          rows).1
unfolding create_for_sla_result
settle-Change settings outage_id none payment_type amount id hash now rows = kept
settle-Change settings outage_id (some n) payment_type amount id hash now rows =
    elim (Option-cases (get_by_sla_result n rows)) [
      | inr (p, found) ↦ rw (found, create_for_sla_result) kept
      | inl nothing ↦
          rw (nothing, create_for_sla_result)
            (create-Change settings
              (pending_payment settings outage_id n payment_type amount id hash now) rows
              (refl, ground arith, refl, refl))
    ]

pub step-Change :
    (settings : Settings) (o : Op) (rows : Rows) → Change settings rows (step settings o rows)
step-Change settings (settling outage_id r id hash now) rows =
    settle-Change settings outage_id r.id r.payment_type r.amount id hash now rows
step-Change settings (reconciling id status now) rows = reconcile-Change settings id status now rows
step-Change settings (retrying id now) rows = retry-Change settings id now rows
