-- ===== src/Payments.antt =====
-- Payment transactions (app/models/payment.py and app/repositories/payment_repository.py): the policy
-- of the status transitions and the table, a list of rows. An id is the primary key, and the hash and
-- the SLA result are unique; a row that a query returns is rewritten through the table.
pub mod Change
pub mod Lifecycle
pub mod Nonces
pub mod Callback
pub mod Settled
pub mod Replays
mod Tests
use apex_chainx_backend.Common.{
  ℕ, ◌+◌, ◌*◌, ◌^◌, min, String, Bool, true, false, not, ◌&&◌, ◌||◌, Option, none, some, List, [],
  ◌∷◌, ◌++◌, str_eq, ltb, leb, ◌==◌, if◌then◌else◌, get_or, first, any, filter, update_first,
}
use apex_chainx_backend.Common.Int.{ℤ, pos_part, neg_part}

-- `PaymentStatus`
pub data Status : Type 0 where
  pending confirmed failed : Status

-- `PaymentStatus(s)`
abbrev pub parse_status : String → Option Status
parse_status s =
    if str_eq s "pending"
    then some pending
    else if str_eq s "confirmed"
    then some confirmed
    else if str_eq s "failed"
    then some failed
    else none

-- `VALID_TRANSITIONS`
abbrev pub valid_transitions : Status → List Status
valid_transitions pending = confirmed ∷ failed ∷ []
valid_transitions confirmed = []
valid_transitions failed = pending ∷ []

abbrev pub same_status : Status → Status → Bool
same_status pending pending = true
same_status confirmed confirmed = true
same_status failed failed = true
same_status _ _ = false

-- `PaymentTransitionError`
pub record TransitionError : Type 0 where
  pub current : String
  pub next_status : String
  pub allowed : List Status

pub data Error : Type 0 where
  transition_error : TransitionError → Error
  value_error integrity_error type_error : Error

pub data Result (A : Type 0) : Type 0 where
  err : Error → Result A
  ok : A → Result A

abbrev pub refused : String → String → List Status → Result (Unit {0})
refused current next_status allowed =
    err (
      transition_error (record { current = current; next_status = next_status; allowed = allowed }))

unfoldable pub validate_transition : String → String → Result (Unit {0})
validate_transition current next_status = elim (parse_status current) [
  | none ↦ refused current next_status []
  | some c ↦ elim (parse_status next_status) [
    | none ↦ refused current next_status (valid_transitions c)
    | some n ↦
        if any (same_status n) (valid_transitions c)
        then ok tt
        else refused current next_status (valid_transitions c)
  ]
]

-- `PaymentTransaction`, and its row.
pub record Payment : Type 0 where
  pub id : String
  pub transaction_hash : String
  pub payment_type : String
  pub amount : ℕ
  pub asset_code : String
  pub from_address : String
  pub to_address : String
  pub status : String
  pub outage_id : String
  pub sla_result_id : Option ℕ
  pub created_at : ℕ
  pub confirmed_at : Option ℕ
  pub retry_count : ℕ
  pub last_retried_at : Option ℕ

abbrev pub Rows : Type 0
Rows = List Payment

abbrev pub max_retries : ℕ
max_retries = 3

-- The row of an id, `PaymentRepository.get`.
unfoldable pub get : String → Rows → Option Payment
get id rows = first (λ p. str_eq p.id id) rows

-- `payment.sla_result_id == sla_result_id`, for a number
abbrev pub of_sla_result : ℕ → Payment → Bool
of_sla_result n p = elim p.sla_result_id [ none ↦ false | some m ↦ m == n ]

unfoldable pub get_by_sla_result : ℕ → Rows → Option Payment
get_by_sla_result n rows = first (of_sla_result n) rows

-- A unique column that holds the same value. NULL is never the same.
abbrev pub clashes : Payment → Payment → Bool
clashes p q =
    str_eq q.id p.id
    || str_eq q.transaction_hash p.transaction_hash
    || elim p.sla_result_id [ none ↦ false | some n ↦ of_sla_result n q ]

-- The counter and the time of the last retry are the columns' defaults.
unfoldable pub create : Payment → Rows → Result Payment × Rows
create payment rows =
    let orm = record payment { retry_count = 0; last_retried_at = none } in
    if any (clashes orm) rows then (err integrity_error, rows) else (ok orm, rows ++ orm ∷ [])

unfoldable pub update_status : String → String → Rows → Option Payment × Rows
unfolding get
update_status id status rows = elim (get id rows) [
  | none ↦ (none, rows)
  | some p ↦ (
    some (record p { status = status }),
    update_first (λ q. str_eq q.id id) (λ q. record q { status = status }) rows,
  )
]

-- `SLAResult`, as far as a payment is made of it.
pub record Settlement : Type 0 where
  pub id : Option ℕ
  pub payment_type : String
  pub amount : ℤ

-- `PAYMENT_ASSET_CODE`, `PAYMENT_FROM_ADDRESS` and `PAYMENT_TO_ADDRESS`.
pub record Settings : Type 0 where
  pub asset_code : String
  pub from_address : String
  pub to_address : String

-- The payment of an SLA result, before it is stored.
abbrev pub pending_payment : Settings → String → ℕ → String → ℤ → String → String → ℕ → Payment
pending_payment settings outage_id n payment_type amount payment_id hash now = record {
  id = payment_id;
  transaction_hash = hash;
  payment_type = payment_type;
  amount = pos_part amount + neg_part amount;
  asset_code = settings.asset_code;
  from_address = settings.from_address;
  to_address = settings.to_address;
  status = "pending";
  outage_id = outage_id;
  sla_result_id = some n;
  created_at = now;
  confirmed_at = none;
  retry_count = 0;
  last_retried_at = none;
}

-- `payment_id` and `hash` are the texts made of `uuid4`.
unfoldable pub create_for_sla_result :
    Settings → String → Settlement → String → String → ℕ → Rows → Result Payment × Rows
unfolding get_by_sla_result create
create_for_sla_result settings outage_id sla_result payment_id hash now rows = elim sla_result.id [
  | none ↦ (err value_error, rows)
  | some n ↦ elim (get_by_sla_result n rows) [
    | some existing ↦ (ok existing, rows)
    | none ↦
        create
          (pending_payment settings outage_id n sla_result.payment_type sla_result.amount payment_id
            hash now)
          rows
  ]
]

abbrev pub reconciled : String → ℕ → Payment → Payment
reconciled new_status now p = record p {
  status = new_status;
  confirmed_at = if str_eq new_status "confirmed" then some now else p.confirmed_at;
}

unfoldable pub reconcile : String → String → ℕ → Rows → Result (Option Payment) × Rows
unfolding get validate_transition
reconcile id new_status now rows = elim (get id rows) [
  | none ↦ (ok none, rows)
  | some p ↦ elim (validate_transition p.status new_status) [
    | err e ↦ (err e, rows)
    | ok _ ↦ (
      ok (some (reconciled new_status now p)),
      update_first (λ q. str_eq q.id id) (reconciled new_status now) rows,
    )
  ]
]

abbrev pub retried : ℕ → Payment → Payment
retried now p = record p {
  retry_count = p.retry_count + 1;
  last_retried_at = some now;
  status = "pending";
}

-- `None` is the answer for a missing row and for one with no retry left.
unfoldable pub retry : String → ℕ → Rows → Result (Option Payment) × Rows
unfolding get validate_transition
retry id now rows = elim (get id rows) [
  | none ↦ (ok none, rows)
  | some p ↦
      if leb max_retries p.retry_count
      then (ok none, rows)
      else elim (validate_transition p.status "pending") [
        | err e ↦ (err e, rows)
        | ok _ ↦ (ok (some (retried now p)), update_first (λ q. str_eq q.id id) (retried now) rows)
      ]
]

-- `_compute_next_retry_at` (app/api/v1/endpoints/payments.py).
unfoldable pub compute_next_retry_at : ℕ → Option ℕ → ℕ → Option ℕ
compute_next_retry_at retry_count last_retried_at now =
    if leb max_retries retry_count
    then none
    else some (get_or last_retried_at now + min (30 * 2 ^ retry_count) 3600)
