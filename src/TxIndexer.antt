-- ===== src/TxIndexer.antt =====
-- The indexer of Stellar transactions (app/services/tx_indexer.py) and its table
-- (app/repositories/tx_indexer_repository.py). The delays between attempts and the spans are left out.
pub mod Inserted
pub mod Parsed
pub mod Firsts
pub mod Passes
pub mod Redelivered
mod Tests
use Prim.Native.String.{◌++◌ as append}
use apex_chainx_backend.Common.{
  ℕ, zero, suc, ◌+◌, ◌*◌, ◌/◌, ◌^◌, String, Bool, true, false, not, ◌&&◌, ◌||◌, Option, none, some,
  List, [], ◌∷◌, ◌++◌, str_eq, ltb, leb, if◌then◌else◌, get_or, length, ◌⊎◌, inl, inr, ◌==◌,
}

-- What an attempt of the fetch can raise.
pub data Failure : Type 0 where
  timeout : Failure
  transport : Failure
  http_status : ℕ → Failure
  other_failure : Failure

-- What a pass can raise: a failure that is not retried, the last failure after all attempts, a record
-- that cannot be parsed, or an error of the database.
pub data Error : Type 0 where
  fetch_failed : Failure → Error
  retry_exhausted : ℕ → Failure → Error
  missing_hash : Error
  invalid_amount : String → Error
  invalid_created_at : String → Error
  write_failed : Error

pub data Result (A : Type 0) : Type 0 where
  err : Error → Result A
  ok : A → Result A

-- A record of Horizon, its fields as texts where they are present. For the amount, `some none` is a
-- null; a null in the other fields counts as a missing one in the code.
pub record Record : Type 0 where
  pub transaction_hash : Option String
  pub type_ : Option String
  pub amount : Option (Option String)
  pub asset_code : Option String
  pub sender : Option String
  pub receiver : Option String
  pub created_at : Option String

pub record IndexedTransaction : Type 0 where
  pub transaction_hash : String
  pub type_ : String
  pub amount : ℕ
  pub asset_code : String
  pub from_address : String
  pub to_address : String
  pub created_at : ℕ

-- A row of `payment_transactions`.
pub record Row : Type 0 where
  pub id : String
  pub tx : IndexedTransaction
  pub status : String
  pub confirmed_at : ℕ
  pub retry_count : ℕ

pub record FetchedPage : Type 0 where
  pub records : List Record
  pub next_cursor : Option String

pub record IndexResult : Type 0 where
  pub fetched : ℕ
  pub inserted : ℕ
  pub next_cursor : Option String

-- A decimal: a sign (`true` for minus), the digits, and how many of them are after the point.
pub data Decimal : Type 0 where
  not_finite : Decimal
  finite : Bool → ℕ → ℕ → Decimal

-- Functions of the language: `str.strip`, the first 24 characters, the readers of decimals and of
-- times.
pub record Env : Type 0 where
  pub strip : String → String
  pub prefix24 : String → String
  pub decimal : String → Option Decimal
  pub fromisoformat : String → Option ℕ

-- What one pass meets: the answers of Horizon to the attempts, the clock, and whether the database
-- fails for a reason of its own.
pub record World : Type 0 where
  pub answers : ℕ → Option String → Failure ⊎ FetchedPage
  pub now : ℕ
  pub write_fails : Bool

-- What the recorder of the health probe was told.
pub data Outcome : Type 0 where
  success : Option String → ℕ → Outcome
  failure : Error → Outcome

pub record State : Type 0 where
  pub rows : List Row
  pub recorded : List Outcome

unfoldable pub is_retryable : Failure → Bool
is_retryable timeout = true
is_retryable transport = true
is_retryable (http_status n) =
    n == 408 || n == 425 || n == 429 || n == 500 || n == 502 || n == 503 || n == 504
is_retryable other_failure = false

-- `RetryPolicy.call`; the first number is how many attempts are left of `max_attempts`, which
-- `__post_init__` keeps above 0.
unfoldable pub call_loop : (ℕ → Failure ⊎ FetchedPage) → ℕ → ℕ → Result FetchedPage
call_loop answers zero attempt = err (retry_exhausted attempt other_failure)
call_loop answers (suc left) attempt =
    let rest = call_loop answers left (suc attempt) in
    elim (answers attempt) [
      | inr page ↦ ok page
      | inl failed ↦
          if not (is_retryable failed)
          then err (fetch_failed failed)
          else if leb left 0
          then err (retry_exhausted attempt failed)
          else rest
    ]

unfoldable pub fetch_page : ℕ → World → Option String → Result FetchedPage
fetch_page max_attempts world cursor =
    call_loop (λ attempt. world.answers attempt cursor) max_attempts 1

-- `str(value or default)`
unfoldable pub or_default : Option String → String → String
or_default value fallback = if str_eq (get_or value "") "" then fallback else get_or value ""

-- The unique column and the primary key.
unfoldable pub has_hash : String → List Row → Bool
has_hash hash [] = false
has_hash hash (row ∷ rows) = str_eq row.tx.transaction_hash hash || has_hash hash rows

unfoldable pub has_id : String → List Row → Bool
has_id id [] = false
has_id id (row ∷ rows) = str_eq row.id id || has_id id rows

-- INSERT ... ON CONFLICT (transaction_hash) DO NOTHING: the table after it and the number of new
-- rows, or `none` where a row breaks the primary key.
unfoldable pub insert_all : List Row → List Row → Option (List Row × ℕ)
insert_all [] rows = some (rows, 0)
insert_all (row ∷ more) rows =
    let skipped = insert_all more rows in
    let inserted = insert_all more (rows ++ row ∷ []) in
    if has_hash row.tx.transaction_hash rows
    then skipped
    else if has_id row.id rows
    then none
    else elim inserted [ none ↦ none | some result ↦ some (result.0, suc result.1) ]

-- `str(record.get("amount", "0"))`
unfoldable pub amount_text : Record → String
amount_text r = elim r.amount [ none ↦ "0" | some none ↦ "None" | some (some text) ↦ text ]

module _ (env : Env) where
  unfoldable pub to_stroops : String → Result ℕ
  to_stroops raw = elim (env.decimal raw) [
    | none ↦ err (invalid_amount raw)
    | some not_finite ↦ err (invalid_amount raw)
    | some (finite negative digits scale) ↦
        if negative && ltb 0 digits
        then err (invalid_amount raw)
        else ok (digits * 10 ^ 7 / 10 ^ scale)
  ]

  unfoldable pub parse_created_at : ℕ → Option String → Result ℕ
  parse_created_at now raw =
      if str_eq (get_or raw "") "" then ok now else elim (env.fromisoformat (get_or raw "")) [
        | none ↦ err (invalid_created_at (get_or raw ""))
        | some time ↦ ok time
      ]

  unfoldable pub parse_horizon_record : ℕ → Record → Result IndexedTransaction
  parse_horizon_record now r =
      let hash = env.strip (get_or r.transaction_hash "") in
      if str_eq hash "" then err missing_hash else elim (to_stroops (amount_text r)) [
        | err e ↦ err e
        | ok amount ↦ elim (parse_created_at now r.created_at) [
          | err e ↦ err e
          | ok time ↦ ok (record {
            transaction_hash = hash;
            type_ = or_default r.type_ "payment";
            amount = amount;
            asset_code = or_default r.asset_code "XLM";
            from_address = get_or r.sender "";
            to_address = get_or r.receiver "";
            created_at = time;
          })
        ]
      ]

  unfoldable pub parse_all : ℕ → List Record → Result (List IndexedTransaction)
  parse_all now [] = ok []
  parse_all now (r ∷ records) =
      let rest = parse_all now records in
      elim (parse_horizon_record now r) [
        | err e ↦ err e
        | ok tx ↦ elim rest [ err e ↦ err e | ok txs ↦ ok (tx ∷ txs) ]
      ]

  -- `IndexedTransaction.id`
  unfoldable pub id_of : IndexedTransaction → String
  id_of tx = append "txidx_" (env.prefix24 tx.transaction_hash)

  unfoldable pub to_rows : ℕ → List IndexedTransaction → List Row
  to_rows now [] = []
  to_rows now (tx ∷ txs) =
      record { id = id_of tx; tx = tx; status = "confirmed"; confirmed_at = now; retry_count = 0 }
      ∷ to_rows now txs

  unfoldable pub upsert_many : World → List IndexedTransaction → List Row → Option (List Row × ℕ)
  upsert_many world [] rows = some (rows, 0)
  upsert_many world (tx ∷ txs) rows =
      if world.write_fails then none else insert_all (to_rows world.now (tx ∷ txs)) rows

  -- The three steps of a pass, before the recorder is told.
  unfoldable pub index_page : ℕ → World → Option String → List Row → Result (List Row × IndexResult)
  index_page max_attempts world cursor rows = elim (fetch_page max_attempts world cursor) [
    | err e ↦ err e
    | ok page ↦ elim (parse_all world.now page.records) [
      | err e ↦ err e
      | ok txs ↦ elim (upsert_many world txs rows) [
        | none ↦ err write_failed
        | some result ↦ ok (
          result.0,
          record { fetched = length txs; inserted = result.1; next_cursor = page.next_cursor },
        )
      ]
    ]
  ]

  unfoldable pub run_once : ℕ → World → Option String → State → State × Result IndexResult
  run_once max_attempts world cursor s = elim (index_page max_attempts world cursor s.rows) [
    | err e ↦ (record s { recorded = s.recorded ++ failure e ∷ [] }, err e)
    | ok page ↦ (
      record {
        rows = page.0;
        recorded = s.recorded ++ success page.1.next_cursor page.1.inserted ∷ [];
      },
      ok page.1,
    )
  ]
