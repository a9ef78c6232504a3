-- ===== src/Poller.antt =====
-- The ledger poller (app/services/block_poller.py). A source is asked with the cursor and the limit; what
-- it answers to the attempts of one call is a list of responses, one for each attempt, and what the
-- handler does to a block is a function of the block. Delays are in units of which the code takes
-- fractions; the clock is read where the code reads it.
pub mod Fetch
pub mod Cycle
pub mod Chain
mod Tests
use apex_chainx_backend.Common.{
  ℕ, zero, suc, ◌+◌, ◌-◌, ◌*◌, ◌^◌, min, String, Bool, true, false, not, ◌&&◌, ◌||◌, Option, none,
  some, List, [], ◌∷◌, ◌++◌, ltb, leb, ◌==◌, if◌then◌else◌, str_eq,
}

-- `Block`, without its payload.
pub record Block : Type 0 where
  pub cursor : String
  pub height : ℕ

-- `BlockFetchError`, with what decides on a retry; `BlockHandlerError`; and `ValueError`.
pub data Error : Type 0 where
  fetch_error : (retryable : Bool) → Error
  handler_error : Block → Error
  value_error : Error

pub data Result (A : Type 0) : Type 0 where
  err : Error → Result A
  ok : A → Result A

-- One answer of `fetch_blocks`: an error of the source, any other exception, or a value, whose elements
-- are blocks or something else. `not_a_sequence` is a text or no sequence.
pub data Response : Type 0 where
  fails : (retryable : Bool) → Response
  raises not_a_sequence : Response
  page : List (Option Block) → Response

-- The parameters of the constructor.
pub record Config : Type 0 where
  pub poll_interval : ℕ
  pub batch_size : ℕ
  pub max_attempts : ℕ
  pub retry_base_delay : ℕ
  pub retry_max_delay : ℕ

-- The guards of `BlockPoller.__init__`, on durations of 0 or more.
unfoldable pub validate : Config → Result Config
validate c =
    if c.poll_interval == 0
    then err value_error
    else if not (leb 1 c.batch_size && leb c.batch_size 200)
    then err value_error
    else if ltb c.max_attempts 1
    then err value_error
    else if ltb c.retry_max_delay c.retry_base_delay
    then err value_error
    else ok c

-- `BlockPoller`, as far as it changes.
pub record Poller : Type 0 where
  pub cursor : Option String
  pub last_poll_at : Option ℕ
  pub last_success_at : Option ℕ
  pub last_error : Option Error
  pub consecutive_failures : ℕ

abbrev pub start_at : Option String → Poller
start_at cursor = record {
  cursor = cursor;
  last_poll_at = none;
  last_success_at = none;
  last_error = none;
  consecutive_failures = 0;
}

pub data Health : Type 0 where
  unhealthy degraded healthy starting : Health

unfoldable pub health : Config → Poller → Health
health cfg p = elim p.last_error [
  | some _ ↦ if leb cfg.max_attempts p.consecutive_failures then unhealthy else degraded
  | none ↦ elim p.last_success_at [ some _ ↦ healthy | none ↦ starting ]
]

-- `_validate_blocks`
unfoldable pub validate_blocks : List (Option Block) → Result (List Block)
validate_blocks [] = ok []
validate_blocks (none ∷ rest) = err (fetch_error false)
validate_blocks (some b ∷ rest) =
    let checked = validate_blocks rest in elim checked [ ok bs ↦ ok (b ∷ bs) | err e ↦ err e ]

-- What one attempt comes to.
abbrev pub attempt_of : Response → Result (List Block)
attempt_of (fails retryable) = err (fetch_error retryable)
attempt_of raises = err (fetch_error true)
attempt_of not_a_sequence = err (fetch_error false)
attempt_of (page blocks) = validate_blocks blocks

abbrev pub is_retryable : Error → Bool
is_retryable (fetch_error retryable) = retryable
is_retryable _ = true

-- `min(base * 2 ** (attempt - 1), max)`
abbrev pub delay_after : Config → ℕ → ℕ
delay_after cfg attempt = min (cfg.retry_base_delay * 2 ^ (attempt - 1)) cfg.retry_max_delay

-- What `_fetch_with_retry` comes to: its outcome, the attempts made, and the delays slept.
pub record Fetched : Type 0 where
  pub outcome : Result (List Block)
  pub attempts : ℕ
  pub sleeps : List ℕ

-- The loop of `_fetch_with_retry` with `left` attempts left, this one included; `attempt` counts from
-- 1, and `responses n` is the answer to the attempt n. No attempt is left only if `max_attempts` is 0,
-- which the constructor refuses.
unfoldable pub fetch_loop : Config → (ℕ → Response) → ℕ → ℕ → Fetched
fetch_loop cfg responses zero attempt = record {
  outcome = err value_error;
  attempts = attempt;
  sleeps = [];
}
fetch_loop cfg responses (suc left) attempt =
    let rest = fetch_loop cfg responses left (suc attempt) in
    elim (attempt_of (responses attempt)) [
      | ok blocks ↦ record { outcome = ok blocks; attempts = attempt; sleeps = [] }
      | err e ↦
          if not (is_retryable e) || leb cfg.max_attempts attempt
          then record { outcome = err e; attempts = attempt; sleeps = [] }
          else record {
            outcome = rest.outcome;
            attempts = rest.attempts;
            sleeps = delay_after cfg attempt ∷ rest.sleeps;
          }
    ]

unfoldable pub fetch_with_retry : Config → (ℕ → Response) → Fetched
unfolding fetch_loop
fetch_with_retry cfg responses = fetch_loop cfg responses cfg.max_attempts 1

abbrev pub record_failure : Error → ℕ → Poller → Poller
record_failure e now p = record p {
  last_poll_at = some now;
  last_error = some e;
  consecutive_failures = suc p.consecutive_failures;
}

-- `PollCycleResult`, without its times.
pub record CycleResult : Type 0 where
  pub blocks_processed : ℕ
  pub cursor : Option String
  pub latest_height : Option ℕ
  pub attempts : ℕ

-- The loop over the blocks: the poller, the blocks that were handled, and the one that failed.
unfoldable pub process : (Block → Bool) → List Block → Poller → Poller × List Block × Option Block
process handler [] p = (p, [], none)
process handler (b ∷ blocks) p =
    let (p', handled, failed) = process handler blocks (record p { cursor = some b.cursor }) in
    if handler b then (p', b ∷ handled, failed) else (p, [], some b)

abbrev pub last_height : List Block → Option ℕ
last_height [] = none
last_height (b ∷ []) = some b.height
last_height (b ∷ c ∷ blocks) = last_height (c ∷ blocks)

abbrev pub count : List Block → ℕ
count [] = 0
count (b ∷ blocks) = suc (count blocks)

-- `poll_once`; `handler b` says that the handler, if there is one, returns. The blocks that it handled
-- come along.
unfoldable pub poll_once :
    Config → (ℕ → Response) → (Block → Bool) → ℕ → Poller → Result CycleResult × Poller × List Block
unfolding fetch_with_retry process
poll_once cfg responses handler now p =
    let fetched = fetch_with_retry cfg responses in
    elim fetched.outcome [
      | err e ↦ (err e, record_failure e now p, [])
      | ok blocks ↦
          let (p', handled, failed) = process handler blocks p in
          elim failed [
            | some b ↦ (err (handler_error b), record_failure (handler_error b) now p', handled)
            | none ↦ (
              ok (record {
                blocks_processed = count handled;
                cursor = p'.cursor;
                latest_height = last_height handled;
                attempts = fetched.attempts;
              }),
              record p' {
                last_poll_at = some now;
                last_success_at = some now;
                consecutive_failures = 0;
                last_error = none;
              },
              handled,
            )
          ]
    ]
