-- ===== src/Poller/Tests.antt =====
-- The poller of app/services/block_poller.py on a chain of three ledgers.
use apex_chainx_backend.Common.{
  ℕ, ◌+◌, ◌≤◌, ◌≡◌, refl, String, Bool, true, Option, none, some, List, [], ◌∷◌, ◌++◌, arith,
  length, All, ◌==◌, if◌then◌else◌, ltb,
}
use apex_chainx_backend.Poller.{
  Block, fails, Config, start_at, validate, health, attempt_of, fetch_loop, fetch_with_retry,
  validate_blocks, process, poll_once,
}
use apex_chainx_backend.Poller.Fetch.{fetch_with_retry_lem}
use apex_chainx_backend.Poller.Chain.{Cycle, cycles, next_after, cycles_in_order}

abbrev cfg : Config
cfg = record {
  poll_interval = 10;
  batch_size = 2;
  max_attempts = 3;
  retry_base_delay = 5;
  retry_max_delay = 8;
}

abbrev ledger : String → ℕ → Block
ledger cursor height = record { cursor = cursor; height = height }

abbrev chain : List Block
chain = ledger "a" 1 ∷ ledger "b" 2 ∷ ledger "c" 3 ∷ []

-- The first attempt of a cycle times out.
abbrev slow : ℕ → Option Bool
slow attempt = if attempt == 1 then some true else none

abbrev below : ℕ → Block → Bool
below n b = ltb b.height n

-- The handler refuses the second ledger once.
abbrev polled : List Cycle
polled =
    record { fault = slow; handler = below 2; now = 100 }
    ∷ record { fault = slow; handler = below 9; now = 110 }
    ∷ []

program : Unit {0}
unfolding validate health fetch_loop fetch_with_retry validate_blocks process poll_once cycles
program = tt

all_polled : (cycles cfg chain polled (start_at none)).1 ≡ chain
unfolding program
all_polled = refl

slept : (fetch_with_retry cfg (λ n. fails true)).sleeps ≡ 5 ∷ 8 ∷ []
unfolding program
slept = refl

fetch_with_retry_lem_example :
    let r = fetch_with_retry cfg (λ n. fails true) in
    (1 ≤ r.attempts)
    × (r.attempts ≤ 3)
    × (r.outcome ≡ attempt_of (fails true))
    × (1 + length r.sleeps ≡ r.attempts)
    × All (λ delay. delay ≤ 8) r.sleeps
fetch_with_retry_lem_example = fetch_with_retry_lem cfg (λ n. fails true) (ground arith)

cycles_in_order_example :
    let (p, handled) = cycles cfg chain polled (start_at none) in
    (rest : List Block) × (chain ≡ handled ++ rest) × (next_after p.cursor chain ≡ rest)
cycles_in_order_example = cycles_in_order chain refl cfg polled (ground arith)
