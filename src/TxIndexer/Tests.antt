-- ===== src/TxIndexer/Tests.antt =====
-- Passes of the indexer (app/services/tx_indexer.py) on concrete pages.
use apex_chainx_backend.Common.{
  true, ◌≡◌, refl, false, none, some, [], ◌∷◌, leb, if◌then◌else◌, inl, inr,
}
use apex_chainx_backend.TxIndexer.{
  Record, FetchedPage, IndexResult, Env, World, State, timeout, finite, ok, call_loop, is_retryable,
  fetch_page, has_hash, has_id, insert_all, to_stroops, parse_created_at, parse_horizon_record,
  parse_all, id_of, to_rows, upsert_many, index_page, run_once, or_default, amount_text,
}
use apex_chainx_backend.TxIndexer.Parsed.{is_ok}
use apex_chainx_backend.TxIndexer.Passes.{IsPassed, run_once-IsPassed}
use apex_chainx_backend.TxIndexer.Redelivered.{runs, inserted_of, run_once-redelivered}

abbrev env : Env
env = record {
  strip = λ text. text;
  prefix24 = λ text. text;
  decimal = λ text. some (finite false 25 1);
  fromisoformat = λ text. some 7;
}

abbrev payment : Record
payment = record {
  transaction_hash = some "aa";
  type_ = none;
  amount = some (some "2.5");
  asset_code = none;
  sender = some "G1";
  receiver = some "G2";
  created_at = none;
}

abbrev other : Record
other = record payment { transaction_hash = some "bb" }

abbrev page : FetchedPage
page = record { records = payment ∷ other ∷ payment ∷ []; next_cursor = some "3" }

-- The first attempt times out.
abbrev world : World
world = record {
  answers = λ attempt cursor. if leb attempt 1 then inl timeout else inr page;
  now = 100;
  write_fails = false;
}

abbrev later : World
later = record world { now = 200 }

abbrev start : State
start = record { rows = []; recorded = [] }

abbrev indexed : IndexResult
indexed = record { fetched = 3; inserted = 2; next_cursor = some "3" }

page-fetch_page : fetch_page 3 world none ≡ ok page
unfolding fetch_page call_loop is_retryable
page-fetch_page = refl

later-fetch_page : fetch_page 3 later (some "3") ≡ ok page
unfolding fetch_page call_loop is_retryable
later-fetch_page = refl

indexed-run_once : (run_once env 3 world none start).1 ≡ ok indexed
unfolding run_once index_page fetch_page call_loop is_retryable parse_all parse_horizon_record
    to_stroops parse_created_at or_default amount_text upsert_many to_rows id_of insert_all has_hash
    has_id
indexed-run_once = refl

run_once-IsPassed_example : IsPassed env 3 world none start (run_once env 3 world none start)
run_once-IsPassed_example = run_once-IsPassed env 3 world none start

run_once-redelivered_example :
    let s' = runs env 3 ((later, none) ∷ []) (run_once env 3 world none start).0 in
    let (s'', reply) = run_once env 3 later (some "3") s' in
    (s''.rows ≡ s'.rows) × (inserted_of reply ≡ 0) × (is_ok reply ≡ true)
run_once-redelivered_example =
    run_once-redelivered env 3 world later none (some "3") start ((later, none) ∷ []) page page
      indexed page-fetch_page indexed-run_once later-fetch_page refl refl
