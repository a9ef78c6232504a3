-- ===== src/Idempotency/Tests.antt =====
-- Requests with an Idempotency-Key (app/middleware/idempotency.py) on concrete states.
use apex_chainx_backend.Common.{
  ◌≡◌, refl, ap, sym, false, some, none, [], get_or, lookup, insert, length, ◌≤◌, String, arith,
}
use apex_chainx_backend.Idempotency.{
  Request, Response, Env, State, World, handled, rejected, circuit_open, live_value,
  compute_fingerprint, actor_key, cache_key_of, is_changing, dispatch,
}
use apex_chainx_backend.Idempotency.Replayed.{is_success, IsUp, IsKeyed, dispatch-replay}
use apex_chainx_backend.Idempotency.Uncached.{IsSameCache, dispatch-IsSameCache}

abbrev env : Env
env = record {
  ttl = 86400;
  max_completed_keys = 10;
  sha256 = λ text. text;
  sha256_16 = λ text. text;
  token = λ header. header;
  canonical = λ body. some body;
  zrange = λ index count. [];
}

abbrev order : Request
order = record {
  method = "POST";
  path = "/api/v1/payments";
  authorization = some "alice";
  idempotency_key = some "k1";
  body = "[1]";
}

abbrev tampered : Request
tampered = record order { body = "[2]" }

abbrev created : Response
created = record { status_code = 201; content = "[]"; media_type = none; headers = [] }

abbrev broken : Response
broken = record created { status_code = 500 }

abbrev start : State
start = record { store = []; index = []; disabled_until = 0 }

abbrev first_call : World
first_call = record {
  now = 1000;
  monotonic = 50;
  get_fails = false;
  setex_fails = false;
  zadd_fails = false;
  zcard_fails = false;
  evicting = none;
  response = some created;
}

abbrev second_call : World
second_call = record first_call { now = 2000 }

abbrev failing_call : World
failing_call = record first_call { response = some broken }

first-IsUp : IsUp first_call start
unfolding circuit_open
first-IsUp = (refl, refl, refl, refl, refl)

second-IsUp : IsUp second_call start
unfolding circuit_open
second-IsUp = (refl, refl, refl, refl, refl)

room : length (insert (cache_key_of env order) first_call.now start.index) ≤ 10
unfolding insert
room = omega arith

abbrev fingerprint : String
fingerprint = "POST:/api/v1/payments:[1]"

abbrev other_fingerprint : String
other_fingerprint = "POST:/api/v1/payments:[2]"

order-IsKeyed : IsKeyed env order fingerprint
unfolding compute_fingerprint is_changing
order-IsKeyed = (refl, refl, refl)

tampered-IsKeyed : IsKeyed env tampered other_fingerprint
unfolding compute_fingerprint is_changing
tampered-IsKeyed = (refl, refl, refl)

same_key : cache_key_of env tampered ≡ cache_key_of env order
unfolding cache_key_of actor_key
same_key = refl

missing : live_value first_call.now (lookup (cache_key_of env order) start.store) ≡ none
unfolding live_value lookup
missing = refl

dispatch-replay_example :
    let (s', reply) = dispatch env first_call order start in
    (reply ≡ handled created)
    × (dispatch env second_call tampered s'
        ≡ (s', rejected 409 "Idempotency-Key already used with different payload"))
dispatch-replay_example =
    dispatch-replay env first_call second_call order tampered start fingerprint other_fingerprint
      created order-IsKeyed tampered-IsKeyed same_key missing refl refl room first-IsUp second-IsUp
      (omega arith)

failed : (response : Response) → some broken ≡ some response → is_success response ≡ false
failed response e = ap (λ sent. is_success (get_or sent broken)) (sym e)

dispatch-IsSameCache_example : IsSameCache start (dispatch env failing_call order start).0
dispatch-IsSameCache_example = dispatch-IsSameCache env failing_call order start failed
