-- ===== src/Breaker/Tests.antt =====
-- Runs of the breaker (app/services/webhook_breaker.py) on concrete calls.
use apex_chainx_backend.Common.{
  ◌≤◌, ◌≡◌, refl, true, false, Option, none, some, List, [], ◌∷◌, String, arith, lookup, insert,
  erase, String,
}
use apex_chainx_backend.Breaker.{
  opened, Config, CircuitBreaker, init, host_key, Call, allow, failed, succeeded, apply,
  record_failure, allow_request, on_failure,
}
use apex_chainx_backend.Breaker.Host.{IsValid}
use apex_chainx_backend.Breaker.Refines.{view, run, apply-view, run-IsValid, events_for}
use apex_chainx_backend.Breaker.Probe.{allowed_to, allowed_to-le-one}

-- Two failures in 300 seconds open the breaker for 600 seconds.
abbrev cfg : Config
cfg = record { fail_threshold = 2; window_seconds = 300; reset_seconds = 600 }

abbrev hostname : String → Option String
hostname url = some "hooks"

abbrev url : String
url = "https://hooks/a"

abbrev tripped : CircuitBreaker
tripped = record {
  state = ("hooks", opened) ∷ [];
  failures = ("hooks", 10 ∷ 20 ∷ []) ∷ [];
  open_since = ("hooks", 20) ∷ [];
  probe_sent = ("hooks", false) ∷ [];
}

program : Unit {0}
unfolding apply run host_key lookup insert erase allow_request on_failure record_failure events_for
program = tt

two_failures : run cfg true hostname (failed url 10 ∷ failed url 20 ∷ []) init ≡ tripped
unfolding program
two_failures = refl

apply-view_example :
    view (apply cfg true hostname (failed url 30) tripped).0 "other" ≡ view tripped "other"
unfolding host_key
apply-view_example = apply-view cfg true hostname (failed url 30) tripped "other"

run-IsValid_example :
    IsValid cfg (
      view
        (run cfg true hostname (failed url 10 ∷ succeeded url ∷ failed url 20 ∷ []) init)
        "hooks")
run-IsValid_example =
    run-IsValid cfg true hostname (failed url 10 ∷ succeeded url ∷ failed url 20 ∷ []) "hooks"
      (omega arith)

abbrev requests : List Call
requests = allow url none 630 630 ∷ allow url (some true) 631 631 ∷ allow url none 2000 2000 ∷ []

allowed_to-le-one_example : allowed_to cfg true hostname "hooks" requests tripped ≤ 1
unfolding program
allowed_to-le-one_example =
    allowed_to-le-one cfg true hostname "hooks" requests tripped (ground arith) (tt, (tt, (tt, tt)))
