-- ===== src/Audit/Tests.antt =====
-- The audit log of app/services/audit_log.py on concrete events.
use apex_chainx_backend.Common.{
  ℕ, ◌≡◌, refl, true, false, String, Option, none, some, List, [], ◌∷◌, map, arith, eq_iff,
}
use apex_chainx_backend.Audit.{
  Hashed, Entry, Event, Log, last_hash_of, same_hash, compute_entry_hash, new_entry, log_event,
  first_bad, report_on, verify_chain, log_all,
}
use apex_chainx_backend.Audit.Chain.{log_all-reported}
use apex_chainx_backend.Audit.Evident.{covered, verify_chain-covered, verify_chain-cut}

abbrev sha256 : Hashed → String
sha256 h = h.event_type

abbrev event : String → Event
event name = record {
  event_type = name;
  email = some "a@b.c";
  actor_id = none;
  details = none;
  correlation_id = none;
  context_id = some "req";
  created_at = 7;
}

abbrev empty : Log
empty = record { entries = []; next_id = 1 }

program : Unit {0}
unfolding log_all log_event new_entry compute_entry_hash last_hash_of same_hash first_bad report_on
    verify_chain
program = tt

abbrev events : List Event
events = event "login" ∷ event "logout" ∷ []

abbrev full : Log
unfolding program
full = log_all sha256 (λ d. d) events empty

log_all-reported_example :
    let after = verify_chain sha256 (log_all sha256 (λ d. d) events empty) in
    (after.verified ≡ true) × (after.first_bad_id ≡ none) × (after.total_entries ≡ 2)
unfolding program
log_all-reported_example = log_all-reported sha256 (λ d. d) events empty

verify_chain-covered_example : map covered full.entries ≡ map covered full.entries
unfolding program
verify_chain-covered_example =
    verify_chain-covered sha256 full full
      (
        (λ same. refl, (λ same. ground (arith, same, eq_iff "login" "logout"), tt)),
        ((λ same. ground (arith, same, eq_iff "logout" "login"), (λ same. refl, tt)), tt),
      )
      refl refl

abbrev renamed : Entry → Option String × Option String
renamed e = (some "x@y.z", some "someone else")

abbrev sealed : ℕ → Option String → String → Entry
unfolding program
sealed id previous name = new_entry sha256 (λ d. d) id previous (event name)

verify_chain-cut_example :
    let pruned =
      verify_chain sha256 (record full { entries = sealed 2 (some "login") "logout" ∷ [] }) in
    (pruned.verified ≡ false) × (pruned.first_bad_id ≡ some 2)
unfolding program
verify_chain-cut_example =
    verify_chain-cut sha256 (sealed 1 none "login") (sealed 2 (some "login") "logout") [] [] full
      refl refl
