-- ===== src/Audit.antt =====
-- The audit log and its hash chain (app/services/audit_log.py, app/models/orm/audit_log.py). The
-- table is listed by ascending keys. Details are the JSON text of a value, already parsed or not.
pub mod Roots
pub mod Chain
pub mod Evident
mod Tests
use apex_chainx_backend.Common.{
  ℕ, suc, ◌+◌, String, Bool, true, false, not, ◌&&◌, Option, none, some, List, [], ◌∷◌, ◌++◌,
  str_eq, if◌then◌else◌, length,
}

-- What `_compute_entry_hash` reads.
pub record Hashed : Type 0 where
  pub prev_hash : Option String
  pub event_type : String
  pub details : Option String
  pub correlation_id : Option String
  pub created_at : ℕ

-- `AuditLogORM`
pub record Entry : Type 0 where
  pub id : ℕ
  pub event_type : String
  pub email : Option String
  pub actor_id : Option String
  pub correlation_id : Option String
  pub details : Option String
  pub created_at : ℕ
  pub prev_hash : Option String
  pub entry_hash : String

-- The arguments of `log_event`, with the clock; the correlation is that of the context where it is
-- not given.
pub record Event : Type 0 where
  pub event_type : String
  pub email : Option String
  pub actor_id : Option String
  pub details : Option String
  pub correlation_id : Option String
  pub context_id : Option String
  pub created_at : ℕ

-- The table, and the key that the next row gets.
pub record Log : Type 0 where
  pub entries : List Entry
  pub next_id : ℕ

-- The answer of `verify_chain`.
pub record Report : Type 0 where
  pub verified : Bool
  pub first_bad_id : Option ℕ
  pub total_entries : ℕ
  pub last_hash : Option String

-- `entries[-1].entry_hash`, or the hash before them.
unfoldable pub last_hash_of : Option String → List Entry → Option String
last_hash_of previous [] = previous
last_hash_of previous (e ∷ es) = last_hash_of (some e.entry_hash) es

-- Equality of two hashes that may be missing.
unfoldable pub same_hash : Option String → Option String → Bool
same_hash none none = true
same_hash (some a) (some b) = str_eq a b
same_hash none (some b) = false
same_hash (some a) none = false

-- `sha256` digests the canonical JSON of its fields.
module _ (sha256 : Hashed → String) where
  -- The hash of a row after a given one.
  unfoldable pub compute_entry_hash : Option String → Entry → String
  compute_entry_hash previous_hash e = sha256 (record {
    prev_hash = previous_hash;
    event_type = e.event_type;
    details = e.details;
    correlation_id = e.correlation_id;
    created_at = e.created_at;
  })

  -- The loop of `verify_chain`: the first row that does not fit the one before it.
  unfoldable pub first_bad : Option String → List Entry → Option ℕ
  unfolding compute_entry_hash same_hash
  first_bad previous [] = none
  first_bad previous (e ∷ es) =
      let rest = first_bad (some e.entry_hash) es in
      if same_hash e.prev_hash previous && str_eq e.entry_hash (compute_entry_hash previous e)
      then rest
      else some e.id

  -- The report on the rows of the table.
  unfoldable pub report_on : List Entry → Report
  report_on [] = record {
    verified = true;
    first_bad_id = none;
    total_entries = 0;
    last_hash = none;
  }
  report_on (e ∷ es) =
      let bad = first_bad none (e ∷ es) in
      record {
        verified = elim bad [ none ↦ true | some id ↦ false ];
        first_bad_id = bad;
        total_entries = length (e ∷ es);
        last_hash = last_hash_of none (e ∷ es);
      }

  unfoldable pub verify_chain : Log → Report
  unfolding report_on
  verify_chain log = report_on log.entries

-- `scrub` redacts the details.
module _ (sha256 : Hashed → String) (scrub : Option String → Option String) where
  -- The row of an event after a given hash.
  unfoldable pub new_entry : ℕ → Option String → Event → Entry
  unfolding compute_entry_hash
  new_entry id prev_hash event =
      let unsealed : Entry = record {
        id = id;
        event_type = event.event_type;
        email = event.email;
        actor_id = event.actor_id;
        correlation_id = elim event.correlation_id [
          | none ↦ event.context_id
          | some given ↦ some given
        ];
        details = scrub event.details;
        created_at = event.created_at;
        prev_hash = prev_hash;
        entry_hash = "";
      } in
      record unsealed { entry_hash = compute_entry_hash sha256 prev_hash unsealed }

  unfoldable pub log_event : Event → Log → Log
  log_event event log = record {
    entries = log.entries ++ new_entry log.next_id (last_hash_of none log.entries) event ∷ [];
    next_id = log.next_id + 1;
  }

  unfoldable pub log_all : List Event → Log → Log
  log_all [] log = log
  log_all (event ∷ events) log = log_all events (log_event event log)
