-- ===== src/Audit/Chain.antt =====
-- Appending to the audit log keeps its chain (app/services/audit_log.py).
use apex_chainx_backend.Common.{
  ℕ, ◌+◌, ◌≡◌, refl, ap, ◌∙◌, inl, inr, String, Bool, true, false, Option, none, some, List, [],
  ◌∷◌, ◌++◌, str_eq_refl, length, Option-cases, arith, length-append,
}
use apex_chainx_backend.Audit.{
  Hashed, Entry, Event, Log, last_hash_of, same_hash, compute_entry_hash, new_entry, log_event,
  first_bad, report_on, verify_chain, log_all,
}

same_hash_refl : (h : Option String) → same_hash h h ≡ true
unfolding same_hash
same_hash_refl none = refl
same_hash_refl (some a) = str_eq_refl a

abbrev pub is_none {ℓ} : {A : Type ℓ} → Option A → Bool
is_none none = true
is_none (some a) = false

module _ (sha256 : Hashed → String) where
  first_bad-append :
      (previous : Option String) (es : List Entry) (e : Entry)
      → first_bad sha256 (last_hash_of previous es) (e ∷ []) ≡ none
      → first_bad sha256 previous (es ++ e ∷ []) ≡ first_bad sha256 previous es
  unfolding first_bad last_hash_of
  first_bad-append previous [] e h = h
  first_bad-append previous (x ∷ es) e h = rw (first_bad-append (some x.entry_hash) es e h) refl

  -- The report, without its case on an empty table.
  pub report_on-lem :
      (es : List Entry)
      → report_on sha256 es ≡ record {
        verified = is_none (first_bad sha256 none es);
        first_bad_id = first_bad sha256 none es;
        total_entries = length es;
        last_hash = last_hash_of none es;
      }
  unfolding report_on first_bad last_hash_of
  report_on-lem [] = refl
  report_on-lem (e ∷ es) = elim (Option-cases (first_bad sha256 none (e ∷ es))) [
    | inl good ↦ rw (good, report_on) refl
    | inr (id, bad) ↦ rw (bad, report_on) refl
  ]

module _ (sha256 : Hashed → String) (scrub : Option String → Option String) where
  first_bad-new_entry :
      (id : ℕ) (previous : Option String) (event : Event)
      → first_bad sha256 previous (new_entry sha256 scrub id previous event ∷ []) ≡ none
  unfolding first_bad new_entry compute_entry_hash
  first_bad-new_entry id previous event =
      rw
        (
          same_hash_refl previous,
          str_eq_refl
              (compute_entry_hash sha256 previous (new_entry sha256 scrub id previous event)),
        )
        refl

  log_event-entries :
      (event : Event) (log : Log)
      → (first_bad sha256 none (log_event sha256 scrub event log).entries
          ≡ first_bad sha256 none log.entries)
        × (length (log_event sha256 scrub event log).entries ≡ length log.entries + 1)
  unfolding log_event
  log_event-entries event log =
      let e = new_entry sha256 scrub log.next_id (last_hash_of none log.entries) event in
      (
        first_bad-append sha256 none log.entries e
            (first_bad-new_entry log.next_id (last_hash_of none log.entries) event),
        length-append log.entries (e ∷ []),
      )

  log_all-entries :
      (events : List Event) (log : Log)
      → (first_bad sha256 none (log_all sha256 scrub events log).entries
          ≡ first_bad sha256 none log.entries)
        × (length (log_all sha256 scrub events log).entries ≡ length log.entries + length events)
  unfolding log_all
  log_all-entries [] log = (refl, omega arith)
  log_all-entries (event ∷ events) log =
      let (bad, count) = log_event-entries event log in
      let (bad', count') = log_all-entries events (log_event sha256 scrub event log) in
      (bad' ∙ bad, omega (arith, count, count'))

  -- After any events, the report has the same verdict and the same first bad row as before, and
  -- counts the new rows.
  pub log_all-reported :
      (events : List Event) (log : Log)
      → let before = verify_chain sha256 log in
        let after = verify_chain sha256 (log_all sha256 scrub events log) in
        (after.verified ≡ before.verified)
        × (after.first_bad_id ≡ before.first_bad_id)
        × (after.total_entries ≡ before.total_entries + length events)
  unfolding verify_chain
  log_all-reported events log =
      let (bad, count) = log_all-entries events log in
      rw
        (
          report_on-lem sha256 log.entries,
          report_on-lem sha256 (log_all sha256 scrub events log).entries,
        )
        (ap is_none bad, bad, count)
