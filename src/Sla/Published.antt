-- ===== src/Sla/Published.antt =====
-- What a publish of an SLA policy guarantees (app/services/sla/config.py): optimistic concurrency by
-- tokens, versions that only grow, and the unique index as the backstop of a race.
use apex_chainx_backend.Common.{
  ℕ, ◌+◌, ◌<◌, ◌≡◌, ◌≢◌, ◌⊎◌, refl, inl, inr, String, true, false, Option, none, some, List, [],
  ◌∷◌, arith, str_eq_refl, eq_iff, is_some, lookup, insert, lookup-insert, Option-cases,
}
use apex_chainx_backend.Sla.{
  Error, concurrency_error, Result, ok, err, SeverityConfig, Policies, lower,
}
use apex_chainx_backend.Sla.Config.{
  HistoryRow, latest_history_row, get_policy_version, get_current_token, get_config_for_severity,
  violates_index, row_of, published, refresh, check, publish_config_for_severity,
}

-- The newest row of a severity is of that severity.
latest-severity :
    (s : String) (rows : List HistoryRow) (r : HistoryRow)
    → latest_history_row s rows ≡ some r
    → r.severity ≡ s
unfolding latest_history_row
latest-severity s [] r h = cc
latest-severity s (q ∷ rows) r h = elim (Option-cases (latest_history_row s rows)) [
  | inl nothing ↦ ground (arith, eq_iff q.severity s)
  | inr (p, found) ↦ ground (arith, eq_iff q.severity s, latest-severity s rows p found)
]

-- A version above the newest one is above every version of the severity.
abbrev pub Above : String → ℕ → Option HistoryRow → Type 0
Above s v none = Unit
Above s v (some r) = r.policy_version < v

-- A new row whose version is above is the newest.
pub latest-cons :
    (row : HistoryRow) (rows : List HistoryRow)
    → Above row.severity row.policy_version (latest_history_row row.severity rows)
    → latest_history_row row.severity (row ∷ rows) ≡ some row
unfolding latest_history_row
latest-cons row rows h = elim (Option-cases (latest_history_row row.severity rows)) [
  | inl nothing ↦ ground (arith, str_eq_refl row.severity)
  | inr (p, found) ↦ ground (arith, str_eq_refl row.severity)
]

pub Above-free :
    (s : String) (v : ℕ) (rows : List HistoryRow)
    → Above s v (latest_history_row s rows)
    → violates_index s v rows ≡ false
unfolding latest_history_row
Above-free s v [] h = refl
Above-free s v (q ∷ rows) h = elim (Option-cases (latest_history_row s rows)) [
  | inl nothing ↦ ground (arith, Above-free s v rows (rw nothing tt))
  | inr (p, found) ↦ ground (arith, Above-free s v rows)
]

pub Result-cases :
    {A : Type 0} (r : Result A) → ((e : Error) × (r ≡ err e)) ⊎ ((a : A) × (r ≡ ok a))
Result-cases (ok a) = inr (a, refl)
Result-cases (err e) = inl (e, refl)

module _ (content_hash : String → SeverityConfig → ℕ → String) (st : Policies) where
  -- Which token a publisher gave does not change the version that it reads.
  check_same :
      (rows : List HistoryRow) (severity : String) (expected expected' : Option String) (v v' : ℕ)
      → check content_hash st (some rows) severity expected ≡ ok v
      → check content_hash st (some rows) severity expected' ≡ ok v'
      → v ≡ v'
  unfolding check
  check_same rows severity expected expected' v v' h h' =
      elim (Option-cases (latest_history_row (lower severity) rows)) [
        | inl nothing ↦ ground arith
        | inr (p, found) ↦ ground arith
      ]

  -- The version that `check` returns is that of the newest row, if there is one.
  pub check_version :
      (rows : List HistoryRow) (severity : String) (expected : Option String) (v : ℕ)
      → check content_hash st (some rows) severity expected ≡ ok v
      → Above (lower severity) (v + 1) (latest_history_row (lower severity) rows)
  unfolding check
  check_version rows severity expected v h =
      elim (Option-cases (latest_history_row (lower severity) rows)) [
        | inl nothing ↦ ground arith
        | inr (p, found) ↦ ground arith
      ]

  module _ (severity : String) (payload : SeverityConfig) (published_by : Option String) where
    -- For a known severity that has a version and a token, a publish with a token that is not the
    -- current one raises ConcurrencyError and changes neither the dictionaries nor the history.
    pub publish_stale :
        (rows : List HistoryRow) (expected current new_token : String) (now : ℕ)
        → is_some (lookup (lower severity) st.sla_config) ≡ true
        → (v : ℕ) → get_policy_version st (some rows) severity ≡ ok v
        → get_current_token st (some rows) severity ≡ ok current
        → expected ≢ current
        → publish_config_for_severity content_hash st
            (some rows)
            severity
            payload
            (some expected)
            published_by
            []
            new_token
            now
          ≡ record { result = err concurrency_error; policies = st; rows = some rows }
    unfolding publish_config_for_severity check get_current_token get_policy_version
    publish_stale rows expected current new_token now known v hv ht ne =
        ground (arith, eq_iff expected current)

    pub publish_ok :
        (rows : List HistoryRow) (expected : Option String) (new_token : String) (now : ℕ) (v : ℕ)
        → check content_hash st (some rows) severity expected ≡ ok v
        → let row =
            row_of content_hash (lower severity) (v + 1) payload new_token now published_by in
          publish_config_for_severity content_hash st
            (some rows)
            severity
            payload
            expected
            published_by
            []
            new_token
            now
          ≡ record {
            result = ok (published content_hash row);
            policies = refresh content_hash st row;
            rows = some (row ∷ rows);
          }
    unfolding publish_config_for_severity
    publish_ok rows expected new_token now v h =
        ground (
          arith,
          Above-free (lower severity) (v + 1) rows (check_version rows severity expected v h),
        )

    -- A publish that passes the checks, with no other worker's row in between, is what the next
    -- reader sees: its version, which is one more than before, its token and its content.
    pub publish_installs :
        (rows : List HistoryRow) (expected : Option String) (new_token : String) (now : ℕ) (v : ℕ)
        → check content_hash st (some rows) severity expected ≡ ok v
        → let out =
            publish_config_for_severity content_hash st
              (some rows)
              severity
              payload
              expected
              published_by
              []
              new_token
              now in
          (get_policy_version out.policies out.rows severity ≡ ok (v + 1))
          × (get_current_token out.policies out.rows severity ≡ ok new_token)
          × (get_config_for_severity out.policies severity ≡ ok payload)
    unfolding get_policy_version get_current_token get_config_for_severity
    publish_installs rows expected new_token now v h =
        let row = row_of content_hash (lower severity) (v + 1) payload new_token now published_by in
        let found : lookup (lower severity) (insert (lower severity) payload st.sla_config)
            ≡ some payload =
          rw (lookup-insert, str_eq_refl (lower severity)) in
        let newest = latest-cons row rows (check_version rows severity expected v h) in
        (
          rw (publish_ok rows expected new_token now v h, found, newest),
          rw (publish_ok rows expected new_token now v h, found, newest),
          rw (publish_ok rows expected new_token now v h, found),
        )

    -- After a publish that passes the checks, with no other worker's row in between, another
    -- worker whose dictionary still has the policy from before answers with the new version and
    -- the new token, and with the content from before.
    pub publish_unseen :
        (rows : List HistoryRow) (expected : Option String) (new_token : String) (now : ℕ) (v : ℕ)
        → (other : Policies) (before : SeverityConfig)
        → check content_hash st (some rows) severity expected ≡ ok v
        → lookup (lower severity) other.sla_config ≡ some before
        → let out =
            publish_config_for_severity content_hash st
              (some rows)
              severity
              payload
              expected
              published_by
              []
              new_token
              now in
          (get_policy_version other out.rows severity ≡ ok (v + 1))
          × (get_current_token other out.rows severity ≡ ok new_token)
          × (get_config_for_severity other severity ≡ ok before)
    unfolding get_policy_version get_current_token get_config_for_severity
    publish_unseen rows expected new_token now v other before h held =
        let row = row_of content_hash (lower severity) (v + 1) payload new_token now published_by in
        let newest = latest-cons row rows (check_version rows severity expected v h) in
        (
          rw (publish_ok rows expected new_token now v h, held, newest),
          rw (publish_ok rows expected new_token now v h, held, newest),
          rw held,
        )

    -- Two workers read the same history, and both pass the checks. Once a row of the severity with
    -- the next version is committed, the other's publish raises ConcurrencyError, leaves its
    -- dictionaries alone and adds no row, also if it gave no token.
    pub publish_race :
        (rows : List HistoryRow) (expected expected' : Option String) (row : HistoryRow)
        → (token' : String) (now' : ℕ) (v v' : ℕ)
        → check content_hash st (some rows) severity expected ≡ ok v
        → check content_hash st (some rows) severity expected' ≡ ok v'
        → row.severity ≡ lower severity
        → row.policy_version ≡ v + 1
        → publish_config_for_severity content_hash st
            (some rows)
            severity
            payload
            expected'
            published_by
            (row ∷ [])
            token'
            now'
          ≡ record { result = err concurrency_error; policies = st; rows = some (row ∷ rows) }
    unfolding publish_config_for_severity
    publish_race rows expected expected' row token' now' v v' h h' es ev = ground (
      arith,
      str_eq_refl (lower severity),
      check_same rows severity expected expected' v v' h h',
      eq_iff row.severity (lower severity),
    )
