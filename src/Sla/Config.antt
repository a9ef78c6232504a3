-- ===== src/Sla/Config.antt =====
-- Reading and publishing SLA policies (app/services/sla/config.py). The rows of `SLAConfigHistoryORM`
-- are a list; a publish also gets the rows that other workers committed between its read and its
-- own commit. SHA-256 over the JSON of a policy is a parameter.
use apex_chainx_backend.Common.{
  ℕ, ◌+◌, String, Bool, true, false, not, ◌&&◌, Option, none, some, List, [], ◌∷◌, ◌++◌, str_eq,
  ◌==◌, ltb, if◌then◌else◌, is_some, any, lookup, insert,
}
use apex_chainx_backend.Sla.{
  value_error, concurrency_error, key_error, Result, ok, err, ◌>>=◌, ◌>>◌, or_raise, SeverityConfig,
  Policies, lower,
}

pub record HistoryRow : Type 0 where
  pub severity : String
  pub policy_version : ℕ
  pub content : SeverityConfig
  pub content_hash : String
  pub publish_token : String
  pub published_at : ℕ
  pub published_by : Option String

-- `SLAPolicyContent`
pub record PolicyContent : Type 0 where
  pub severity : String
  pub policy_version : ℕ
  pub content : SeverityConfig
  pub content_hash : String

-- `SLAConfigHistoryEntry`
pub record HistoryEntry : Type 0 where
  pub policy : PolicyContent
  pub published_at : ℕ
  pub published_by : Option String

-- The row of the two with the greater version.
abbrev later : HistoryRow → Option HistoryRow → Option HistoryRow
later r none = some r
later r (some q) = if ltb r.policy_version q.policy_version then some q else some r

-- `_latest_history_row`: the row of a severity with the greatest version.
unfoldable pub latest_history_row : String → List HistoryRow → Option HistoryRow
latest_history_row severity [] = none
latest_history_row severity (r ∷ rows) =
    let rest = latest_history_row severity rows in
    if str_eq r.severity severity then later r rest else rest

-- `if normalized not in SLA_CONFIG: raise ValueError`
abbrev pub known_severity : Policies → String → Result (Unit {0})
known_severity st normalized =
    if is_some (lookup normalized st.sla_config) then ok tt else err value_error

-- The newest row, where there is a database session.
abbrev pub newest : Option (List HistoryRow) → String → Option HistoryRow
newest none severity = none
newest (some rows) severity = latest_history_row severity rows

abbrev version_of : Policies → String → Option HistoryRow → Result ℕ
version_of st normalized none = or_raise (lookup normalized st.policy_versions) key_error
version_of st normalized (some row) = ok row.policy_version

abbrev token_of : Policies → String → Option HistoryRow → Result String
token_of st normalized none = or_raise (lookup normalized st.publish_tokens) key_error
token_of st normalized (some row) = ok row.publish_token

unfoldable pub get_policy_version : Policies → Option (List HistoryRow) → String → Result ℕ
get_policy_version st db severity = do
  known_severity st (lower severity)
  version_of st (lower severity) (newest db (lower severity))

unfoldable pub get_current_token : Policies → Option (List HistoryRow) → String → Result String
get_current_token st db severity = do
  known_severity st (lower severity)
  token_of st (lower severity) (newest db (lower severity))

unfoldable pub get_config_for_severity : Policies → String → Result SeverityConfig
get_config_for_severity st severity = or_raise (lookup (lower severity) st.sla_config) value_error

-- `expected_token is not None and expected_token != current_token`
abbrev pub is_stale : Option String → String → Bool
is_stale none current = false
is_stale (some expected) current = not (str_eq expected current)

-- The unique index on (severity, policy_version).
abbrev pub violates_index : String → ℕ → List HistoryRow → Bool
violates_index severity version =
    any (λ r. str_eq r.severity severity && r.policy_version == version)

-- What a publish leaves: its outcome, the dictionaries and the rows.
pub record Outcome : Type 0 where
  pub result : Result (PolicyContent × String × HistoryEntry)
  pub policies : Policies
  pub rows : Option (List HistoryRow)

module _ (content_hash : String → SeverityConfig → ℕ → String) where
  -- The commit: `false` if the row breaks the unique index, and is rolled back.
  abbrev pub commit : Option (List HistoryRow) → HistoryRow → Bool × Option (List HistoryRow)
  commit none row = (true, none)
  commit (some rows) row =
      if violates_index row.severity row.policy_version rows
      then (false, some rows)
      else (true, some (row ∷ rows))

  abbrev pub row_of : String → ℕ → SeverityConfig → String → ℕ → Option String → HistoryRow
  row_of severity version payload token now published_by = record {
    severity = severity;
    policy_version = version;
    content = payload;
    content_hash = content_hash severity payload version;
    publish_token = token;
    published_at = now;
    published_by = published_by;
  }

  -- The cache is refreshed once the commit has succeeded.
  abbrev pub refresh : Policies → HistoryRow → Policies
  refresh st row = record {
    policy_versions = insert row.severity row.policy_version st.policy_versions;
    sla_config = insert row.severity row.content st.sla_config;
    publish_tokens = insert row.severity row.publish_token st.publish_tokens;
  }

  abbrev pub published : HistoryRow → PolicyContent × String × HistoryEntry
  published row =
      let policy : PolicyContent = record {
        severity = row.severity;
        policy_version = row.policy_version;
        content = row.content;
        content_hash = row.content_hash;
      } in
      (
        policy,
        row.publish_token,
        record {
          policy = policy;
          published_at = row.published_at;
          published_by = row.published_by;
        },
      )

  -- What `publish_config_for_severity` reads before it writes: the current version, unless an
  -- exception ends the call.
  unfoldable pub check : Policies → Option (List HistoryRow) → String → Option String → Result ℕ
  check st db severity expected_token = do
    known_severity st (lower severity)
    current_version ← version_of st (lower severity) (newest db (lower severity))
    current_token ← token_of st (lower severity) (newest db (lower severity))
    (if is_stale expected_token current_token then err concurrency_error else ok tt)
    ok current_version

  abbrev with_arrived : List HistoryRow → Option (List HistoryRow) → Option (List HistoryRow)
  with_arrived arrived none = none
  with_arrived arrived (some rows) = some (arrived ++ rows)

  -- `new_token` is `_generate_publish_token()`, and `arrived` the rows of other workers.
  unfoldable pub publish_config_for_severity :
      Policies
      → Option (List HistoryRow)
      → String
      → SeverityConfig
      → Option String
      → Option String
      → List HistoryRow
      → String
      → ℕ
      → Outcome
  publish_config_for_severity st db severity payload expected_token published_by arrived new_token
        now =
      elim (check st db severity expected_token) [
        | err e ↦ record { result = err e; policies = st; rows = with_arrived arrived db }
        | ok current_version ↦
            let row =
              row_of (lower severity) (current_version + 1) payload new_token now published_by in
            let (committed, rows) = commit (with_arrived arrived db) row in
            if committed
            then record { result = ok (published row); policies = refresh st row; rows = rows }
            else record { result = err concurrency_error; policies = st; rows = rows }
      ]

  -- `update_config_for_severity`: a publish with no expected token.
  unfoldable pub update_config_for_severity :
      Policies
      → Option (List HistoryRow)
      → String
      → SeverityConfig
      → List HistoryRow
      → String
      → ℕ
      → Outcome
  update_config_for_severity st db severity payload arrived new_token now =
      publish_config_for_severity st db severity payload none none arrived new_token now
