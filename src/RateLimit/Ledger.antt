-- ===== src/RateLimit/Ledger.antt =====
-- The persistent attempt ledger (app/services/auth_attempt_ledger.py, app/models/auth_attempt.py).
-- SHA-256, uuid4 and the slice of a password are parameters. Times are in milliseconds; `t < cutoff`
-- is written `t + window < now`.
use Prim.Native.String.{◌++◌ as append}
use apex_chainx_backend.Common.{
  ℕ, ◌+◌, ◌*◌, max, String, Bool, true, false, not, ◌&&◌, List, [], ◌∷◌, ◌++◌, str_eq, leb,
  if◌then◌else◌, is_some, length, filter, first, update_first,
}

pub record AuthAttempt : Type 0 where
  pub scope_hash : String
  pub attempt_hash : String
  pub occurred_at : ℕ

abbrev pub Rows : Type 0
Rows = List AuthAttempt

-- `AUTH_RATE_LIMIT_WINDOW_SECONDS`, `AUTH_CREDENTIAL_STUFFING_WINDOW_MINUTES`, and the functions of
-- other packages.
pub record LedgerEnv : Type 0 where
  pub window_seconds : ℕ
  pub stuffing_minutes : ℕ
  pub sha256 : String → String
  pub prefix : String → String

-- `occurred_at >= now - window`
abbrev pub recent : ℕ → ℕ → AuthAttempt → Bool
recent window now row = leb now (row.occurred_at + window)

abbrev pub in_scope : String → AuthAttempt → Bool
in_scope scope_hash row = str_eq row.scope_hash scope_hash

unfoldable pub prune_scope : String → ℕ → ℕ → Rows → Rows
prune_scope scope_hash window now rows =
    filter (λ row. not (in_scope scope_hash row && not (recent window now row))) rows

module _ (env : LedgerEnv) where
  unfoldable pub prune_expired : ℕ → Rows → Rows
  prune_expired now rows =
      filter (recent (max (env.window_seconds * 1000) (env.stuffing_minutes * 60 * 1000)) now) rows

  -- The number of recent rows of a scope.
  count_recent : String → ℕ → ℕ → Rows → ℕ
  count_recent scope_hash window now rows =
      length (filter (λ row. in_scope scope_hash row && recent window now row) rows)

  -- `fresh` is the hash of the new row.
  unfoldable pub record_rate_limit_attempt : String → String → ℕ → ℕ → ℕ → Rows → Rows × Bool
  unfolding count_recent
  record_rate_limit_attempt fresh key max_attempts window_seconds now rows =
      let scope_hash = env.sha256 (append "rate:" key) in
      let window = window_seconds * 1000 in
      let kept = prune_scope scope_hash window now (prune_expired now rows) in
      let row : AuthAttempt = record {
        scope_hash = scope_hash;
        attempt_hash = fresh;
        occurred_at = now;
      } in
      if leb max_attempts (count_recent scope_hash window now kept)
      then (kept, false)
      else (kept ++ row ∷ [], true)

  unfoldable pub record_credential_prefix : String → String → ℕ → ℕ → Rows → Rows
  unfolding count_recent
  record_credential_prefix ip password max_prefixes now rows =
      let scope_hash = env.sha256 (append "stuffing:" ip) in
      let prefix_hash = env.sha256 (env.prefix password) in
      let window = env.stuffing_minutes * 60 * 1000 in
      let kept = prune_scope scope_hash window now (prune_expired now rows) in
      let matches : AuthAttempt → Bool =
        λ row. in_scope scope_hash row && str_eq row.attempt_hash prefix_hash in
      let touched = update_first matches (λ row. record row { occurred_at = now }) kept in
      let row : AuthAttempt = record {
        scope_hash = scope_hash;
        attempt_hash = prefix_hash;
        occurred_at = now;
      } in
      if is_some (first matches kept)
      then touched
      else if leb max_prefixes (count_recent scope_hash window now kept)
      then kept
      else kept ++ row ∷ []

  unfoldable pub get_credential_prefix_count : String → ℕ → ℕ → Rows → Rows × ℕ
  unfolding count_recent
  get_credential_prefix_count ip window_seconds now rows =
      let scope_hash = env.sha256 (append "stuffing:" ip) in
      let window = window_seconds * 1000 in
      let kept = prune_scope scope_hash window now (prune_expired now rows) in
      (kept, count_recent scope_hash window now kept)
