-- ===== src/Auth/Store.antt =====
-- `AuthStore` (app/services/auth_store.py): login, token checks, refresh with rotation, logout.
-- A call reads the clock once; the tokens of `uuid4` are arguments. `hash_token` is SHA-256 and
-- `verify_password` is bcrypt: both are parameters. Retries of transient database errors and the
-- columns `created_at` and `updated_at` are left out.
use apex_chainx_backend.Common.{
  ℕ, ◌+◌, ◌*◌, String, Bool, false, not, ◌&&◌, Option, none, some, str_eq, ltb, leb, if◌then◌else◌,
  get_or, update_where,
}
use apex_chainx_backend.Auth.{
  User, Session, Db, invalid_refresh_token, account_locked, invalid_family, family_compromised,
  token_reuse, user_not_found, invalid_credentials, account_now_locked, unknown_role, Action, pure,
  raise, gets, or_raise, ◌>>=◌, ◌>>◌, modify, log_event, user_id, get_by_email,
  increment_failed_attempts, reset_failed_attempts, lock_account, is_locked, is_account_locked,
  get_session, get_session_by_refresh_token, create_session, delete_session,
  delete_sessions_by_family, delete_sessions_by_email, get_family, create_family, is_revoked,
  increment_sequence, compromise_family, delete_families_by_email,
}

abbrev pub token_ttl_seconds : ℕ
token_ttl_seconds = 3600

pub data Role : Type 0 where
  admin engineer : Role

pub record AuthUser : Type 0 where
  pub id : String
  pub email : String
  pub role : Role

-- The texts that `uuid4` gives one call.
pub record Fresh : Type 0 where
  pub access : String
  pub refresh : String
  pub family : String

-- `AuthSessionResponse`
pub record Response : Type 0 where
  pub access_token : String
  pub refresh_token : String
  pub expires_in : ℕ
  pub user : AuthUser

-- `Role(orm.role)`
abbrev pub role_of : String → Option Role
role_of s =
    if str_eq s "admin" then some admin else if str_eq s "engineer" then some engineer else none

abbrev pub user_orm_to_pydantic : User → Action AuthUser
user_orm_to_pydantic u = do
  role ← or_raise (role_of u.role) unknown_role
  pure (record { id = u.id; email = u.email; role = role })

-- The account of an audit event, `stored_user.user_id if stored_user else None`.
abbrev pub actor_id : Option User → Action (Option String)
actor_id none = pure none
actor_id (some u) = do actor ← user_id u; pure (some actor)

-- `AUTH_MAX_FAILED_ATTEMPTS` and `AUTH_LOCKOUT_DURATION_MINUTES`.
pub record Settings : Type 0 where
  pub max_failed_attempts : ℕ
  pub lockout_duration_minutes : ℕ

module _ (hash_token : String → String) where
  -- The tail of `_login_with_db`, once the password is right.
  unfoldable pub open_session : User → String → ℕ → Fresh → Action Response
  unfolding reset_failed_attempts create_family create_session
  open_session u email now fresh = do
    reset_failed_attempts email
    create_family fresh.family email
    create_session (record {
      access_token = hash_token fresh.access;
      refresh_token = hash_token fresh.refresh;
      email = email;
      family_id = some fresh.family;
      sequence = 0;
      expires_at = now + token_ttl_seconds;
    })
    log_event "login_success" email
    user ← user_orm_to_pydantic u
    pure (record {
      access_token = fresh.access;
      refresh_token = fresh.refresh;
      expires_in = token_ttl_seconds;
      user = user;
    })

  -- The branch of `_login_with_db` for wrong credentials. The count is read after its increment.
  unfoldable pub reject_login : Settings → Option User → String → ℕ → Action Response
  unfolding increment_failed_attempts lock_account
  reject_login settings stored email now = do
    increment_failed_attempts email
    counted ← gets (get_by_email email)
    elim counted [
      | none ↦ do actor_id stored; log_event "login_failed" email; raise invalid_credentials
      | some u ↦
          if leb settings.max_failed_attempts (get_or u.failed_login_attempts 0)
          then (do
            lock_account email (now + 60 * settings.lockout_duration_minutes)
            user_id u
            log_event "account_locked" email
            raise account_now_locked)
          else (do actor_id (some u); log_event "login_failed" email; raise invalid_credentials)
    ]

  unfoldable pub login :
      Settings → (String → String → Bool) → String → String → ℕ → Fresh → Action Response
  unfolding open_session reject_login
  login settings verify_password email password now fresh = do
    stored ← gets (get_by_email email)
    elim stored [
      | none ↦ reject_login settings none email now
      | some u ↦
          if is_locked now u
          then (do log_event "login_failed_locked" email; raise account_locked)
          else if verify_password password u.hashed_password
          then open_session u email now fresh
          else reject_login settings (some u) email now
    ]

  -- `session.family_id and token_family_repo.is_revoked(session.family_id)`
  abbrev pub gate : Option String → Db → Bool
  unfolding is_revoked
  gate none db = false
  gate (some f) db = not (str_eq f "") && is_revoked f db

  -- The account of a session: from the cache, if that holds it, else from the table.
  unfoldable pub account_of : Session → Option AuthUser → Action (Option AuthUser)
  account_of s (some user) = pure (some user)
  account_of s none = do
    stored ← gets (get_by_email s.email)
    elim stored [ none ↦ pure none | some u ↦ do user ← user_orm_to_pydantic u; pure (some user) ]

  -- The gate on the token family, and the account.
  unfoldable pub gated_user : String → Session → Option AuthUser → Action (Option AuthUser)
  unfolding delete_session account_of
  gated_user token s cached = do
    revoked ← gets (gate s.family_id)
    (if revoked
        then (do
          delete_session (hash_token token)
          log_event "access_token_rejected" s.email
          pure none)
        else account_of s cached)

  -- `cached` is what the cache, if there is one, holds for the account.
  unfoldable pub get_user_for_token : String → ℕ → Option AuthUser → Action (Option AuthUser)
  unfolding delete_session gated_user
  get_user_for_token token now cached = do
    found ← gets (get_session (hash_token token))
    elim found [
      | none ↦ pure none
      | some s ↦
          if ltb s.expires_at now
          then (do delete_session (hash_token token); pure none)
          else gated_user token s cached
    ]

  -- A session from before the families gets one.
  unfoldable pub migrate : Session → String → Action String
  unfolding create_family
  migrate s fresh_family = elim s.family_id [
    | some f ↦ pure f
    | none ↦ do
      create_family fresh_family s.email
      modify (λ db. record db {
        sessions =
            update_where (λ t. str_eq t.access_token s.access_token)
              (λ t. record t { family_id = some fresh_family; sequence = 0 }) db.sessions;
      })
      pure fresh_family
  ]

  -- The rotation. The sequence of the family is read again after its increment.
  unfoldable pub rotate : Session → String → Option User → ℕ → Fresh → Action Response
  unfolding increment_sequence delete_session create_session
  rotate old family_id stored now fresh = do
    increment_sequence family_id
    delete_session old.access_token
    u ← or_raise stored user_not_found
    family ← gets (get_family family_id)
    f ← or_raise family invalid_family
    create_session (record {
      access_token = hash_token fresh.access;
      refresh_token = hash_token fresh.refresh;
      email = old.email;
      family_id = some family_id;
      sequence = f.current_sequence + 1;
      expires_at = now + token_ttl_seconds;
    })
    user_id u
    log_event "refresh" old.email
    user ← user_orm_to_pydantic u
    pure (record {
      access_token = fresh.access;
      refresh_token = fresh.refresh;
      expires_in = token_ttl_seconds;
      user = user;
    })

  -- The checks of the family, and the rotation. `sequence` is that of the presented token.
  unfoldable pub refresh_in_family : Session → ℕ → String → ℕ → Fresh → Action Response
  unfolding compromise_family delete_sessions_by_family rotate
  refresh_in_family old sequence family_id now fresh = do
    family ← gets (get_family family_id)
    f ← or_raise family invalid_family
    stored ← gets (get_by_email old.email)
    (if f.compromised
        then (do
          actor_id stored
          log_event "refresh_failed_compromised" old.email
          raise family_compromised)
        else if ltb sequence f.current_sequence
        then (do
          compromise_family family_id
          delete_sessions_by_family family_id
          actor_id stored
          log_event "refresh_token_reuse" old.email
          raise token_reuse)
        else rotate old family_id stored now fresh)

  -- The sequence of the presented session: 0 once it has been migrated.
  abbrev pub sequence_of : Session → ℕ
  sequence_of s = elim s.family_id [ none ↦ 0 | some _ ↦ s.sequence ]

  unfoldable pub refresh : String → ℕ → Fresh → Action Response
  unfolding is_account_locked migrate refresh_in_family
  refresh token now fresh = do
    found ← gets (get_session_by_refresh_token (hash_token token))
    old ← or_raise found invalid_refresh_token
    locked ← gets (is_account_locked old.email now)
    (if locked then (do log_event "refresh_failed_locked" old.email; raise account_locked) else (do
      family_id ← migrate old fresh.family
      refresh_in_family old (sequence_of old) family_id now fresh))

  unfoldable pub logout : String → Action (Unit {0})
  unfolding delete_session
  logout token = do
    found ← gets (get_session (hash_token token))
    elim found [
      | none ↦ pure tt
      | some s ↦ do delete_session (hash_token token); log_event "logout" s.email
    ]

unfoldable pub logout_all_sessions : String → Action ℕ
unfolding delete_sessions_by_email delete_families_by_email
logout_all_sessions email = do
  count ← delete_sessions_by_email email
  delete_families_by_email email
  log_event "logout_all_sessions" email
  pure count
