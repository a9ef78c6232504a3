-- ===== src/Auth.antt =====
-- Accounts, sessions and token families: the tables, the repositories over them, and the errors of
-- `AuthStore` (app/repositories/session_repository.py, token_family_repository.py,
-- user_repository.py; app/models/orm). A table is a list of rows; an object that a query returns is
-- read again through the table, since the session of SQLAlchemy keeps one object for each row.
pub mod Store
pub mod Families
pub mod Rotation
pub mod Kept
pub mod Reach
pub mod Lockout
pub mod Login
pub mod Refresh
mod Tests
use apex_chainx_backend.Common.{
  ℕ, ◌+◌, String, Bool, true, false, not, ◌&&◌, ◌||◌, Option, none, some, List, [], ◌∷◌, ◌++◌,
  str_eq, ltb, if◌then◌else◌, get_or, is_some, length, filter, any, first, update_where,
}

pub record User : Type 0 where
  pub id : String
  pub email : String
  pub hashed_password : String
  pub role : String
  pub failed_login_attempts : Option ℕ
  pub locked_until : Option ℕ

pub record Session : Type 0 where
  pub access_token : String
  pub refresh_token : String
  pub email : String
  pub family_id : Option String
  pub sequence : ℕ
  pub expires_at : ℕ

pub record Family : Type 0 where
  pub family_id : String
  pub email : String
  pub current_sequence : ℕ
  pub compromised : Bool

-- The event and the account of one `audit_log.log_event`.
pub record AuditEvent : Type 0 where
  pub event_type : String
  pub email : String

pub record Db : Type 0 where
  pub users : List User
  pub sessions : List Session
  pub families : List Family
  pub audit : List AuditEvent

-- The reasons of the `ValueError`s, and the exceptions that are not meant.
pub data Error : Type 0 where
  invalid_refresh_token account_locked invalid_family family_compromised : Error
  token_reuse user_not_found invalid_credentials account_now_locked : Error
  unknown_role integrity_error attribute_error : Error

pub data Result (A : Type 0) : Type 0 where
  err : Error → Result A
  ok : A → Result A

-- A method call. Every repository method commits, so what it wrote stays after a raise.
abbrev pub Action : Type 0 → Type 0
Action A = Db → Result A × Db

module _ {A : Type 0} where
  -- A read of the tables.
  abbrev pub gets : (Db → A) → Action A
  gets read db = (ok (read db), db)

  abbrev pub raise : Error → Action A
  raise e db = (err e, db)

  abbrev pub pure : A → Action A
  pure value db = (ok value, db)

  -- `if x is None: raise e`
  abbrev pub or_raise : Option A → Error → Action A
  or_raise (some value) e = pure value
  or_raise none e = raise e

-- A write to the tables.
abbrev pub modify : (Db → Db) → Action (Unit {0})
modify write db = (ok tt, write db)

abbrev pub raise_if : Bool → Error → Action (Unit {0})
raise_if test e db = (if test then err e else ok tt, db)

infixl 5 ◌>>=◌ ◌>>◌
abbrev pub ◌>>=◌ : {A B : Type 0} → Action A → (A → Action B) → Action B
◌>>=◌ first_part rest db =
    let (answer, written) = first_part db in
    elim answer [ ok value ↦ rest value written | err e ↦ raise e written ]

abbrev pub ◌>>◌ : {A B : Type 0} → Action A → Action B → Action B
first_part >> rest = first_part >>= λ _. rest

abbrev pub log_event : String → String → Action (Unit {0})
log_event event_type email =
    modify (λ db. record db {
      audit = db.audit ++ record { event_type = event_type; email = email } ∷ [];
    })

-- `stored_user.user_id`: the class `UserORM` has no attribute of this name, its key is `id`.
abbrev pub user_id : User → Action String
user_id user = raise attribute_error

-- `UserRepository`
abbrev pub get_by_email : String → Db → Option User
get_by_email email db = first (λ u. str_eq u.email email) db.users

abbrev pub update_user : String → (User → User) → Action (Unit {0})
update_user email f =
    modify (λ db. record db { users = update_where (λ u. str_eq u.email email) f db.users })

pub increment_failed_attempts : String → Action (Unit {0})
increment_failed_attempts email =
    update_user email
      (λ u. record u { failed_login_attempts = some (get_or u.failed_login_attempts 0 + 1) })

pub reset_failed_attempts : String → Action (Unit {0})
reset_failed_attempts email =
    update_user email (λ u. record u { failed_login_attempts = some 0; locked_until = none })

pub lock_account : String → ℕ → Action (Unit {0})
lock_account email until = update_user email (λ u. record u { locked_until = some until })

-- `AuthStore._is_locked` and the test of `UserRepository.is_account_locked`.
abbrev pub is_locked : ℕ → User → Bool
is_locked now u = elim u.locked_until [ none ↦ false | some until ↦ ltb now until ]

pub is_account_locked : String → ℕ → Db → Bool
is_account_locked email now db = elim (get_by_email email db) [
  | none ↦ false
  | some u ↦ is_locked now u
]

-- `SessionRepository`
abbrev pub get_session : String → Db → Option Session
get_session access db = first (λ s. str_eq s.access_token access) db.sessions

abbrev pub get_session_by_refresh_token : String → Db → Option Session
get_session_by_refresh_token refresh db = first (λ s. str_eq s.refresh_token refresh) db.sessions

-- The access token is the primary key, and the refresh token is unique.
pub create_session : Session → Action (Unit {0})
create_session s = do
  taken ← gets (λ db.
      any (λ t. str_eq t.access_token s.access_token || str_eq t.refresh_token s.refresh_token)
        db.sessions)
  raise_if taken integrity_error
  modify (λ db. record db { sessions = db.sessions ++ s ∷ [] })

abbrev pub drop_sessions : (Session → Bool) → Action (Unit {0})
drop_sessions test = modify (λ db. record db { sessions = filter (λ s. not (test s)) db.sessions })

pub delete_session : String → Action (Unit {0})
delete_session access = drop_sessions (λ s. str_eq s.access_token access)

-- `s.family_id == family_id`
abbrev pub of_family : String → Session → Bool
of_family family_id s = elim s.family_id [ none ↦ false | some f ↦ str_eq f family_id ]

pub delete_sessions_by_family : String → Action (Unit {0})
delete_sessions_by_family family_id = drop_sessions (of_family family_id)

pub delete_sessions_by_email : String → Action ℕ
delete_sessions_by_email email = do
  count ← gets (λ db. length (filter (λ s. str_eq s.email email) db.sessions))
  drop_sessions (λ s. str_eq s.email email)
  pure count

-- `TokenFamilyRepository`
abbrev pub get_family : String → Db → Option Family
get_family family_id db = first (λ f. str_eq f.family_id family_id) db.families

pub create_family : String → String → Action (Unit {0})
create_family family_id email = do
  taken ← gets (λ db. is_some (get_family family_id db))
  raise_if taken integrity_error
  modify (λ db. record db {
    families =
        db.families
        ++ record {
          family_id = family_id;
          email = email;
          current_sequence = 0;
          compromised = false;
        }
          ∷ [];
  })

-- A missing family counts as revoked.
pub is_revoked : String → Db → Bool
is_revoked family_id db = elim (get_family family_id db) [ none ↦ true | some f ↦ f.compromised ]

abbrev pub update_family : String → (Family → Family) → Action (Unit {0})
update_family family_id f =
    modify (λ db. record db {
      families = update_where (λ x. str_eq x.family_id family_id) f db.families;
    })

pub increment_sequence : String → Action (Unit {0})
increment_sequence family_id =
    update_family family_id (λ f. record f { current_sequence = f.current_sequence + 1 })

pub compromise_family : String → Action (Unit {0})
compromise_family family_id = update_family family_id (λ f. record f { compromised = true })

pub delete_families_by_email : String → Action (Unit {0})
delete_families_by_email email =
    modify (λ db. record db { families = filter (λ f. not (str_eq f.email email)) db.families })
