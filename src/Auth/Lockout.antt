-- ===== src/Auth/Lockout.antt =====
-- The lockout of `AuthStore` (app/services/auth_store.py).
use apex_chainx_backend.Common.{
  ℕ, ◌+◌, ◌*◌, ◌≡◌, refl, String, Bool, true, false, some, List, [], ◌∷◌, arith, str_eq, leb,
  if◌then◌else◌, get_or, first, update_where, Bool-cases, inl, inr,
}
use apex_chainx_backend.Auth.{
  User, Db, attribute_error, account_locked, err, get_by_email, is_locked,
  increment_failed_attempts, lock_account,
}
use apex_chainx_backend.Auth.Store.{Fresh, Settings, reject_login, login}

pub first-update_where :
    {A : Type 0} (test : A → Bool) (f : A → A) (xs : List A) (x : A)
    → ((y : A) → test (f y) ≡ test y)
    → first test xs ≡ some x
    → first test (update_where test f xs) ≡ some (f x)
first-update_where test f [] x same h = ground arith
first-update_where test f (y ∷ ys) x same h = elim (Bool-cases (test y)) [
  | inl hit ↦ ground (arith, same y)
  | inr miss ↦ ground (arith, same y, first-update_where test f ys x same (ground arith))
]

abbrev pub counted : User → User
counted u = record u { failed_login_attempts = some (get_or u.failed_login_attempts 0 + 1) }

abbrev pub locked : ℕ → User → User
locked until u = record u { locked_until = some until }

module _ (hash_token : String → String) (settings : Settings)
    (verify : String → String → Bool) where
  -- A locked account is refused whatever the password, and nothing but the audit log changes.
  pub login_locked :
      (email password : String) (now : ℕ) (fresh : Fresh) (db : Db) (u : User)
      → get_by_email email db ≡ some u
      → is_locked now u ≡ true
      → let (answer, db') = login hash_token settings verify email password now fresh db in
        (answer ≡ err account_locked)
        × (db'.users ≡ db.users)
        × (db'.sessions ≡ db.sessions)
        × (db'.families ≡ db.families)
  unfolding login
  login_locked email password now fresh db u known held =
      (ground arith, ground arith, ground arith, ground arith)

  reject_known :
      (email : String) (now : ℕ) (db : Db) (u : User)
      → get_by_email email db ≡ some u
      → let (answer, db') = reject_login hash_token settings (some u) email now db in
        let spent = leb settings.max_failed_attempts (get_or u.failed_login_attempts 0 + 1) in
        let until = now + 60 * settings.lockout_duration_minutes in
        (answer ≡ err attribute_error)
        × (get_by_email email db' ≡ some (if spent then locked until (counted u) else counted u))
  unfolding reject_login increment_failed_attempts lock_account
  reject_known email now db u known =
      let test : User → Bool = λ x. str_eq x.email email in
      let until = now + 60 * settings.lockout_duration_minutes in
      let first_count = first-update_where test counted db.users u (λ y. refl) known in
      let then_locked =
        first-update_where test (locked until) (update_where test counted db.users) (counted u)
          (λ y. refl) first_count in
      elim (Bool-cases (leb settings.max_failed_attempts (get_or u.failed_login_attempts 0 + 1))) [
        | inl spent ↦ (ground (arith, first_count), ground (arith, first_count, then_locked))
        | inr left ↦ (ground (arith, first_count), ground (arith, first_count))
      ]

  -- A wrong password for an account that is not locked ends in an AttributeError. The attempt is
  -- counted, and the account is locked for the configured time if the count has reached the limit.
  pub login_wrong :
      (email password : String) (now : ℕ) (fresh : Fresh) (db : Db) (u : User)
      → get_by_email email db ≡ some u
      → is_locked now u ≡ false
      → verify password u.hashed_password ≡ false
      → let (answer, db') = login hash_token settings verify email password now fresh db in
        let spent = leb settings.max_failed_attempts (get_or u.failed_login_attempts 0 + 1) in
        let until = now + 60 * settings.lockout_duration_minutes in
        (answer ≡ err attribute_error)
        × (get_by_email email db' ≡ some (if spent then locked until (counted u) else counted u))
  unfolding login
  login_wrong email password now fresh db u known unlocked wrong =
      let same : login hash_token settings verify email password now fresh db
          ≡ reject_login hash_token settings (some u) email now db =
        ground arith in
      rw same (reject_known email now db u known)
