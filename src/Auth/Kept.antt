-- ===== src/Auth/Kept.antt =====
-- Logins, token checks and logouts of `AuthStore` (app/services/auth_store.py), as far as they change the
-- tables of families and sessions.
use apex_chainx_backend.Common.{
  ℕ, ◌+◌, ◌≡◌, refl, String, Bool, true, false, not, Option, none, some, [], ◌∷◌, ◌++◌, arith,
  str_eq, str_eq_refl, if◌then◌else◌, is_some, filter, ◌⊎◌, Bool-cases, Option-cases, inl, inr,
  filter-append, filter-first-none,
}
use apex_chainx_backend.Auth.{
  User, Session, Family, Db, get_family, get_by_email, is_locked, create_family, create_session,
  delete_session, reset_failed_attempts, increment_failed_attempts, lock_account,
  delete_sessions_by_email, delete_families_by_email,
}
use apex_chainx_backend.Auth.Families.{
  members, in_step, IsInStep, drop-IsInStep, drop_sessions-IsInStep, add_session-IsInStep,
  add_family-IsInStep,
}
use apex_chainx_backend.Auth.Rotation.{IsRotated, is_taken}
use apex_chainx_backend.Auth.Store.{
  Fresh, Settings, AuthUser, token_ttl_seconds, open_session, reject_login, login, account_of,
  gated_user, get_user_for_token, logout, logout_all_sessions,
}

abbrev opened_session : (String → String) → String → ℕ → Fresh → Session
opened_session hash_token email now fresh = record {
  access_token = hash_token fresh.access;
  refresh_token = hash_token fresh.refresh;
  email = email;
  family_id = some fresh.family;
  sequence = 0;
  expires_at = now + token_ttl_seconds;
}

abbrev opened_family : String → String → Family
opened_family family_id email = record {
  family_id = family_id;
  email = email;
  current_sequence = 0;
  compromised = false;
}

module _ (hash_token : String → String) where
  open_session-tables :
      (u : User) (email : String) (now : ℕ) (fresh : Fresh) (db : Db)
      → get_family fresh.family db ≡ none
      → let s = opened_session hash_token email now fresh in
        let after = (open_session hash_token u email now fresh db).1 in
        (after.families ≡ db.families ++ opened_family fresh.family email ∷ [])
        × (after.sessions ≡ (if is_taken s db.sessions then db.sessions else db.sessions ++ s ∷ []))
  unfolding open_session create_family create_session reset_failed_attempts
  open_session-tables u email now fresh db unknown =
      elim (Bool-cases (is_taken (opened_session hash_token email now fresh) db.sessions)) [
        | inl taken ↦ (ground arith, ground arith)
        | inr free ↦ (ground arith, ground arith)
      ]

  open_session-taken :
      (u : User) (email : String) (now : ℕ) (fresh : Fresh) (db : Db)
      → is_some (get_family fresh.family db) ≡ true
      → let after = (open_session hash_token u email now fresh db).1 in
        (after.families ≡ db.families) × (after.sessions ≡ db.sessions)
  unfolding open_session create_family create_session reset_failed_attempts
  open_session-taken u email now fresh db taken = (ground arith, ground arith)

  reject_login-tables :
      (settings : Settings) (stored : Option User) (email : String) (now : ℕ) (db : Db)
      → let after = (reject_login hash_token settings stored email now db).1 in
        (after.families ≡ db.families) × (after.sessions ≡ db.sessions)
  unfolding reject_login increment_failed_attempts lock_account
  reject_login-tables settings stored email now db = (ground arith, ground arith)

  opened-IsRotated :
      (u : User) (email : String) (now : ℕ) (fresh : Fresh) (db : Db)
      → IsRotated db
      → members fresh.family db.sessions ≡ []
      → IsRotated (open_session hash_token u email now fresh db).1
  unfolding in_step
  opened-IsRotated u email now fresh db h unused =
      elim (Option-cases (get_family fresh.family db)) [
        | inr (x, row) ↦
            let (families, sessions) = open_session-taken u email now fresh db (ground arith) in
            rw (families, sessions) h
        | inl unknown ↦
            let x = opened_family fresh.family email in
            let s = opened_session hash_token email now fresh in
            let (families, sessions) = open_session-tables u email now fresh db unknown in
            let h' : IsInStep (db.families ++ x ∷ []) db.sessions =
              add_family-IsInStep db.families db.sessions x h unknown unused refl in
            elim (Bool-cases (is_taken s db.sessions)) [
              | inl taken ↦ rw (families, sessions, taken) h'
              | inr free ↦
                  rw (families, sessions, free)
                    (add_session-IsInStep (db.families ++ x ∷ []) db.sessions fresh.family s h' refl
                      unused
                      (rw
                        (
                          filter-append (λ y. str_eq y.family_id fresh.family) db.families (x ∷ []),
                          filter-first-none (λ y. str_eq y.family_id fresh.family) db.families
                              unknown,
                          str_eq_refl fresh.family,
                          in_step,
                        )
                        refl))
            ]
      ]

  -- A login either leaves these tables to `reject_login` or `open_session`, or does not touch them.
  pub login-IsRotated :
      (settings : Settings) (verify : String → String → Bool) (email password : String) (now : ℕ)
      → (fresh : Fresh) (db : Db) → IsRotated db
      → members fresh.family db.sessions ≡ []
      → IsRotated (login hash_token settings verify email password now fresh db).1
  unfolding login
  login-IsRotated settings verify email password now fresh db h unused =
      elim (Option-cases (get_by_email email db)) [
        | inl unknown ↦
            let (families, sessions) = reject_login-tables settings none email now db in
            let same : (login hash_token settings verify email password now fresh db).1
                ≡ (reject_login hash_token settings none email now db).1 =
              ground arith in
            rw (same, families, sessions) h
        | inr (u, stored) ↦ elim (Bool-cases (is_locked now u)) [
          | inl locked ↦
              let after = (login hash_token settings verify email password now fresh db).1 in
              let families : after.families ≡ db.families = ground arith in
              let sessions : after.sessions ≡ db.sessions = ground arith in
              rw (families, sessions) h
          | inr unlocked ↦ elim (Bool-cases (verify password u.hashed_password)) [
            | inl right ↦
                let same : (login hash_token settings verify email password now fresh db).1
                    ≡ (open_session hash_token u email now fresh db).1 =
                  ground arith in
                rw same (opened-IsRotated u email now fresh db h unused)
            | inr wrong ↦
                let (families, sessions) = reject_login-tables settings (some u) email now db in
                let same : (login hash_token settings verify email password now fresh db).1
                    ≡ (reject_login hash_token settings (some u) email now db).1 =
                  ground arith in
                rw (same, families, sessions) h
          ]
        ]
      ]

  pub get_user_for_token-IsRotated :
      (token : String) (now : ℕ) (cached : Option AuthUser) (db : Db)
      → IsRotated db
      → IsRotated (get_user_for_token hash_token token now cached db).1
  unfolding get_user_for_token gated_user account_of delete_session
  get_user_for_token-IsRotated token now cached db h =
      let after = (get_user_for_token hash_token token now cached db).1 in
      let q : Session → Bool = λ s. not (str_eq s.access_token (hash_token token)) in
      let families : after.families ≡ db.families = ground arith in
      let sessions : (after.sessions ≡ db.sessions) ⊎ (after.sessions ≡ filter q db.sessions) =
        ground arith in
      elim sessions [
        | inl same ↦ rw (families, same) h
        | inr dropped ↦ rw (families, dropped) (drop_sessions-IsInStep q db.families db.sessions h)
      ]

  pub logout-IsRotated :
      (token : String) (db : Db) → IsRotated db → IsRotated (logout hash_token token db).1
  unfolding logout delete_session
  logout-IsRotated token db h =
      let after = (logout hash_token token db).1 in
      let q : Session → Bool = λ s. not (str_eq s.access_token (hash_token token)) in
      let families : after.families ≡ db.families = ground arith in
      let sessions : (after.sessions ≡ db.sessions) ⊎ (after.sessions ≡ filter q db.sessions) =
        ground arith in
      elim sessions [
        | inl same ↦ rw (families, same) h
        | inr dropped ↦ rw (families, dropped) (drop_sessions-IsInStep q db.families db.sessions h)
      ]

pub logout_all-IsRotated :
    (email : String) (db : Db) → IsRotated db → IsRotated (logout_all_sessions email db).1
unfolding logout_all_sessions delete_sessions_by_email delete_families_by_email
logout_all-IsRotated email db h =
    drop-IsInStep (λ f. not (str_eq f.email email)) (λ s. not (str_eq s.email email)) db.families
      db.sessions h
