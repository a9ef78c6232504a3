-- ===== src/Auth/Login.antt =====
-- The session that a login of `AuthStore` (app/services/auth_store.py) opens.
use apex_chainx_backend.Common.{
  ℕ, ◌+◌, ◌≤◌, ◌≡◌, refl, String, Bool, true, false, ◌||◌, none, some, List, [], ◌∷◌, ◌++◌, arith,
  str_eq, str_eq_refl, first, any, update_where, first-append,
}
use apex_chainx_backend.Auth.{
  User, Session, Db, ok, get_by_email, is_locked, reset_failed_attempts, create_family,
  create_session, get_family, is_revoked,
}
use apex_chainx_backend.Auth.Store.{
  Fresh, Settings, AuthUser, Role, login, open_session, get_user_for_token, gated_user, account_of,
  role_of, token_ttl_seconds,
}
use apex_chainx_backend.Auth.Lockout.{first-update_where}

module _ (hash_token : String → String) (settings : Settings)
    (verify : String → String → Bool) where
  abbrev opened_user : User → Role → AuthUser
  opened_user u role = record { id = u.id; email = u.email; role = role }

  -- The tables after a login that goes through.
  abbrev with_session : String → ℕ → Fresh → Db → Db
  with_session email now fresh db = record db {
    users =
        update_where (λ u. str_eq u.email email)
          (λ u. record u { failed_login_attempts = some 0; locked_until = none }) db.users;
    families =
        db.families
        ++ record {
          family_id = fresh.family;
          email = email;
          current_sequence = 0;
          compromised = false;
        }
          ∷ [];
    sessions =
        db.sessions
        ++ record {
          access_token = hash_token fresh.access;
          refresh_token = hash_token fresh.refresh;
          email = email;
          family_id = some fresh.family;
          sequence = 0;
          expires_at = now + token_ttl_seconds;
        }
          ∷ [];
    audit = db.audit ++ record { event_type = "login_success"; email = email } ∷ [];
  }

  open_session_lem :
      (u : User) (role : Role) (email : String) (now : ℕ) (fresh : Fresh) (db : Db)
      → role_of u.role ≡ some role
      → get_family fresh.family db ≡ none
      → any
          (λ t.
            str_eq t.access_token (hash_token fresh.access)
            || str_eq t.refresh_token (hash_token fresh.refresh))
          db.sessions
        ≡ false
      → open_session hash_token u email now fresh db ≡ (
        ok (record {
          access_token = fresh.access;
          refresh_token = fresh.refresh;
          expires_in = token_ttl_seconds;
          user = opened_user u role;
        }),
        with_session email now fresh db,
      )
  unfolding open_session reset_failed_attempts create_family create_session
  open_session_lem u role email now fresh db known_role unknown untaken = ground arith

  first-untaken :
      (access refresh : String) (ss : List Session)
      → any (λ t. str_eq t.access_token access || str_eq t.refresh_token refresh) ss ≡ false
      → first (λ t. str_eq t.access_token access) ss ≡ none
  first-untaken access refresh [] h = refl
  first-untaken access refresh (s ∷ ss) h = ground (arith, first-untaken access refresh ss)

  get_user-with_session :
      (u : User) (role : Role) (email : String) (now later : ℕ) (fresh : Fresh) (db : Db)
      → get_by_email email db ≡ some u
      → role_of u.role ≡ some role
      → get_family fresh.family db ≡ none
      → first (λ t. str_eq t.access_token (hash_token fresh.access)) db.sessions ≡ none
      → later ≤ now + token_ttl_seconds
      → (get_user_for_token hash_token fresh.access later none (with_session email now fresh db)).0
        ≡ ok (some (opened_user u role))
  unfolding get_user_for_token gated_user account_of is_revoked
  get_user-with_session u role email now later fresh db known known_role unknown untaken young =
      let after = with_session email now fresh db in
      let account =
        first-update_where (λ x. str_eq x.email email)
          (λ x. record x { failed_login_attempts = some 0; locked_until = none }) db.users u
          (λ y. refl) known in
      ground (
        arith,
        account,
        str_eq_refl (hash_token fresh.access),
        str_eq_refl fresh.family,
        first-append (λ t. str_eq t.access_token (hash_token fresh.access)) db.sessions
            (record {
              access_token = hash_token fresh.access;
              refresh_token = hash_token fresh.refresh;
              email = email;
              family_id = some fresh.family;
              sequence = 0;
              expires_at = now + token_ttl_seconds;
            }
              ∷ []),
        first-append (λ f. str_eq f.family_id fresh.family) db.families
            (record {
              family_id = fresh.family;
              email = email;
              current_sequence = 0;
              compromised = false;
            }
              ∷ []),
      )

  -- A login with the right password, to an account that is not locked and has a known role, with
  -- tokens and a family id that are not taken, is answered with the account and the tokens; and the
  -- access token is accepted for that account until it expires.
  pub login-accepted :
      (u : User) (role : Role) (email password : String) (now later : ℕ) (fresh : Fresh) (db : Db)
      → get_by_email email db ≡ some u
      → is_locked now u ≡ false
      → verify password u.hashed_password ≡ true
      → role_of u.role ≡ some role
      → get_family fresh.family db ≡ none
      → any
          (λ t.
            str_eq t.access_token (hash_token fresh.access)
            || str_eq t.refresh_token (hash_token fresh.refresh))
          db.sessions
        ≡ false
      → later ≤ now + token_ttl_seconds
      → let (answer, db') = login hash_token settings verify email password now fresh db in
        (answer
          ≡ ok (record {
            access_token = fresh.access;
            refresh_token = fresh.refresh;
            expires_in = token_ttl_seconds;
            user = record { id = u.id; email = u.email; role = role };
          }))
        × ((get_user_for_token hash_token fresh.access later none db').0
            ≡ ok (some (record { id = u.id; email = u.email; role = role })))
  unfolding login
  login-accepted u role email password now later fresh db known unlocked right known_role unknown
        untaken young =
      let same : login hash_token settings verify email password now fresh db
          ≡ open_session hash_token u email now fresh db =
        ground arith in
      rw (same, open_session_lem u role email now fresh db known_role unknown untaken)
        (
          refl,
          get_user-with_session u role email now later fresh db known known_role unknown
              (first-untaken (hash_token fresh.access) (hash_token fresh.refresh) db.sessions
                untaken)
              young,
        )
