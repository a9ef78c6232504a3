-- ===== src/Auth/Tests.antt =====
-- Logins and refreshes of app/services/auth_store.py on concrete tables.
use apex_chainx_backend.Common.{
  arith, leb, if◌then◌else◌, ◌+◌, ◌*◌, ◌≡◌, ◌≢◌, refl, String, true, none, some, [], ◌∷◌, str_eq,
  length,
}
use apex_chainx_backend.Auth.{
  User, Db, get_by_email, invalid_refresh_token, attribute_error, ok, err, create_family,
  create_session, delete_session, reset_failed_attempts, increment_sequence, is_account_locked,
}
use apex_chainx_backend.Auth.Families.{rows_of, members, in_step}
use apex_chainx_backend.Auth.Lockout.{login_wrong, counted, locked}
use apex_chainx_backend.Auth.Login.{login-accepted}
use apex_chainx_backend.Auth.Refresh.{refresh-ne-ok}
use apex_chainx_backend.Auth.Reach.{
  logging_in, refreshing, apply, Reach, start, next, Reach-in_step, Reach-undetected,
}
use apex_chainx_backend.Auth.Rotation.{undetected}
use apex_chainx_backend.Auth.Store.{
  Fresh, Settings, engineer, open_session, login, get_user_for_token, rotate, refresh_in_family,
  migrate, refresh,
}

abbrev hash_token : String → String
hash_token token = token

abbrev settings : Settings
settings = record { max_failed_attempts = 5; lockout_duration_minutes = 15 }

abbrev ada : User
ada = record {
  id = "u1";
  email = "ada@x";
  hashed_password = "pw";
  role = "engineer";
  failed_login_attempts = some 2;
  locked_until = none;
}

abbrev empty : Db
empty = record { users = ada ∷ []; sessions = []; families = []; audit = [] }

abbrev fresh : Fresh
fresh = record { access = "a1"; refresh = "r1"; family = "f1" }

abbrev fresh' : Fresh
fresh' = record { access = "a2"; refresh = "r2"; family = "f2" }

abbrev logged_in : Db
logged_in = apply hash_token settings str_eq (logging_in "ada@x" "pw" 100 fresh) empty

abbrev refreshed : Db
refreshed = apply hash_token settings str_eq (refreshing "r1" 200 fresh') logged_in

program : Unit {0}
unfolding login open_session create_family create_session reset_failed_attempts refresh migrate
    refresh_in_family rotate increment_sequence delete_session is_account_locked
program = tt

-- The call that rotates the token raises AttributeError, after the rotation is committed; the token
-- that was used is unknown from then on.
refresh_raises : (refresh hash_token "r1" 200 fresh' logged_in).0 ≡ err attribute_error
unfolding program
refresh_raises = refl

replay_unknown : (refresh hash_token "r1" 300 fresh' refreshed).0 ≡ err invalid_refresh_token
unfolding program
replay_unknown = refl

rotated_sequence : (length refreshed.sessions ≡ 1) × (length refreshed.families ≡ 1)
unfolding program
rotated_sequence = (refl, refl)

refresh-ne-ok_example :
    (refresh hash_token "r1" 200 fresh' logged_in).0
    ≢ ok (record {
      access_token = "a2";
      refresh_token = "r2";
      expires_in = 3600;
      user = record { id = "u1"; email = "ada@x"; role = engineer };
    })
refresh-ne-ok_example = refresh-ne-ok hash_token "r1" 200 fresh' logged_in (record {
  access_token = "a2";
  refresh_token = "r2";
  expires_in = 3600;
  user = record { id = "u1"; email = "ada@x"; role = engineer };
})

reached : Reach hash_token settings str_eq refreshed
reached =
    next (refreshing "r1" 200 fresh') logged_in
      (next (logging_in "ada@x" "pw" 100 fresh) empty (start (ada ∷ [])) refl) refl

Reach-in_step_example :
    in_step (rows_of "f1" refreshed.families) (members "f1" refreshed.sessions) ≡ true
Reach-in_step_example = Reach-in_step hash_token settings str_eq refreshed reached "f1"

Reach-undetected_example :
    refresh hash_token "r2" 300 fresh' refreshed ≡ undetected hash_token "r2" 300 fresh' refreshed
Reach-undetected_example =
    Reach-undetected hash_token settings str_eq refreshed reached "r2" 300 fresh'

-- The fifth failure in a row.
abbrev tried : User
tried = record ada { failed_login_attempts = some 4 }

login_wrong_example :
    let (answer, db') =
      login hash_token settings str_eq "ada@x" "no" 100 fresh
        (record empty { users = tried ∷ [] }) in
    let spent = leb 5 (4 + 1) in
    (answer ≡ err attribute_error)
    × (get_by_email "ada@x" db'
        ≡ some (if spent then locked (100 + 60 * 15) (counted tried) else counted tried))
login_wrong_example =
    login_wrong hash_token settings str_eq "ada@x" "no" 100 fresh
      (record empty { users = tried ∷ [] }) tried refl refl refl

login-accepted_example :
    let (answer, db') = login hash_token settings str_eq "ada@x" "pw" 100 fresh empty in
    (answer
      ≡ ok (record {
        access_token = "a1";
        refresh_token = "r1";
        expires_in = 3600;
        user = record { id = "u1"; email = "ada@x"; role = engineer };
      }))
    × ((get_user_for_token hash_token "a1" 3700 none db').0
        ≡ ok (some (record { id = "u1"; email = "ada@x"; role = engineer })))
login-accepted_example =
    login-accepted hash_token settings str_eq ada engineer "ada@x" "pw" 100 3700 fresh empty refl
      refl refl refl refl refl (omega arith)
