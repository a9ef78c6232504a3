-- ===== src/Auth/Reach.antt =====
-- The tables that the calls of `AuthStore` (app/services/auth_store.py) can make of empty ones.
use apex_chainx_backend.Common.{
  ℕ, ◌≡◌, refl, String, Bool, true, not, Option, List, [], ◌∷◌, arith, filter, any,
}
use apex_chainx_backend.Auth.{User, Session, Db, of_family}
use apex_chainx_backend.Auth.Families.{rows_of, members, in_step}
use apex_chainx_backend.Auth.Rotation.{IsRotated, undetected, refresh-undetected}
use apex_chainx_backend.Auth.Store.{
  Fresh, Settings, AuthUser, login, get_user_for_token, refresh, logout, logout_all_sessions,
}
use apex_chainx_backend.Auth.Kept.{
  login-IsRotated, get_user_for_token-IsRotated, logout-IsRotated, logout_all-IsRotated,
}

-- One call, with the clock reading and what it draws or finds.
pub data Call : Type 0 where
  logging_in : String → String → ℕ → Fresh → Call
  refreshing : String → ℕ → Fresh → Call
  authenticating : String → ℕ → Option AuthUser → Call
  logging_out : String → Call
  logging_out_all : String → Call

module _ (hash_token : String → String) (settings : Settings)
    (verify : String → String → Bool) where
  abbrev pub apply : Call → Db → Db
  apply (logging_in email password now fresh) db =
      (login hash_token settings verify email password now fresh db).1
  apply (refreshing token now fresh) db = (refresh hash_token token now fresh db).1
  apply (authenticating token now cached) db = (get_user_for_token hash_token token now cached db).1
  apply (logging_out token) db = (logout hash_token token db).1
  apply (logging_out_all email) db = (logout_all_sessions email db).1

  -- A login draws a family id that no session has.
  abbrev pub is_fresh : Call → Db → Bool
  is_fresh (logging_in email password now fresh) db = not (any (of_family fresh.family) db.sessions)
  is_fresh _ db = true

  -- What calls make of tables with any users and no session or family.
  pub data Reach : Db → Type 0 where
    start :
        (users : List User)
        → Reach (record { users = users; sessions = []; families = []; audit = [] })
    next : (c : Call) (db : Db) → Reach db → is_fresh c db ≡ true → Reach (apply c db)

  any-filter : (p : Session → Bool) (ss : List Session) → not (any p ss) ≡ true → filter p ss ≡ []
  any-filter p [] h = refl
  any-filter p (s ∷ ss) h = ground (arith, any-filter p ss)

  apply-IsRotated :
      (c : Call) (db : Db) → IsRotated db → is_fresh c db ≡ true → IsRotated (apply c db)
  apply-IsRotated (logging_in email password now fresh) db h unused =
      login-IsRotated hash_token settings verify email password now fresh db h
        (any-filter (of_family fresh.family) db.sessions unused)
  apply-IsRotated (refreshing token now fresh) db h _ =
      (refresh-undetected hash_token token now fresh db h).1
  apply-IsRotated (authenticating token now cached) db h _ =
      get_user_for_token-IsRotated hash_token token now cached db h
  apply-IsRotated (logging_out token) db h _ = logout-IsRotated hash_token token db h
  apply-IsRotated (logging_out_all email) db h _ = logout_all-IsRotated email db h

  Reach-IsRotated : (db : Db) → Reach db → IsRotated db
  unfolding in_step
  Reach-IsRotated _ (start users) = record { steps = λ f. refl; owned = tt }
  Reach-IsRotated _ (next c db r unused) = apply-IsRotated c db (Reach-IsRotated db r) unused

  -- In every state that calls make of tables with no session and no family, where logins draw family
  -- ids that no session has: a family has at most one row and one session, whose sequence is not
  -- behind that of the family, and no family is compromised.
  pub Reach-in_step :
      (db : Db)
      → Reach db
      → (f : String) → in_step (rows_of f db.families) (members f db.sessions) ≡ true
  Reach-in_step db r = (Reach-IsRotated db r).steps

  -- In every state that calls make of tables with no session and no family, where logins draw
  -- family ids that no session has, the reuse detection and the check for a compromised family never
  -- fire: any refresh, whatever the token, leaves the same answer, sessions, families and audit
  -- entries as one without the two checks, which rotates the token.
  pub Reach-undetected :
      (db : Db)
      → Reach db
      → (token : String) (now : ℕ) (fresh : Fresh)
      → refresh hash_token token now fresh db ≡ undetected hash_token token now fresh db
  Reach-undetected db r token now fresh =
      (refresh-undetected hash_token token now fresh db (Reach-IsRotated db r)).0
