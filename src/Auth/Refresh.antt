-- ===== src/Auth/Refresh.antt =====
-- How `AuthStore.refresh` (app/services/auth_store.py) ends.
use apex_chainx_backend.Common.{ℕ, ◌≢◌, String, Option, arith, Option-cases, Bool-cases, inl, inr}
use apex_chainx_backend.Auth.{
  User, Session, Db, Result, ok, err, Action, get_session_by_refresh_token, get_by_email,
  is_account_locked, ◌>>=◌, raise,
}
use apex_chainx_backend.Auth.Store.{
  Fresh, Response, rotate, refresh_in_family, refresh, migrate, sequence_of,
}

-- What no continuation returns, a bind does not return.
pub bind-ne-ok :
    {A B : Type 0} (m : Action A) (f : A → Action B) (db : Db) (b : B)
    → ((a : A) (db' : Db) → (f a db').0 ≢ ok b)
    → ((m >>= f) db).0 ≢ ok b
bind-ne-ok {A} {B} m f db b never = after (m db).0 (m db).1
  where
    after :
        (x : Result A) (db' : Db)
        → let y : Result B × Db = elim x [ ok a ↦ f a db' | err e ↦ raise e db' ] in y.0 ≢ ok b
    after (ok a) db' = never a db'
    after (err e) db' = λ h. cc

module _ (hash_token : String → String) where
  rotate-ne-ok :
      (old : Session) (family_id : String) (stored : Option User) (now : ℕ) (fresh : Fresh)
      (db : Db)
      → (r : Response) → (rotate hash_token old family_id stored now fresh db).0 ≢ ok r
  unfolding rotate
  rotate-ne-ok old family_id stored now fresh db r = λ h. ground arith

  refresh_in_family-ne-ok :
      (old : Session) (sequence : ℕ) (family_id : String) (now : ℕ) (fresh : Fresh) (db : Db)
      → (r : Response) → (refresh_in_family hash_token old sequence family_id now fresh db).0 ≢ ok r
  unfolding refresh_in_family
  refresh_in_family-ne-ok old sequence family_id now fresh db r =
      λ h. ground (arith, rotate-ne-ok old family_id (get_by_email old.email db) now fresh db r)

  -- `refresh` never returns a response, whatever the token and the tables, since the row of an
  -- account has no attribute `user_id`.
  pub refresh-ne-ok :
      (token : String) (now : ℕ) (fresh : Fresh) (db : Db) (r : Response)
      → (refresh hash_token token now fresh db).0 ≢ ok r
  unfolding refresh
  refresh-ne-ok token now fresh db r = λ h.
      elim (Option-cases (get_session_by_refresh_token (hash_token token) db)) [
        | inl unknown ↦ ground arith
        | inr (old, found) ↦ elim (Bool-cases (is_account_locked old.email now db)) [
          | inl locked ↦ ground arith
          | inr unlocked ↦
              bind-ne-ok (migrate hash_token old fresh.family)
                (λ f. refresh_in_family hash_token old (sequence_of hash_token old) f now fresh) db
                r
                (λ f db'.
                  refresh_in_family-ne-ok old (sequence_of hash_token old) f now fresh db' r)
                (rw (found, unlocked) at h)
        ]
      ]
