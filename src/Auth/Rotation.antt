-- ===== src/Auth/Rotation.antt =====
-- `AuthStore.refresh` (app/services/auth_store.py) and the sequences of the token families.
use apex_chainx_backend.Common.{
  ℕ, ◌+◌, ◌≤◌, ◌≡◌, refl, ap, subst, ◌∙◌, String, Bool, true, false, not, ◌||◌, Option, none, some,
  List, [], ◌∷◌, ◌++◌, arith, str_eq, str_eq_refl, ltb, if◌then◌else◌, filter, first, any,
  update_where, Bool-cases, Option-cases, inl, inr, All-first, filter-first, filter_comm,
  found-nonempty, found-only,
}
use apex_chainx_backend.Auth.{
  User, Session, Family, Db, Action, gets, or_raise, raise, ◌>>=◌, ◌>>◌, log_event, invalid_family,
  invalid_refresh_token, account_locked, get_session_by_refresh_token, get_family, get_by_email,
  is_account_locked, of_family,
}
use apex_chainx_backend.Auth.Families.{
  rows_of, members, in_step, IsInStep, HasFamily, drop_sessions-IsInStep, add_session-IsInStep,
  increment-IsInStep, in_step-both, of_family-some,
}
use apex_chainx_backend.Auth.Store.{
  Fresh, Response, token_ttl_seconds, rotate, refresh_in_family, refresh, migrate,
}

-- The tables of families and sessions fit together.
abbrev pub IsRotated : Db → Type 0
IsRotated db = IsInStep db.families db.sessions

in_step-alone :
    (x : Family) (rest : List Family) (s : Session)
    → in_step (x ∷ rest) [] ≡ true
    → x.current_sequence ≤ s.sequence
    → in_step (x ∷ rest) (s ∷ []) ≡ true
unfolding in_step
in_step-alone x [] s h ahead = ground arith
in_step-alone x (y ∷ rest) s h ahead = ground arith

-- A session that is found, and the row of its family.
module _ (db : Db) (other : Session → Bool) (old : Session) (f : String) (x : Family)
    (h : IsRotated db) (found : first other db.sessions ≡ some old) (own : old.family_id ≡ some f)
    (row : get_family f db ≡ some x) where
  pub found-in_step :
      (members f db.sessions ≡ old ∷ [])
      × (x.compromised ≡ false)
      × (x.current_sequence ≤ old.sequence)
  found-in_step =
      let (rest, rows) = filter-first (λ y. str_eq y.family_id f) x db.families row in
      let member : of_family f old ≡ true = of_family-some old f f own ∙ str_eq_refl f in
      let (s, one, alone, sound, ahead) =
        in_step-both x rest (members f db.sessions)
          (subst (λ rs. in_step rs (members f db.sessions) ≡ true) rows (h.steps f))
          (found-nonempty (of_family f) other old db.sessions found member) in
      let e : s ≡ old = found-only (of_family f) other old s db.sessions found member one in
      (one ∙ ap (λ t. t ∷ []) e, sound, subst (λ t. x.current_sequence ≤ t.sequence) e ahead)

-- The rows that `rotate` leaves before it opens the new session.
abbrev rotated : Session → String → Db → Db
rotated old f db = record db {
  families =
      update_where (λ x. str_eq x.family_id f)
        (λ x. record x { current_sequence = x.current_sequence + 1 }) db.families;
  sessions = filter (λ s. not (str_eq s.access_token old.access_token)) db.sessions;
}

rotated-empty :
    (db : Db) (old : Session) (f : String)
    → members f db.sessions ≡ old ∷ []
    → members f (rotated old f db).sessions ≡ []
rotated-empty db old f one =
    rw
      (
        filter_comm (of_family f) (λ s. not (str_eq s.access_token old.access_token)) db.sessions,
        one,
        str_eq_refl old.access_token,
      )
      refl

rotated-IsRotated :
    (db : Db) (old : Session) (f : String)
    → IsRotated db
    → members f db.sessions ≡ old ∷ []
    → IsRotated (rotated old f db)
rotated-IsRotated db old f h one =
    increment-IsInStep f db.families (rotated old f db).sessions
      (drop_sessions-IsInStep (λ s. not (str_eq s.access_token old.access_token)) db.families
        db.sessions h)
      (rotated-empty db old f one)

abbrev successor : (String → String) → Session → String → Family → ℕ → Fresh → Session
successor hash_token old f x now fresh = record {
  access_token = hash_token fresh.access;
  refresh_token = hash_token fresh.refresh;
  email = old.email;
  family_id = some f;
  sequence = x.current_sequence + 1;
  expires_at = now + token_ttl_seconds;
}

abbrev pub is_taken : Session → List Session → Bool
is_taken s =
    any (λ t. str_eq t.access_token s.access_token || str_eq t.refresh_token s.refresh_token)

module _ (hash_token : String → String) where
  rotate-tables :
      (old : Session) (f : String) (u : User) (now : ℕ) (fresh : Fresh) (db : Db) (x : Family)
      → get_family f (rotated old f db) ≡ some x
      → let s = successor hash_token old f x now fresh in
        let db' = rotated old f db in
        let after = (rotate hash_token old f (some u) now fresh db).1 in
        (after.families ≡ db'.families)
        × (after.sessions
            ≡ (if is_taken s db'.sessions then db'.sessions else db'.sessions ++ s ∷ []))
  unfolding rotate
  rotate-tables old f u now fresh db x row =
      elim (Bool-cases
        (is_taken (successor hash_token old f x now fresh) (rotated old f db).sessions)) [
          | inl taken ↦ (ground arith, ground arith)
          | inr free ↦ (ground arith, ground arith)
        ]

  rotate-IsRotated :
      (old : Session) (f : String) (stored : Option User) (now : ℕ) (fresh : Fresh) (db : Db)
      → IsRotated db
      → members f db.sessions ≡ old ∷ []
      → IsRotated (rotate hash_token old f stored now fresh db).1
  unfolding rotate
  rotate-IsRotated old f none now fresh db h one = rotated-IsRotated db old f h one
  rotate-IsRotated old f (some u) now fresh db h one =
      let db' = rotated old f db in
      let h' = rotated-IsRotated db old f h one in
      elim (Option-cases (get_family f db')) [
        | inl gone ↦ rw (gone, rotate) h'
        | inr (x, row) ↦
            let s = successor hash_token old f x now fresh in
            let empty = rotated-empty db old f one in
            let (rest, rows) = filter-first (λ y. str_eq y.family_id f) x db'.families row in
            let alone : in_step (x ∷ rest) [] ≡ true =
              subst (λ rs. in_step rs [] ≡ true) rows
                (subst (λ ss. in_step (rows_of f db'.families) ss ≡ true) empty (h'.steps f)) in
            let added : IsInStep db'.families (db'.sessions ++ s ∷ []) =
              add_session-IsInStep db'.families db'.sessions f s h' refl empty
                (rw rows (in_step-alone x rest s alone (omega arith))) in
            let (families, sessions) = rotate-tables old f u now fresh db x row in
            elim (Bool-cases (is_taken s db'.sessions)) [
              | inl taken ↦ rw (families, sessions, taken) h'
              | inr free ↦ rw (families, sessions, free) added
            ]
      ]

  -- `refresh_in_family` and `refresh` as they would be without the reuse detection and without the
  -- check for a compromised family: what is left is the rotation.
  abbrev pub undetected_in_family : Session → String → ℕ → Fresh → Action Response
  undetected_in_family old family_id now fresh = do
    family ← gets (get_family family_id)
    f ← or_raise family invalid_family
    stored ← gets (get_by_email old.email)
    rotate hash_token old family_id stored now fresh

  abbrev pub undetected : String → ℕ → Fresh → Action Response
  undetected token now fresh = do
    found ← gets (get_session_by_refresh_token (hash_token token))
    old ← or_raise found invalid_refresh_token
    locked ← gets (is_account_locked old.email now)
    (if locked then (do log_event "refresh_failed_locked" old.email; raise account_locked) else (do
      family_id ← migrate hash_token old fresh.family
      undetected_in_family old family_id now fresh))

  -- With these tables, neither check of the family ends a refresh.
  refresh_in_family-undetected :
      (old : Session) (f : String) (now : ℕ) (fresh : Fresh) (db : Db) (other : Session → Bool)
      → IsRotated db
      → first other db.sessions ≡ some old
      → old.family_id ≡ some f
      → let outcome = refresh_in_family hash_token old old.sequence f now fresh db in
        (outcome ≡ undetected_in_family old f now fresh db) × IsRotated outcome.1
  unfolding refresh_in_family
  refresh_in_family-undetected old f now fresh db other h found own =
      elim (Option-cases (get_family f db)) [
        | inl gone ↦ rw (gone, refresh_in_family) (refl, h)
        | inr (x, row) ↦
            let (one, sound, ahead) = found-in_step db other old f x h found own row in
            let current : ltb old.sequence x.current_sequence ≡ false = ground arith in
            let stored = get_by_email old.email db in
            rw (row, sound, current, refresh_in_family)
              (refl, rotate-IsRotated old f stored now fresh db h one)
      ]

  -- The same for a refresh token.
  pub refresh-undetected :
      (token : String) (now : ℕ) (fresh : Fresh) (db : Db)
      → IsRotated db
      → let outcome = refresh hash_token token now fresh db in
        (outcome ≡ undetected token now fresh db) × IsRotated outcome.1
  unfolding refresh migrate
  refresh-undetected token now fresh db h =
      elim (Option-cases (get_session_by_refresh_token (hash_token token) db)) [
        | inl unknown ↦ rw (unknown, refresh) (refl, h)
        | inr (old, found) ↦ elim (Bool-cases (is_account_locked old.email now db)) [
          | inl locked ↦ rw (found, locked, refresh) (refl, h)
          | inr unlocked ↦ elim (Option-cases old.family_id) [
            | inl homeless ↦ ground (
              arith,
              All-first HasFamily (λ s. str_eq s.refresh_token (hash_token token)) db.sessions old
                  found h.owned,
            )
            | inr (f, own) ↦
                rw (found, unlocked, own, refresh)
                  (refresh_in_family-undetected old f now fresh db
                    (λ s. str_eq s.refresh_token (hash_token token)) h found own)
          ]
        ]
      ]
