-- ===== src/Auth/Families.antt =====
-- The rows of one token family (app/repositories/token_family_repository.py, session_repository.py),
-- and what the writes of `AuthStore` do to them.
use apex_chainx_backend.Common.{
  ◌+◌, ◌≤◌, ◌≡◌, ◌≢◌, refl, ap, subst, ◌∙◌, String, Bool, true, false, not, ◌&&◌, none, some, List,
  [], ◌∷◌, ◌++◌, map, arith, str_eq, str_eq_refl, eq_iff, leb, is_some, filter, first, update_where,
  All, Bool-cases, inl, inr, filter_comm, filter-append, filter-first-none, filter-update_where,
  filter-update_where-ne, append-nil, filter-true,
}
use apex_chainx_backend.Auth.{Session, Family, of_family}

-- The families of an id, and their sessions.
abbrev pub rows_of : String → List Family → List Family
rows_of f = filter (λ x. str_eq x.family_id f)

abbrev pub members : String → List Session → List Session
members f = filter (of_family f)

-- At most one row and one session, whose sequence is not behind; and the family is not compromised.
unfoldable pub in_step : List Family → List Session → Bool
in_step [] [] = true
in_step [] (s ∷ []) = true
in_step (x ∷ []) [] = not x.compromised
in_step (x ∷ []) (s ∷ []) = not x.compromised && leb x.current_sequence s.sequence
in_step _ _ = false

pub in_step-filter :
    (p : Family → Bool) (q : Session → Bool) (fs : List Family) (ss : List Session)
    → in_step fs ss ≡ true
    → in_step (filter p fs) (filter q ss) ≡ true
unfolding in_step
in_step-filter p q [] [] h = ground arith
in_step-filter p q [] (s ∷ []) h = elim (Bool-cases (q s)) [ inl e ↦ rw e refl | inr e ↦ rw e refl ]
in_step-filter p q [] (s ∷ t ∷ ss) h = ground arith
in_step-filter p q (x ∷ []) [] h = elim (Bool-cases (p x)) [ inl e ↦ rw e h | inr e ↦ rw e refl ]
in_step-filter p q (x ∷ []) (s ∷ []) h = elim (Bool-cases (p x)) [
  | inl e ↦ elim (Bool-cases (q s)) [ inl e' ↦ rw (e, e') h | inr e' ↦ rw (e, e') (ground arith) ]
  | inr e ↦ elim (Bool-cases (q s)) [ inl e' ↦ rw (e, e') refl | inr e' ↦ rw (e, e') refl ]
]
in_step-filter p q (x ∷ []) (s ∷ t ∷ ss) h = ground arith
in_step-filter p q (x ∷ y ∷ fs) [] h = ground arith
in_step-filter p q (x ∷ y ∷ fs) (s ∷ []) h = ground arith
in_step-filter p q (x ∷ y ∷ fs) (s ∷ t ∷ ss) h = ground arith

abbrev pub HasFamily : Session → Type 0
HasFamily s = is_some s.family_id ≡ true

pub filter-All :
    (q : Session → Bool) (ss : List Session) → All HasFamily ss → All HasFamily (filter q ss)
filter-All q [] h = tt
filter-All q (s ∷ ss) h = elim (Bool-cases (q s)) [
  | inl hit ↦ rw hit (h.0, filter-All q ss h.1)
  | inr miss ↦ rw miss (filter-All q ss h.1)
]

-- The invariant: each family is in step with its session, and every session has a family.
pub record IsInStep (families : List Family) (sessions : List Session) : Type 0 where
  pub steps : (f : String) → in_step (rows_of f families) (members f sessions) ≡ true
  pub owned : All HasFamily sessions

pub drop-IsInStep :
    (p : Family → Bool) (q : Session → Bool) (families : List Family) (sessions : List Session)
    → IsInStep families sessions
    → IsInStep (filter p families) (filter q sessions)
drop-IsInStep p q families sessions h = record {
  steps = λ f.
      rw (filter_comm (λ x. str_eq x.family_id f) p families, filter_comm (of_family f) q sessions)
        (in_step-filter p q (rows_of f families) (members f sessions) (h.steps f));
  owned = filter-All q sessions h.owned;
}

pub drop_sessions-IsInStep :
    (q : Session → Bool) (families : List Family) (sessions : List Session)
    → IsInStep families sessions
    → IsInStep families (filter q sessions)
drop_sessions-IsInStep q families sessions h =
    subst (λ fs. IsInStep fs (filter q sessions)) (filter-true families)
      (drop-IsInStep (λ x. true) q families sessions h)

pub of_family-some :
    (s : Session) (f g : String) → s.family_id ≡ some f → of_family g s ≡ str_eq f g
of_family-some s f g h = ap (λ o. elim o [ none ↦ false | some f' ↦ str_eq f' g ]) h

All-append_one :
    (ss : List Session) (s : Session)
    → All HasFamily ss
    → HasFamily s
    → All HasFamily (ss ++ s ∷ [])
All-append_one [] s hs h = (h, tt)
All-append_one (t ∷ ss) s hs h = (hs.0, All-append_one ss s hs.1 h)

-- A session of a family that has none.
pub add_session-IsInStep :
    (families : List Family) (sessions : List Session) (f : String) (s : Session)
    → IsInStep families sessions
    → s.family_id ≡ some f
    → members f sessions ≡ []
    → in_step (rows_of f families) (s ∷ []) ≡ true
    → IsInStep families (sessions ++ s ∷ [])
add_session-IsInStep families sessions f s h own empty ahead = record {
  steps = λ g. elim (Bool-cases (str_eq f g)) [
    | inl same ↦
        let e : f ≡ g = ground (arith, eq_iff f g) in
        subst (λ k. in_step (rows_of k families) (members k (sessions ++ s ∷ [])) ≡ true) e
          (rw
            (
              filter-append (of_family f) sessions (s ∷ []),
              empty,
              of_family-some s f f own,
              str_eq_refl f,
            )
            ahead)
    | inr other ↦
        let rest : members g (sessions ++ s ∷ []) ≡ members g sessions =
          filter-append (of_family g) sessions (s ∷ [])
          ∙ rw (of_family-some s f g own, other) (append-nil (members g sessions)) in
        rw rest (h.steps g)
  ];
  owned = All-append_one sessions s h.owned (ap is_some own);
}

-- A family of a new id, as long as no session names it.
pub add_family-IsInStep :
    (families : List Family) (sessions : List Session) (x : Family)
    → IsInStep families sessions
    → first (λ y. str_eq y.family_id x.family_id) families ≡ none
    → members x.family_id sessions ≡ []
    → x.compromised ≡ false
    → IsInStep (families ++ x ∷ []) sessions
unfolding in_step
add_family-IsInStep families sessions x h unknown empty sound = record {
  steps = λ g. elim (Bool-cases (str_eq x.family_id g)) [
    | inl same ↦
        let e : x.family_id ≡ g = ground (arith, eq_iff x.family_id g) in
        subst (λ k. in_step (rows_of k (families ++ x ∷ [])) (members k sessions) ≡ true) e
          (rw
            (
              filter-append (λ y. str_eq y.family_id x.family_id) families (x ∷ []),
              filter-first-none (λ y. str_eq y.family_id x.family_id) families unknown,
              str_eq_refl x.family_id,
              empty,
            )
            (ap not sound))
    | inr other ↦
        let rest : rows_of g (families ++ x ∷ []) ≡ rows_of g families =
          filter-append (λ y. str_eq y.family_id g) families (x ∷ [])
          ∙ rw other (append-nil (rows_of g families)) in
        rw rest (h.steps g)
  ];
  owned = h.owned;
}

abbrev pub increment : Family → Family
increment x = record x { current_sequence = x.current_sequence + 1 }

-- The rows of a family after `increment_sequence` of a family.
pub rows_of-increment :
    (f : String) (families : List Family)
    → rows_of f (update_where (λ x. str_eq x.family_id f) increment families)
      ≡ map increment (rows_of f families)
rows_of-increment f families =
    filter-update_where (λ x. str_eq x.family_id f) increment families (λ x. refl)

pub increment-IsInStep :
    (f : String) (families : List Family) (sessions : List Session)
    → IsInStep families sessions
    → members f sessions ≡ []
    → IsInStep (update_where (λ x. str_eq x.family_id f) increment families) sessions
unfolding in_step
increment-IsInStep f families sessions h empty = record {
  steps = λ g. elim (Bool-cases (str_eq f g)) [
    | inl same ↦
        let e : f ≡ g = ground (arith, eq_iff f g) in
        let after = update_where (λ x. str_eq x.family_id f) increment families in
        subst (λ k. in_step (rows_of k after) (members k sessions) ≡ true) e
          (rw (rows_of-increment f families, empty)
            (kept (rows_of f families)
              (subst (λ ms. in_step (rows_of f families) ms ≡ true) empty (h.steps f))))
    | inr other ↦
        rw
          (filter-update_where-ne (λ x. str_eq x.family_id g) (λ x. str_eq x.family_id f) increment
            families
            (λ x hit. (
              ground (arith, eq_iff x.family_id f, eq_iff x.family_id g, eq_iff f g),
              ground (arith, eq_iff x.family_id f, eq_iff x.family_id g, eq_iff f g),
            )))
          (h.steps g)
  ];
  owned = h.owned;
}
  where
    kept : (xs : List Family) → in_step xs [] ≡ true → in_step (map increment xs) [] ≡ true
    kept [] h = refl
    kept (x ∷ []) h = h
    kept (x ∷ y ∷ xs) h = h

-- A family that has a row and a session.
pub in_step-both :
    (x : Family) (rest : List Family) (ss : List Session)
    → in_step (x ∷ rest) ss ≡ true
    → ss ≢ []
    → (s : Session) × (ss ≡ s ∷ [])
      × (rest ≡ [])
      × (x.compromised ≡ false)
      × (x.current_sequence ≤ s.sequence)
unfolding in_step
in_step-both x rest [] h some_left = ground (arith, some_left refl)
in_step-both x [] (s ∷ []) h some_left = (s, refl, refl, ground arith, ground arith)
in_step-both x (y ∷ rest) (s ∷ []) h some_left = ground arith
in_step-both x rest (s ∷ t ∷ ss) h some_left = ground arith
