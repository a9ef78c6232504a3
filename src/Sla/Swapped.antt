-- ===== src/Sla/Swapped.antt =====
-- A publish of an SLA policy with an expected token (app/services/sla/config.py) as a compare-and-swap
-- on the history.
use apex_chainx_backend.Common.{
  ℕ, ◌+◌, ◌≡◌, ◌≢◌, ◌⊎◌, refl, sym, ap, subst, ◌∙◌, inl, inr, String, Bool, true, false, Option,
  none, some, List, [], ◌∷◌, ◌++◌, arith, str_eq, eq_iff, lookup, any, Bool-cases, Option-cases,
  is_some,
}
use apex_chainx_backend.Sla.{Error, ok, err, SeverityConfig, Policies, lower, concurrency_error}
use apex_chainx_backend.Sla.Config.{
  HistoryRow, Outcome, latest_history_row, get_current_token, violates_index, row_of, published,
  refresh, check, publish_config_for_severity,
}
use apex_chainx_backend.Sla.Published.{Above-free, check_version, Result-cases}

-- The version of a severity: that of its newest row, or the default before the first.
abbrev pub version_at : (String → ℕ) → String → List HistoryRow → ℕ
version_at base severity rows = elim (latest_history_row severity rows) [
  | none ↦ base severity
  | some q ↦ q.policy_version
]

-- The versions of each severity count up by one, from the default.
abbrev pub IsConsecutive : (String → ℕ) → List HistoryRow → Type 0
IsConsecutive base [] = Unit
IsConsecutive base (r ∷ rows) =
    (r.policy_version ≡ version_at base r.severity rows + 1) × IsConsecutive base rows

-- A row of the severity is among those given.
abbrev pub has_severity : String → List HistoryRow → Bool
has_severity severity rows = any (λ r. str_eq r.severity severity) rows

-- The outcome with a row that is new in the history.
abbrev pub swapped_in :
    (String → SeverityConfig → ℕ → String) → Policies → List HistoryRow → HistoryRow → Outcome
swapped_in content_hash st rows row = record {
  result = ok (published content_hash row);
  policies = refresh content_hash st row;
  rows = some (row ∷ rows);
}

latest-other :
    (s : String) (q : HistoryRow) (rows : List HistoryRow)
    → str_eq q.severity s ≡ false
    → latest_history_row s (q ∷ rows) ≡ latest_history_row s rows
unfolding latest_history_row
latest-other s q rows other = rw (other, latest_history_row) refl

-- Either no row of the severity arrived, or one with the next version did.
arrived-cases :
    (base : String → ℕ) (s : String) (arrived rows : List HistoryRow)
    → IsConsecutive base (arrived ++ rows)
    → (latest_history_row s (arrived ++ rows) ≡ latest_history_row s rows)
      ⊎ (violates_index s (version_at base s rows + 1) (arrived ++ rows) ≡ true)
arrived-cases base s [] rows h = inl refl
arrived-cases base s (q ∷ arrived) rows (step, h) = elim (arrived-cases base s arrived rows h) [
  | inr taken ↦ inr (ground (arith, taken))
  | inl same ↦ elim (Bool-cases (str_eq q.severity s)) [
    | inr other ↦ inl (latest-other s q (arrived ++ rows) other ∙ same)
    | inl own ↦
        let named : q.severity ≡ s = ground (arith, eq_iff q.severity s) in
        let next : q.policy_version ≡ version_at base s rows + 1 =
          step
          ∙ ap (λ t. version_at base t (arrived ++ rows) + 1) named
          ∙ ap (λ found. (elim found [ none ↦ base s | some p ↦ p.policy_version ]) + 1) same in
        inr (ground (arith, next, own))
  ]
]

violates_index-has_severity :
    (s : String) (version : ℕ) (arrived rows : List HistoryRow)
    → violates_index s version (arrived ++ rows) ≡ true
    → violates_index s version rows ≡ false
    → has_severity s arrived ≡ true
violates_index-has_severity s version [] rows taken free = ground (arith, taken, free)
violates_index-has_severity s version (q ∷ arrived) rows taken free =
    ground (arith, violates_index-has_severity s version arrived rows)

module _ (content_hash : String → SeverityConfig → ℕ → String) (st : Policies) (base : String → ℕ)
    (rows : List HistoryRow) (severity token : String)
    (defaults : lookup (lower severity) st.policy_versions ≡ some (base (lower severity))
      ⊎ is_some (latest_history_row (lower severity) rows) ≡ true) where
  check_current :
      (v : ℕ)
      → check content_hash st (some rows) severity (some token) ≡ ok v
      → (v ≡ version_at base (lower severity) rows)
        × (get_current_token st (some rows) severity ≡ ok token)
  unfolding check get_current_token
  check_current v h = elim (Option-cases (latest_history_row (lower severity) rows)) [
    | inl nothing ↦ elim defaults [
      | inl held ↦ (
        ground (arith, nothing, held),
        elim (Option-cases (lookup (lower severity) st.publish_tokens)) [
          | inl tokenless ↦ ground (arith, nothing, held, tokenless)
          | inr (held_token, known) ↦ ground (arith, nothing, held, known, eq_iff token held_token)
        ],
      )
      | inr found ↦ ground (arith, nothing, found)
    ]
    | inr (p, found) ↦ (ground (arith, found), ground (arith, found, eq_iff token p.publish_token))
  ]

  check_refused :
      (e : Error)
      → check content_hash st (some rows) severity (some token) ≡ err e
      → get_current_token st (some rows) severity ≢ ok token
  unfolding check get_current_token
  check_refused e h current = elim (Option-cases (latest_history_row (lower severity) rows)) [
    | inl nothing ↦ elim (Option-cases (lookup (lower severity) st.publish_tokens)) [
      | inl tokenless ↦ ground (arith, nothing, tokenless, current)
      | inr (held_token, known) ↦ elim defaults [
        | inl held ↦ ground (arith, nothing, held, known, current, eq_iff token held_token)
        | inr found ↦ ground (arith, nothing, found)
      ]
    ]
    | inr (p, found) ↦ ground (arith, found, current, eq_iff token p.publish_token)
  ]

  module _ (payload : SeverityConfig) (published_by : Option String) (arrived : List HistoryRow)
      (new_token : String) (now : ℕ) where
    -- A publish with an expected token is a compare-and-swap. The history has consecutive versions of
    -- each severity, the rows that other workers committed since the read included, and the worker
    -- has the default version of the severity unless the history has a row of it. Then either the
    -- publish raises an error, leaves its dictionaries and the history alone, and the token was not
    -- the current one or a row of the severity had arrived; or the token was the current one, no row
    -- of the severity had arrived, the dictionaries take the new row, and the history gains it, with
    -- a version that is one more than the newest, and stays consecutive.
    pub publish-IsConsecutive :
        IsConsecutive base (arrived ++ rows)
        → let out =
            publish_config_for_severity content_hash st
              (some rows)
              severity
              payload
              (some token)
              published_by
              arrived
              new_token
              now in
          let version = version_at base (lower severity) rows + 1 in
          let row : HistoryRow = record {
            severity = lower severity;
            policy_version = version;
            content = payload;
            content_hash = content_hash (lower severity) payload version;
            publish_token = new_token;
            published_at = now;
            published_by = published_by;
          } in
          ((e : Error) × (out
              ≡ record { result = err e; policies = st; rows = some (arrived ++ rows) })
            × ((get_current_token st (some rows) severity ≢ ok token)
                ⊎ (has_severity (lower severity) arrived ≡ true)))
          ⊎ ((get_current_token st (some rows) severity ≡ ok token)
              × (latest_history_row (lower severity) (arrived ++ rows)
                  ≡ latest_history_row (lower severity) rows)
              × (out ≡ swapped_in content_hash st (arrived ++ rows) row)
              × IsConsecutive base (row ∷ (arrived ++ rows)))
    unfolding publish_config_for_severity
    publish-IsConsecutive h =
        elim (Result-cases (check content_hash st (some rows) severity (some token))) [
          | inl (e, refused) ↦
              inl (e, rw (refused, publish_config_for_severity) refl, inl (check_refused e refused))
          | inr (v, checked) ↦
              let (version, current) = check_current v checked in
              let above =
                Above-free (lower severity) (v + 1) rows
                  (check_version content_hash st rows severity (some token) v checked) in
              elim (Bool-cases (violates_index (lower severity) (v + 1) (arrived ++ rows))) [
                | inl taken ↦ inl (
                  concurrency_error,
                  rw (checked, taken, publish_config_for_severity) refl,
                  inr (
                      violates_index-has_severity (lower severity) (v + 1) arrived rows taken
                        above),
                )
                | inr free ↦ elim (arrived-cases base (lower severity) arrived rows h) [
                  | inr taken ↦ ground (arith, version, taken, free)
                  | inl same ↦
                      let later : HistoryRow =
                        row_of content_hash (lower severity) (v + 1) payload new_token now
                          published_by in
                      let swapped : publish_config_for_severity content_hash st (some rows) severity
                            payload (some token) published_by arrived new_token now
                          ≡ swapped_in content_hash st (arrived ++ rows) later =
                        rw (checked, free, publish_config_for_severity) refl in
                      inr (
                        current,
                        same,
                        subst
                            (λ u.
                              publish_config_for_severity content_hash st (some rows) severity
                                payload (some token) published_by arrived new_token now
                              ≡ swapped_in content_hash st (arrived ++ rows) (
                                  row_of content_hash (lower severity) (u + 1) payload new_token now
                                    published_by))
                            version swapped,
                        (
                          ap
                              (λ found.
                                (elim found [
                                  | none ↦ base (lower severity)
                                  | some p ↦ p.policy_version
                                ])
                                + 1)
                              (sym same),
                          h,
                        ),
                      )
                ]
              ]
        ]
