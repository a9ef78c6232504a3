-- ===== src/TxIndexer/Parsed.antt =====
-- The parsing of records (app/services/tx_indexer.py), apart from the clock.
use apex_chainx_backend.Common.{
  Bool, true, false, arith, not, ◌&&◌, ℕ, ◌≡◌, refl, sym, ap, subst, ◌∙◌, inl, inr, ◌⊎◌, String,
  true, Option, List, [], ◌∷◌, str_eq, get_or, All, Bool-cases, Option-cases,
}
use apex_chainx_backend.TxIndexer.{
  Error, Result, ok, err, Record, IndexedTransaction, Row, Env, has_hash, amount_text, to_stroops,
  parse_created_at, parse_horizon_record, parse_all, to_rows,
}
use apex_chainx_backend.TxIndexer.Inserted.{IsStored}

pub Result-cases :
    {A : Type 0} (r : Result A) → ((e : Error) × (r ≡ err e)) ⊎ ((a : A) × (r ≡ ok a))
Result-cases (err e) = inl (e, refl)
Result-cases (ok a) = inr (a, refl)

abbrev pub is_ok : {A : Type 0} → Result A → Bool
is_ok (err e) = false
is_ok (ok a) = true

module _ (env : Env) where
  -- The transaction of a record is stored.
  abbrev pub IsKnown : List Row → Record → Type 0
  IsKnown rows r = has_hash (env.strip (get_or r.transaction_hash "")) rows ≡ true

  abbrev HasHash : Record → Result IndexedTransaction → Type 0
  HasHash r (err e) = Unit
  HasHash r (ok tx) = tx.transaction_hash ≡ env.strip (get_or r.transaction_hash "")

  parse_horizon_record-HasHash : (now : ℕ) (r : Record) → HasHash r (parse_horizon_record env now r)
  unfolding parse_horizon_record
  parse_horizon_record-HasHash now r =
      elim (Bool-cases (str_eq (env.strip (get_or r.transaction_hash "")) "")) [
        | inl missing ↦ rw (missing, parse_horizon_record) tt
        | inr given ↦ elim (Result-cases (to_stroops env (amount_text r))) [
          | inl (e, invalid) ↦ rw (given, invalid, parse_horizon_record) tt
          | inr (amount, valid) ↦ elim (Result-cases (parse_created_at env now r.created_at)) [
            | inl (e, unread) ↦ rw (given, valid, unread, parse_horizon_record) tt
            | inr (time, read) ↦ rw (given, valid, read, parse_horizon_record) refl
          ]
        ]
      ]

  -- Whether a record can be parsed does not depend on the clock.
  parse_created_at-is_ok :
      (now later : ℕ) (raw : Option String)
      → is_ok (parse_created_at env later raw) ≡ is_ok (parse_created_at env now raw)
  unfolding parse_created_at
  parse_created_at-is_ok now later raw = elim (Bool-cases (str_eq (get_or raw "") "")) [
    | inl absent ↦ rw (absent, parse_created_at) refl
    | inr given ↦ elim (Option-cases (env.fromisoformat (get_or raw ""))) [
      | inl unread ↦ rw (given, unread, parse_created_at) refl
      | inr (time, read) ↦ rw (given, read, parse_created_at) refl
    ]
  ]

  parse_horizon_record-is_ok :
      (now : ℕ) (r : Record)
      → is_ok (parse_horizon_record env now r)
        ≡ not (str_eq (env.strip (get_or r.transaction_hash "")) "")
          && is_ok (to_stroops env (amount_text r))
          && is_ok (parse_created_at env now r.created_at)
  unfolding parse_horizon_record
  parse_horizon_record-is_ok now r =
      elim (Bool-cases (str_eq (env.strip (get_or r.transaction_hash "")) "")) [
        | inl missing ↦ rw (missing, parse_horizon_record) refl
        | inr given ↦ elim (Result-cases (to_stroops env (amount_text r))) [
          | inl (e, invalid) ↦ rw (given, invalid, parse_horizon_record) refl
          | inr (amount, valid) ↦ elim (Result-cases (parse_created_at env now r.created_at)) [
            | inl (e, unread) ↦ rw (given, valid, unread, parse_horizon_record) refl
            | inr (time, read) ↦ rw (given, valid, read, parse_horizon_record) refl
          ]
        ]
      ]

  parse_all_cons :
      (now : ℕ) (r : Record) (records : List Record)
      → is_ok (parse_all env now (r ∷ records))
        ≡ is_ok (parse_horizon_record env now r) && is_ok (parse_all env now records)
  unfolding parse_all
  parse_all_cons now r records = elim (Result-cases (parse_horizon_record env now r)) [
    | inl (e, bad) ↦ rw (bad, parse_all) refl
    | inr (tx, good) ↦ elim (Result-cases (parse_all env now records)) [
      | inl (e, bad) ↦ rw (good, bad, parse_all) refl
      | inr (txs, parsed) ↦ rw (good, parsed, parse_all) refl
    ]
  ]

  pub parse_all-is_ok :
      (now later : ℕ) (records : List Record)
      → is_ok (parse_all env later records) ≡ is_ok (parse_all env now records)
  unfolding parse_all
  parse_all-is_ok now later [] = refl
  parse_all-is_ok now later (r ∷ records) = ground (
    arith,
    parse_all_cons now r records,
    parse_all_cons later r records,
    parse_horizon_record-is_ok now r,
    parse_horizon_record-is_ok later r,
    parse_created_at-is_ok now later r.created_at,
    parse_all-is_ok now later records,
  )

  -- The rows of parsed records are stored where the records are known, and the other way round.
  abbrev pub IsParsed : List Record → Result (List IndexedTransaction) → Type 0
  IsParsed records (err e) = Unit
  IsParsed records (ok txs) =
      (now : ℕ) (rows : List Row)
      → (All (IsStored rows) (to_rows env now txs) → All (IsKnown rows) records)
        × (All (IsKnown rows) records → All (IsStored rows) (to_rows env now txs))

  pub parse_all-IsParsed :
      (now : ℕ) (records : List Record) → IsParsed records (parse_all env now records)
  unfolding parse_all to_rows
  parse_all-IsParsed now [] = λ now rows. (λ stored. tt, λ known. tt)
  parse_all-IsParsed now (r ∷ records) = elim (Result-cases (parse_horizon_record env now r)) [
    | inl (e, bad) ↦ rw (bad, parse_all) tt
    | inr (tx, good) ↦ elim (Result-cases (parse_all env now records)) [
      | inl (e, bad) ↦ rw (good, bad, parse_all) tt
      | inr (txs, parsed) ↦
          let same = subst (HasHash r) good (parse_horizon_record-HasHash now r) in
          let rest = subst (IsParsed records) parsed (parse_all-IsParsed now records) in
          rw (good, parsed, parse_all)
            (λ now rows. (
              λ stored. (
                ap (λ hash. has_hash hash rows) (sym same) ∙ stored.0,
                (rest now rows).0 stored.1,
              ),
              λ known. (ap (λ hash. has_hash hash rows) same ∙ known.0, (rest now rows).1 known.1),
            ))
    ]
  ]
