-- ===== src/TxIndexer/Firsts.antt =====
-- The rows that the records of a page stand for (app/services/tx_indexer.py).
use Prim.Native.String.{◌++◌ as append}
use apex_chainx_backend.Common.{
  ℕ, ◌*◌, ◌/◌, ◌^◌, ◌≡◌, refl, sym, ap, subst, ◌∙◌, inl, inr, ◌⊎◌, String, Bool, true, false, ◌&&◌,
  Option, some, List, [], ◌∷◌, ◌++◌, str_eq, ltb, get_or, any, if◌then◌else◌, Bool-cases,
  Option-cases, arith,
}
use apex_chainx_backend.TxIndexer.{
  Result, ok, err, Record, IndexedTransaction, Row, Env, Decimal, not_finite, finite, amount_text,
  or_default, to_stroops, parse_created_at, parse_horizon_record, parse_all, id_of, to_rows,
}
use apex_chainx_backend.TxIndexer.Inserted.{first_rows}
use apex_chainx_backend.TxIndexer.Parsed.{Result-cases}

module _ (env : Env) where
  -- The hash of a record.
  abbrev pub hash_of : Record → String
  hash_of r = env.strip (get_or r.transaction_hash "")

  -- The amount in stroops is the decimal of the record times 10 ^ 7, cut to an integer; the decimal
  -- is finite and not below 0.
  abbrev pub IsAmount : String → ℕ → Type 0
  IsAmount raw amount =
      (negative : Bool) × (digits : ℕ) × (scale : ℕ) × (env.decimal raw
        ≡ some (finite negative digits scale))
      × (negative && ltb 0 digits ≡ false)
      × (amount ≡ digits * 10 ^ 7 / 10 ^ scale)

  -- The time of a record, that of the pass where it has none.
  abbrev pub IsTime : ℕ → String → ℕ → Type 0
  IsTime now raw time =
      ((str_eq raw "" ≡ true) × (time ≡ now))
      ⊎ ((str_eq raw "" ≡ false) × (env.fromisoformat raw ≡ some time))

  abbrev pub defaulted : String → String → String
  defaulted given fallback = if str_eq given "" then fallback else given

  -- The fields of a record, with the defaults of those that may be missing. A missing amount is 0, a
  -- null is the text of None, which is no decimal.
  abbrev pub IsTransactionOf : ℕ → Record → IndexedTransaction → Type 0
  IsTransactionOf now r tx =
      (tx.transaction_hash ≡ hash_of r)
      × (str_eq (hash_of r) "" ≡ false)
      × (tx.type_ ≡ defaulted (get_or r.type_ "") "payment")
      × IsAmount (get_or (get_or r.amount (some "0")) "None") tx.amount
      × (tx.asset_code ≡ defaulted (get_or r.asset_code "") "XLM")
      × (tx.from_address ≡ get_or r.sender "")
      × (tx.to_address ≡ get_or r.receiver "")
      × IsTime now (get_or r.created_at "") tx.created_at

  abbrev pub IsRowOf : ℕ → Record → Row → Type 0
  IsRowOf now r row =
      IsTransactionOf now r row.tx
      × (row.id ≡ append "txidx_" (env.prefix24 (hash_of r)))
      × (row.status ≡ "confirmed")
      × (row.confirmed_at ≡ now)
      × (row.retry_count ≡ 0)

  -- One row for each record, in order.
  pub data AreRowsOf (now : ℕ) : List Record → List Row → Type 0 where
    nothing : AreRowsOf now [] []
    one :
        (r : Record) (row : Row) (records : List Record) (rows : List Row)
        → IsRowOf now r row
        → AreRowsOf now records rows
        → AreRowsOf now (r ∷ records) (row ∷ rows)

  -- The records that are the first of their hash, less those whose hash has been seen.
  abbrev pub first_records : List String → List Record → List Record
  first_records seen [] = []
  first_records seen (r ∷ records) =
      if any (λ hash. str_eq hash (hash_of r)) seen
      then first_records seen records
      else r ∷ first_records (seen ++ hash_of r ∷ []) records

  decimal-IsAmount :
      (raw : String) (amount : ℕ) (value : Decimal)
      → env.decimal raw ≡ some value
      → to_stroops env raw ≡ ok amount
      → IsAmount raw amount
  unfolding to_stroops
  decimal-IsAmount raw amount not_finite e h = ground (arith, e)
  decimal-IsAmount raw amount (finite negative digits scale) e h =
      (negative, digits, scale, e, ground (arith, e), ground (arith, e))

  to_stroops-IsAmount :
      (raw : String) (amount : ℕ) → to_stroops env raw ≡ ok amount → IsAmount raw amount
  unfolding to_stroops
  to_stroops-IsAmount raw amount h = elim (Option-cases (env.decimal raw)) [
    | inl invalid ↦ ground arith
    | inr (value, e) ↦ decimal-IsAmount raw amount value e h
  ]

  amount_text_lem : (r : Record) → amount_text r ≡ get_or (get_or r.amount (some "0")) "None"
  unfolding amount_text
  amount_text_lem r = elim (Option-cases r.amount) [
    | inl missing ↦ rw (missing, amount_text) refl
    | inr (value, given) ↦ elim (Option-cases value) [
      | inl null ↦ rw (given, null, amount_text) refl
      | inr (text, e) ↦ rw (given, e, amount_text) refl
    ]
  ]

  parse_created_at-IsTime :
      (now : ℕ) (raw : Option String) (time : ℕ)
      → parse_created_at env now raw ≡ ok time
      → IsTime now (get_or raw "") time
  unfolding parse_created_at
  parse_created_at-IsTime now raw time h = elim (Bool-cases (str_eq (get_or raw "") "")) [
    | inl absent ↦ inl (absent, ground arith)
    | inr given ↦ inr (given, ground arith)
  ]

  abbrev IsParsedAs : ℕ → Record → Result IndexedTransaction → Type 0
  IsParsedAs now r (err e) = Unit
  IsParsedAs now r (ok tx) = IsTransactionOf now r tx

  parse_horizon_record-IsParsedAs :
      (now : ℕ) (r : Record) → IsParsedAs now r (parse_horizon_record env now r)
  unfolding parse_horizon_record or_default
  parse_horizon_record-IsParsedAs now r = elim (Bool-cases (str_eq (hash_of r) "")) [
    | inl missing ↦ rw (missing, parse_horizon_record) tt
    | inr given ↦ elim (Result-cases (to_stroops env (amount_text r))) [
      | inl (e, invalid) ↦ rw (given, invalid, parse_horizon_record) tt
      | inr (amount, valid) ↦ elim (Result-cases (parse_created_at env now r.created_at)) [
        | inl (e, unread) ↦ rw (given, valid, unread, parse_horizon_record) tt
        | inr (time, read) ↦
            let exact =
              subst (λ raw. IsAmount raw amount) (amount_text_lem r)
                (to_stroops-IsAmount (amount_text r) amount valid) in
            rw (given, valid, read, parse_horizon_record)
              (
                refl,
                given,
                refl,
                exact,
                refl,
                refl,
                refl,
                parse_created_at-IsTime now r.created_at time read,
              )
      ]
    ]
  ]

  abbrev pub AreParsedAs : ℕ → List Record → Result (List IndexedTransaction) → Type 0
  AreParsedAs now records (err e) = Unit
  AreParsedAs now records (ok txs) = AreRowsOf now records (to_rows env now txs)

  pub parse_all-AreParsedAs :
      (now : ℕ) (records : List Record) → AreParsedAs now records (parse_all env now records)
  unfolding parse_all to_rows id_of
  parse_all-AreParsedAs now [] = nothing
  parse_all-AreParsedAs now (r ∷ records) = elim (Result-cases (parse_horizon_record env now r)) [
    | inl (e, bad) ↦ rw (bad, parse_all) tt
    | inr (tx, good) ↦ elim (Result-cases (parse_all env now records)) [
      | inl (e, bad) ↦ rw (good, bad, parse_all) tt
      | inr (txs, parsed) ↦
          let fields = subst (IsParsedAs now r) good (parse_horizon_record-IsParsedAs now r) in
          let rest = subst (AreParsedAs now records) parsed (parse_all-AreParsedAs now records) in
          let id = ap (λ hash. append "txidx_" (env.prefix24 hash)) fields.0 in
          rw (good, parsed, parse_all) (one r _ records _ (fields, id, refl, refl, refl) rest)
    ]
  ]

  -- Taking the first of each hash keeps the correspondence.
  pub firsts-AreRowsOf :
      (now : ℕ) (seen : List String) (records : List Record) (rows : List Row)
      → AreRowsOf now records rows
      → AreRowsOf now (first_records seen records) (first_rows seen rows)
  firsts-AreRowsOf now seen _ _ nothing = nothing
  firsts-AreRowsOf now seen _ _ (one r row records rows here later) =
      let same = here.0.0 in
      let tested = ap (λ hash. any (λ known. str_eq known hash) seen) same in
      elim (Bool-cases (any (λ known. str_eq known row.tx.transaction_hash) seen)) [
        | inl known ↦
            let known' = sym tested ∙ known in
            rw (known, known') (firsts-AreRowsOf now seen records rows later)
        | inr new ↦
            let new' = sym tested ∙ new in
            let rest =
              subst
                (λ hash.
                  AreRowsOf now (first_records (seen ++ hash ∷ []) records)
                    (first_rows (seen ++ row.tx.transaction_hash ∷ []) rows))
                same
                (firsts-AreRowsOf now (seen ++ row.tx.transaction_hash ∷ []) records rows later) in
            rw (new, new') (one r row _ _ here rest)
      ]
