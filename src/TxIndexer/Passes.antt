-- ===== src/TxIndexer/Passes.antt =====
-- What passes of the indexer (app/services/tx_indexer.py) leave in the table.
use mathlib.Core.List.{append-nil}
use apex_chainx_backend.Common.{
  true, ℕ, ◌≡◌, refl, sym, ap, subst, inl, inr, String, true, Option, List, [], ◌∷◌, ◌++◌, length,
  All, Bool-cases, Option-cases,
}
use apex_chainx_backend.TxIndexer.{
  Result, ok, err, Record, IndexedTransaction, Row, FetchedPage, IndexResult, Env, World, success,
  failure, State, fetch_page, parse_all, to_rows, upsert_many, index_page, run_once,
}
use apex_chainx_backend.TxIndexer.Firsts.{
  AreRowsOf, first_records, AreParsedAs, parse_all-AreParsedAs, firsts-AreRowsOf,
}
use apex_chainx_backend.TxIndexer.Inserted.{hashes_of, IsUnique, IsInserted, insert_all-IsInserted}
use apex_chainx_backend.TxIndexer.Parsed.{
  Result-cases, is_ok, IsKnown, IsParsed, parse_all-IsParsed,
}

module _ (env : Env) where
  -- The table after a page: the old rows, then one for each record that is the first of a hash that
  -- was not stored, in order and with its fields; as many as were counted, unique if the old ones
  -- were. The hash of each record is stored.
  abbrev pub IsKept : ℕ → List Row → List Record → List Row → ℕ → Type 0
  IsKept now rows records rows' count =
      (new : List Row) × (rows' ≡ rows ++ new)
      × AreRowsOf env now (first_records env (hashes_of rows) records) new
      × (length new ≡ count)
      × (IsUnique rows → IsUnique rows')
      × All (IsKnown env rows') records

  upsert_many-IsInserted :
      (world : World) (txs : List IndexedTransaction) (rows : List Row)
      → IsInserted (to_rows env world.now txs) rows (upsert_many env world txs rows)
  unfolding upsert_many to_rows
  upsert_many-IsInserted world [] rows =
      ([], sym (append-nil rows), refl, refl, (λ unique. unique), tt)
  upsert_many-IsInserted world (tx ∷ txs) rows = elim (Bool-cases world.write_fails) [
    | inl fails ↦ rw (fails, upsert_many) tt
    | inr works ↦
        rw (works, upsert_many) (insert_all-IsInserted (to_rows env world.now (tx ∷ txs)) rows)
  ]

  abbrev IsIndexed : ℕ → World → Option String → List Row → Result (List Row × IndexResult) → Type 0
  IsIndexed max_attempts world cursor rows (err e) = Unit
  IsIndexed max_attempts world cursor rows (ok (rows', result)) =
      (page : FetchedPage) × (fetch_page max_attempts world cursor ≡ ok page)
      × (result.next_cursor ≡ page.next_cursor)
      × (is_ok (parse_all env world.now page.records) ≡ true)
      × IsKept world.now rows page.records rows' result.inserted

  index_page-IsIndexed :
      (max_attempts : ℕ) (world : World) (cursor : Option String) (rows : List Row)
      → IsIndexed max_attempts world cursor rows (index_page env max_attempts world cursor rows)
  unfolding index_page
  index_page-IsIndexed max_attempts world cursor rows =
      elim (Result-cases (fetch_page max_attempts world cursor)) [
        | inl (e, down) ↦ rw (down, index_page) tt
        | inr (page, fetched) ↦ elim (Result-cases (parse_all env world.now page.records)) [
          | inl (e, bad) ↦ rw (fetched, bad, index_page) tt
          | inr (txs, parsed) ↦ elim (Option-cases (upsert_many env world txs rows)) [
            | inl refused ↦ rw (fetched, parsed, refused, index_page) tt
            | inr (result, done) ↦
                let (new, joined, firsts, counted, unique, stored) =
                  subst (IsInserted (to_rows env world.now txs) rows) done
                    (upsert_many-IsInserted world txs rows) in
                let known =
                  (subst (IsParsed env page.records) parsed
                      (parse_all-IsParsed env world.now page.records) world.now result.0).0
                    stored in
                let written =
                  subst (AreRowsOf env world.now (first_records env (hashes_of rows) page.records))
                    (sym firsts)
                    (firsts-AreRowsOf env world.now (hashes_of rows) page.records
                      (to_rows env world.now txs)
                      (subst (AreParsedAs env world.now page.records) parsed
                        (parse_all-AreParsedAs env world.now page.records))) in
                rw (fetched, parsed, done, index_page)
                  (
                    page,
                    fetched,
                    refl,
                    ap is_ok parsed,
                    (new, joined, written, counted, unique, known),
                  )
          ]
        ]
      ]

  -- What one pass does to the table and to the recorder.
  abbrev pub IsPassed : ℕ → World → Option String → State → State × Result IndexResult → Type 0
  IsPassed max_attempts world cursor s (s', err e) =
      (s'.rows ≡ s.rows) × (s'.recorded ≡ s.recorded ++ failure e ∷ [])
  IsPassed max_attempts world cursor s (s', ok result) =
      (s'.recorded ≡ s.recorded ++ success result.next_cursor result.inserted ∷ [])
      × (page : FetchedPage) × (fetch_page max_attempts world cursor ≡ ok page)
      × (result.next_cursor ≡ page.next_cursor)
      × (is_ok (parse_all env world.now page.records) ≡ true)
      × IsKept world.now s.rows page.records s'.rows result.inserted

  -- A pass that fails leaves the table as it is and records its error. A pass that succeeds records
  -- its cursor and its count, and all records of its page are valid. The old rows stay in their order,
  -- and after them comes one row for each record that is the first of a transaction hash that was not
  -- stored, with the type, amount, asset, addresses and time of that record, as many as the pass
  -- counts. Hashes and identifiers stay unique if they were, and the hash of every record is stored.
  pub run_once-IsPassed :
      (max_attempts : ℕ) (world : World) (cursor : Option String) (s : State)
      → IsPassed max_attempts world cursor s (run_once env max_attempts world cursor s)
  unfolding run_once
  run_once-IsPassed max_attempts world cursor s =
      let indexed = index_page-IsIndexed max_attempts world cursor s.rows in
      elim (Result-cases (index_page env max_attempts world cursor s.rows)) [
        | inl (e, bad) ↦ rw (bad, run_once) (refl, refl)
        | inr (page, good) ↦
            let (fetched_page, fetched, next, valid, kept) =
              subst (IsIndexed max_attempts world cursor s.rows) good indexed in
            rw (good, run_once) (refl, fetched_page, fetched, next, valid, kept)
      ]
