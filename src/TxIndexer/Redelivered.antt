-- ===== src/TxIndexer/Redelivered.antt =====
-- Pages that Horizon delivers again to the indexer (app/services/tx_indexer.py).
use mathlib.Core.List.{append-nil, append_assoc}
use apex_chainx_backend.Common.{
  ℕ, ◌≡◌, refl, sym, ap, subst, ◌∙◌, inl, inr, String, true, false, Option, some, List, [], ◌∷◌,
  ◌++◌, get_or, All, All-map, arith,
}
use apex_chainx_backend.TxIndexer.{
  Result, ok, err, Record, IndexedTransaction, Row, FetchedPage, IndexResult, Env, World, State,
  fetch_page, parse_all, to_rows, upsert_many, index_page, run_once,
}
use apex_chainx_backend.TxIndexer.Inserted.{IsStored, has_hash-append_left, insert_all_known}
use apex_chainx_backend.TxIndexer.Parsed.{
  IsKnown, IsParsed, parse_all-IsParsed, Result-cases, is_ok, parse_all-is_ok,
}
use apex_chainx_backend.TxIndexer.Passes.{IsPassed, run_once-IsPassed}

-- The number of new rows that a pass reports.
abbrev pub inserted_of : Result IndexResult → ℕ
inserted_of (err e) = 0
inserted_of (ok result) = result.inserted

module _ (env : Env) (max_attempts : ℕ) where
  -- Passes with any worlds and cursors.
  abbrev pub runs : List (World × Option String) → State → State
  runs [] s = s
  runs ((world, cursor) ∷ passes) s = runs passes (run_once env max_attempts world cursor s).0

  -- The first rows of a table.
  abbrev IsExtended : List Row → List Row → Type 0
  IsExtended rows rows' = (new : List Row) × (rows' ≡ rows ++ new)

  IsPassed-IsExtended :
      (world : World) (cursor : Option String) (s : State) (passed : State × Result IndexResult)
      → IsPassed env max_attempts world cursor s passed
      → IsExtended s.rows passed.0.rows
  IsPassed-IsExtended world cursor s (s', err e) (same, told) = ([], same ∙ sym (append-nil s.rows))
  IsPassed-IsExtended world cursor s (s', ok result)
        (told, page, fetched, next, valid, (new, joined, written, counted, unique, known)) =
      (new, joined)

  runs-IsExtended :
      (passes : List (World × Option String)) (s : State) → IsExtended s.rows (runs passes s).rows
  runs-IsExtended [] s = ([], sym (append-nil s.rows))
  runs-IsExtended ((world, cursor) ∷ passes) s =
      let passed = run_once env max_attempts world cursor s in
      let (new, e) =
        IsPassed-IsExtended world cursor s passed
          (run_once-IsPassed env max_attempts world cursor s) in
      let (newer, e') = runs-IsExtended passes passed.0 in
      (new ++ newer, e' ∙ ap (λ rows. rows ++ newer) e ∙ append_assoc s.rows new newer)

  extended-IsKnown :
      (rows rows' : List Row) (records : List Record)
      → IsExtended rows rows'
      → All (IsKnown env rows) records
      → All (IsKnown env rows') records
  extended-IsKnown rows rows' records (new, e) =
      All-map (IsKnown env rows) (IsKnown env rows') records (λ r known.
        rw e (has_hash-append_left (env.strip (get_or r.transaction_hash "")) rows new known))

  passed-IsKnown :
      (world : World) (cursor : Option String) (s : State) (page : FetchedPage)
      (passed : State × Result IndexResult) (result : IndexResult)
      → passed.1 ≡ ok result
      → fetch_page max_attempts world cursor ≡ ok page
      → IsPassed env max_attempts world cursor s passed
      → (is_ok (parse_all env world.now page.records) ≡ true)
        × All (IsKnown env passed.0.rows) page.records
  passed-IsKnown world cursor s page (s', err e) result done fetched passed =
      absurd (ground (arith, done))
  passed-IsKnown world cursor s page (s', ok r) result done fetched
        (told, page', fetched', next, valid, (new, joined, written, counted, unique, known)) =
      let records : Result FetchedPage → List Record =
        λ p. elim p [ err e ↦ [] | ok q ↦ q.records ] in
      subst (λ rs. (is_ok (parse_all env world.now rs) ≡ true) × All (IsKnown env s'.rows) rs)
        (ap records (sym fetched' ∙ fetched)) (valid, known)

  upsert_many_known :
      (world : World) (txs : List IndexedTransaction) (rows : List Row)
      → All (IsStored rows) (to_rows env world.now txs)
      → world.write_fails ≡ false
      → upsert_many env world txs rows ≡ some (rows, 0)
  unfolding upsert_many to_rows
  upsert_many_known world [] rows stored works = refl
  upsert_many_known world (tx ∷ txs) rows stored works =
      rw (works, upsert_many) (insert_all_known (to_rows env world.now (tx ∷ txs)) rows stored)

  run_once_known :
      (world : World) (cursor : Option String) (s : State) (page : FetchedPage)
      → fetch_page max_attempts world cursor ≡ ok page
      → is_ok (parse_all env world.now page.records) ≡ true
      → world.write_fails ≡ false
      → All (IsKnown env s.rows) page.records
      → let (s', reply) = run_once env max_attempts world cursor s in
        (s'.rows ≡ s.rows) × (inserted_of reply ≡ 0) × (is_ok reply ≡ true)
  unfolding run_once index_page
  run_once_known world cursor s page fetched valid works known =
      elim (Result-cases (parse_all env world.now page.records)) [
        | inl (e, bad) ↦ absurd (ground (arith, sym valid ∙ ap is_ok bad))
        | inr (txs, parsed) ↦
            let stored =
              (subst (IsParsed env page.records) parsed
                  (parse_all-IsParsed env world.now page.records) world.now s.rows).1
                known in
            rw
              (
                fetched,
                parsed,
                upsert_many_known world txs s.rows stored works,
                run_once,
                index_page,
              )
              (refl, refl, refl)
      ]

  -- The records of a page that a pass has indexed are never stored again: whatever passes follow, a
  -- later pass that fetches the same records, from any cursor, and that the database does not fail
  -- succeeds, leaves the table as it is, and reports no new rows.
  pub run_once-redelivered :
      (first again : World) (cursor cursor' : Option String) (s : State)
      (passes : List (World × Option String)) (page page' : FetchedPage) (result : IndexResult)
      → fetch_page max_attempts first cursor ≡ ok page
      → (run_once env max_attempts first cursor s).1 ≡ ok result
      → fetch_page max_attempts again cursor' ≡ ok page'
      → page'.records ≡ page.records
      → again.write_fails ≡ false
      → let s' = runs passes (run_once env max_attempts first cursor s).0 in
        let (s'', reply) = run_once env max_attempts again cursor' s' in
        (s''.rows ≡ s'.rows) × (inserted_of reply ≡ 0) × (is_ok reply ≡ true)
  run_once-redelivered first again cursor cursor' s passes page page' result fetched done fetched'
        same works =
      let passed = run_once env max_attempts first cursor s in
      let s' = runs passes passed.0 in
      let (valid, known) =
        passed-IsKnown first cursor s page passed result done fetched
          (run_once-IsPassed env max_attempts first cursor s) in
      let still =
        extended-IsKnown passed.0.rows s'.rows page.records (runs-IsExtended passes passed.0)
          known in
      let valid' = parse_all-is_ok env first.now again.now page.records ∙ valid in
      run_once_known again cursor' s' page' fetched'
        (ap (λ rs. is_ok (parse_all env again.now rs)) same ∙ valid') works
        (subst (All (IsKnown env s'.rows)) (sym same) still)
