-- ===== src/TxIndexer/Inserted.antt =====
-- What INSERT ... ON CONFLICT (transaction_hash) DO NOTHING of
-- app/repositories/tx_indexer_repository.py leaves in the table.
use mathlib.Core.List.{append-nil, append_assoc}
use apex_chainx_backend.Common.{
  map, any, str_eq, if◌then◌else◌, ℕ, suc, ◌≡◌, refl, sym, ap, subst, ◌∙◌, inl, inr, String, true,
  false, ◌||◌, Option, none, some, List, [], ◌∷◌, ◌++◌, eq_iff, length, All, Bool-cases,
  Option-cases, arith,
}
use apex_chainx_backend.TxIndexer.{Row, has_hash, has_id, insert_all}

-- No two rows share a transaction hash or an identifier.
abbrev pub IsUnique : List Row → Type 0
IsUnique [] = Unit
IsUnique (row ∷ rows) =
    (has_hash row.tx.transaction_hash rows ≡ false) × (has_id row.id rows ≡ false) × IsUnique rows

abbrev pub IsStored : List Row → Row → Type 0
IsStored rows row = has_hash row.tx.transaction_hash rows ≡ true

pub has_hash-append :
    (hash : String) (rows new : List Row)
    → has_hash hash (rows ++ new) ≡ has_hash hash rows || has_hash hash new
unfolding has_hash
has_hash-append hash [] new = refl
has_hash-append hash (row ∷ rows) new = ground (arith, has_hash-append hash rows new)

has_id-append :
    (id : String) (rows new : List Row) → has_id id (rows ++ new) ≡ has_id id rows || has_id id new
unfolding has_id
has_id-append id [] new = refl
has_id-append id (row ∷ rows) new = ground (arith, has_id-append id rows new)

pub has_hash-append_left :
    (hash : String) (rows new : List Row)
    → has_hash hash rows ≡ true
    → has_hash hash (rows ++ new) ≡ true
has_hash-append_left hash rows new known = ground (arith, has_hash-append hash rows new)

IsUnique-append :
    (row : Row) (rows : List Row)
    → has_hash row.tx.transaction_hash rows ≡ false
    → has_id row.id rows ≡ false
    → IsUnique rows
    → IsUnique (rows ++ row ∷ [])
unfolding has_hash has_id
IsUnique-append row [] new_hash new_id unique = (refl, refl, tt)
IsUnique-append row (r ∷ rows) new_hash new_id (hash, id, unique) = (
  ground (
    arith,
    has_hash-append r.tx.transaction_hash rows (row ∷ []),
    eq_iff r.tx.transaction_hash row.tx.transaction_hash,
    eq_iff row.tx.transaction_hash r.tx.transaction_hash,
  ),
  ground (arith, has_id-append r.id rows (row ∷ []), eq_iff r.id row.id, eq_iff row.id r.id),
  IsUnique-append row rows (ground arith) (ground arith) unique,
)

abbrev pub hashes_of : List Row → List String
hashes_of rows = map (λ row. row.tx.transaction_hash) rows

-- The rows that are the first of their hash, less those whose hash has been seen.
abbrev pub first_rows : List String → List Row → List Row
first_rows seen [] = []
first_rows seen (row ∷ rows) =
    if any (λ hash. str_eq hash row.tx.transaction_hash) seen
    then first_rows seen rows
    else row ∷ first_rows (seen ++ row.tx.transaction_hash ∷ []) rows

hashes_of-append :
    (rows : List Row) (row : Row)
    → hashes_of (rows ++ row ∷ []) ≡ hashes_of rows ++ row.tx.transaction_hash ∷ []
hashes_of-append [] row = refl
hashes_of-append (r ∷ rows) row =
    ap (λ hashes. r.tx.transaction_hash ∷ hashes) (hashes_of-append rows row)

any-hashes_of :
    (hash : String) (rows : List Row)
    → any (λ known. str_eq known hash) (hashes_of rows) ≡ has_hash hash rows
unfolding has_hash
any-hashes_of hash [] = refl
any-hashes_of hash (row ∷ rows) = ground (arith, any-hashes_of hash rows)

-- The table after an insertion: the old rows, then those of the statement that are the first of a
-- hash that was not stored; as many as were counted, unique if the old ones were. The hash of each
-- row of the statement is stored.
abbrev pub IsInserted : List Row → List Row → Option (List Row × ℕ) → Type 0
IsInserted more rows none = Unit
IsInserted more rows (some (rows', count)) =
    (new : List Row) × (rows' ≡ rows ++ new)
    × (new ≡ first_rows (hashes_of rows) more)
    × (length new ≡ count)
    × (IsUnique rows → IsUnique rows')
    × All (IsStored rows') more

IsInserted-known :
    (row : Row) (more rows : List Row) (result : Option (List Row × ℕ))
    → IsStored rows row
    → IsInserted more rows result
    → IsInserted (row ∷ more) rows result
IsInserted-known row more rows none known inserted = tt
IsInserted-known row more rows (some (rows', count)) known
      (new, e, firsts, counted, unique, stored) =
    (
      new,
      e,
      rw (any-hashes_of row.tx.transaction_hash rows, known) firsts,
      counted,
      unique,
      (rw e (has_hash-append_left row.tx.transaction_hash rows new known), stored),
    )

-- One more row, and the count of it.
abbrev counted_one : Option (List Row × ℕ) → Option (List Row × ℕ)
counted_one none = none
counted_one (some result) = some (result.0, suc result.1)

IsInserted-fresh :
    (row : Row) (more rows : List Row) (result : Option (List Row × ℕ))
    → has_hash row.tx.transaction_hash rows ≡ false
    → has_id row.id rows ≡ false
    → IsInserted more (rows ++ row ∷ []) result
    → IsInserted (row ∷ more) rows (counted_one result)
unfolding has_hash
IsInserted-fresh row more rows none new_hash new_id inserted = tt
IsInserted-fresh row more rows (some (rows', count)) new_hash new_id
      (new, e, firsts, counted, unique, stored) =
    let joined : rows' ≡ rows ++ row ∷ new = e ∙ append_assoc rows (row ∷ []) new in
    (
      row ∷ new,
      joined,
      rw (any-hashes_of row.tx.transaction_hash rows, new_hash)
          (ap (λ later. row ∷ later)
            (firsts ∙ ap (λ seen. first_rows seen more) (hashes_of-append rows row))),
      ap suc counted,
      λ old. unique (IsUnique-append row rows new_hash new_id old),
      (
        rw joined (
            ground (
              arith,
              has_hash-append row.tx.transaction_hash rows (row ∷ new),
              eq_iff row.tx.transaction_hash row.tx.transaction_hash,
            )),
        stored,
      ),
    )

pub insert_all-IsInserted : (more rows : List Row) → IsInserted more rows (insert_all more rows)
unfolding insert_all
insert_all-IsInserted [] rows = ([], sym (append-nil rows), refl, refl, (λ unique. unique), tt)
insert_all-IsInserted (row ∷ more) rows =
    elim (Bool-cases (has_hash row.tx.transaction_hash rows)) [
      | inl known ↦
          rw (known, insert_all)
            (IsInserted-known row more rows (insert_all more rows) known
              (insert_all-IsInserted more rows))
      | inr new_hash ↦ elim (Bool-cases (has_id row.id rows)) [
        | inl clash ↦ rw (new_hash, clash, insert_all) tt
        | inr new_id ↦
            let fresh =
              IsInserted-fresh row more rows (insert_all more (rows ++ row ∷ [])) new_hash new_id
                (insert_all-IsInserted more (rows ++ row ∷ [])) in
            elim (Option-cases (insert_all more (rows ++ row ∷ []))) [
              | inl failed ↦ rw (new_hash, new_id, failed, insert_all) tt
              | inr (result, e) ↦
                  rw (new_hash, new_id, e, insert_all)
                    (subst (λ r. IsInserted (row ∷ more) rows (counted_one r)) e fresh)
            ]
      ]
    ]

-- Rows that are stored already change nothing.
pub insert_all_known :
    (more rows : List Row) → All (IsStored rows) more → insert_all more rows ≡ some (rows, 0)
unfolding insert_all
insert_all_known [] rows stored = refl
insert_all_known (row ∷ more) rows (known, stored) =
    rw (known, insert_all) (insert_all_known more rows stored)
