-- ===== src/Audit/Evident.antt =====
-- What the verification of the chain notices and what it does not (app/services/audit_log.py).
use apex_chainx_backend.Common.{
  suc, ◌≡◌, refl, sym, ap, ap₂, ◌∙◌, subst, inl, inr, String, true, false, Option, none, some, List,
  [], ◌∷◌, ◌++◌, map, str_eq, eq_iff, length, Option-cases, arith, All, All-map,
}
use apex_chainx_backend.Audit.{
  Hashed, Entry, Log, last_hash_of, same_hash, compute_entry_hash, first_bad, report_on,
  verify_chain,
}
use apex_chainx_backend.Audit.Chain.{report_on-lem}

-- The fields that the chain covers.
abbrev pub covered : Entry → Hashed
covered e = record {
  prev_hash = e.prev_hash;
  event_type = e.event_type;
  details = e.details;
  correlation_id = e.correlation_id;
  created_at = e.created_at;
}

-- The row under another name.
abbrev pub reattributed : (Entry → Option String × Option String) → Entry → Entry
reattributed f e = record e { email = (f e).0; actor_id = (f e).1 }

same_hash-eq : (a b : Option String) → same_hash a b ≡ true → a ≡ b
unfolding same_hash
same_hash-eq none none h = refl
same_hash-eq (some a) (some b) h = ground (arith, eq_iff a b, h)
same_hash-eq none (some b) h = ground arith
same_hash-eq (some a) none h = ground arith

module _ (sha256 : Hashed → String) where
  -- A row that fits and the rows after it.
  first_bad-none :
      (previous : Option String) (e : Entry) (es : List Entry)
      → first_bad sha256 previous (e ∷ es) ≡ none
      → (e.prev_hash ≡ previous)
        × (e.entry_hash ≡ sha256 (covered e))
        × (first_bad sha256 (some e.entry_hash) es ≡ none)
  unfolding first_bad compute_entry_hash
  first_bad-none previous e es h =
      let linked : same_hash e.prev_hash previous ≡ true = ground (arith, h) in
      let sealed : str_eq e.entry_hash (compute_entry_hash sha256 previous e) ≡ true =
        ground (arith, h) in
      let link = same_hash-eq e.prev_hash previous linked in
      let hash : e.entry_hash ≡ compute_entry_hash sha256 previous e =
        ground (arith, eq_iff e.entry_hash (compute_entry_hash sha256 previous e), sealed) in
      (link, hash ∙ ap (λ p. compute_entry_hash sha256 p e) (sym link), ground (arith, h))

  -- No two rows of the lists that differ in what the chain covers have the same hash.
  abbrev pub IsCollisionFree : List Entry → List Entry → Type 0
  IsCollisionFree xs ys =
      All (λ x. All (λ y. sha256 (covered x) ≡ sha256 (covered y) → covered x ≡ covered y) ys) xs

  same_rows :
      (p q : Option String) (xs ys : List Entry)
      → IsCollisionFree xs ys
      → length xs ≡ length ys
      → first_bad sha256 p xs ≡ none
      → first_bad sha256 q ys ≡ none
      → last_hash_of p xs ≡ last_hash_of q ys
      → (p ≡ q) × (map covered xs ≡ map covered ys)
  unfolding last_hash_of
  same_rows p q [] [] inj n hx hy e = (e, refl)
  same_rows p q (x ∷ xs) [] inj n hx hy e = ground arith
  same_rows p q [] (y ∷ ys) inj n hx hy e = ground arith
  same_rows p q (x ∷ xs) (y ∷ ys) inj n hx hy e =
      let (link, sealed, rest) = first_bad-none p x xs hx in
      let (link', sealed', rest') = first_bad-none q y ys hy in
      let later =
        All-map
          (λ a. All (λ b. sha256 (covered a) ≡ sha256 (covered b) → covered a ≡ covered b) (y ∷ ys))
          (λ a. All (λ b. sha256 (covered a) ≡ sha256 (covered b) → covered a ≡ covered b) ys) xs
          (λ a h. h.1) inj.1 in
      let (hash, rows) =
        same_rows (some x.entry_hash) (some y.entry_hash) xs ys later (omega (arith, n)) rest rest'
          e in
      let same : x.entry_hash ≡ y.entry_hash = ground (arith, hash) in
      let row = inj.0.0 (sym sealed ∙ same ∙ sealed') in
      (sym link ∙ ap (λ h. h.prev_hash) row ∙ link', ap₂ (λ a b. a ∷ b) row rows)

  report_on-good :
      (es : List Entry) → (report_on sha256 es).verified ≡ true → first_bad sha256 none es ≡ none
  report_on-good es good =
      let verdict = ap (λ r. r.verified) (report_on-lem sha256 es) in
      elim (Option-cases (first_bad sha256 none es)) [
        | inl none_bad ↦ none_bad
        | inr (id, bad) ↦ ground (arith, verdict, good, bad)
      ]

  first_bad-reattributed :
      (f : Entry → Option String × Option String) (previous : Option String) (es : List Entry)
      → (first_bad sha256 previous (map (reattributed f) es) ≡ first_bad sha256 previous es)
        × (last_hash_of previous (map (reattributed f) es) ≡ last_hash_of previous es)
        × (length (map (reattributed f) es) ≡ length es)
  unfolding first_bad last_hash_of compute_entry_hash
  first_bad-reattributed f previous [] = (refl, refl, refl)
  first_bad-reattributed f previous (e ∷ es) =
      let (bad, last, count) = first_bad-reattributed f (some e.entry_hash) es in
      (rw bad refl, last, ap suc count)

  linked_to :
      (h : String) (xs : List Entry) (e : Entry) (kept : List Entry)
      → first_bad sha256 (some h) (xs ++ e ∷ kept) ≡ none
      → (before : String) × (e.prev_hash ≡ some before)
  linked_to h [] e kept good = (h, (first_bad-none (some h) e kept good).0)
  linked_to h (x ∷ xs) e kept good =
      linked_to x.entry_hash xs e kept (first_bad-none (some h) x (xs ++ e ∷ kept) good).2

  first_bad-unlinked :
      (e : Entry) (es : List Entry) (before : String)
      → e.prev_hash ≡ some before
      → first_bad sha256 none (e ∷ es) ≡ some e.id
  unfolding first_bad same_hash
  first_bad-unlinked e es before link = rw (link, first_bad) refl

  -- If the hash does not collide on the rows of two logs with the same report, which verifies, then
  -- they agree in the type, the details, the correlation, the time and the link of every row.
  pub verify_chain-covered :
      (log other : Log)
      → IsCollisionFree other.entries log.entries
      → (verify_chain sha256 log).verified ≡ true
      → verify_chain sha256 other ≡ verify_chain sha256 log
      → map covered other.entries ≡ map covered log.entries
  unfolding verify_chain
  verify_chain-covered log other inj good same =
      let this = report_on-lem sha256 log.entries in
      let that = report_on-lem sha256 other.entries in
      (same_rows none none other.entries log.entries inj
        (sym (ap (λ r. r.total_entries) that)
          ∙ ap (λ r. r.total_entries) same
          ∙ ap (λ r. r.total_entries) this)
        (report_on-good other.entries (ap (λ r. r.verified) same ∙ good))
        (report_on-good log.entries good)
        (sym (ap (λ r. r.last_hash) that)
          ∙ ap (λ r. r.last_hash) same
          ∙ ap (λ r. r.last_hash) this)).1

  -- The report does not depend on the e-mail addresses and the actors of the rows.
  pub verify_chain-reattributed :
      (f : Entry → Option String × Option String) (log : Log)
      → verify_chain sha256 (record log { entries = map (reattributed f) log.entries })
        ≡ verify_chain sha256 log
  unfolding verify_chain
  verify_chain-reattributed f log =
      let (bad, last, count) = first_bad-reattributed f none log.entries in
      rw
        (
          report_on-lem sha256 log.entries,
          report_on-lem sha256 (map (reattributed f) log.entries),
          bad,
          last,
          count,
        )
        refl

  -- Of a log that verifies, the rows after a first part that is cut off do not verify: the first of
  -- them is reported.
  pub verify_chain-cut :
      (x e : Entry) (cut kept : List Entry) (log : Log)
      → log.entries ≡ x ∷ cut ++ e ∷ kept
      → (verify_chain sha256 log).verified ≡ true
      → let pruned = verify_chain sha256 (record log { entries = e ∷ kept }) in
        (pruned.verified ≡ false) × (pruned.first_bad_id ≡ some e.id)
  unfolding verify_chain
  verify_chain-cut x e cut kept log parts good =
      let whole =
        subst (λ es. first_bad sha256 none es ≡ none) parts (report_on-good log.entries good) in
      let rest = (first_bad-none none x (cut ++ e ∷ kept) whole).2 in
      let (before, link) = linked_to x.entry_hash cut e kept rest in
      let bad = first_bad-unlinked e kept before link in
      rw (report_on-lem sha256 (e ∷ kept), bad) (refl, refl)
