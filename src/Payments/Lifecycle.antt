-- ===== src/Payments/Lifecycle.antt =====
-- The life of a payment over any sequence of the operations of `PaymentRepository` that the endpoints
-- and the settlement of an outage call (app/repositories/payment_repository.py).
use apex_chainx_backend.Common.{
  ◌≡◌, ◌≢◌, sym, ap, ◌∙◌, String, Bool, true, some, List, [], ◌∷◌, arith, str_eq, eq_iff, All,
  Bool-cases, inl, inr, first-append, first-test, first-update_first-ne, All-append, All-first,
  All-update_first,
}
use apex_chainx_backend.Payments.{
  ok, validate_transition, Payment, Rows, Settings, get, reconciled, retried,
}
use apex_chainx_backend.Payments.Change.{
  Op, step, run, IsPayment, validate_allows, reconciled-IsPayment, retried-IsPayment, Change, kept,
  moved, tried, added, step-Change,
}

Change-IsPayment :
    (settings : Settings) (rows rows' : Rows)
    → Change settings rows rows'
    → All IsPayment rows
    → All IsPayment rows'
unfolding get
Change-IsPayment settings rows _ kept hs = hs
Change-IsPayment settings rows _ (moved id status now p found allowed) hs =
    let test : Payment → Bool = λ q. str_eq q.id id in
    All-update_first IsPayment test (reconciled status now) rows p found
      (reconciled-IsPayment p status now (All-first IsPayment test rows p found hs) allowed) hs
Change-IsPayment settings rows _ (tried id now p found few allowed) hs =
    let test : Payment → Bool = λ q. str_eq q.id id in
    All-update_first IsPayment test (retried now) rows p found
      (retried-IsPayment p now (All-first IsPayment test rows p found hs) few allowed) hs
Change-IsPayment settings rows _ (added p hp free) hs =
    All-append IsPayment rows (p ∷ []) hs (hp, tt)

-- Whatever calls are made, in any order, on a table where it holds before: every payment has a known
-- status and at most three retries, it has a time of confirmation exactly when it is confirmed, and a
-- time of the last retry exactly when there was a retry.
pub run-IsPayment :
    (settings : Settings) (ops : List Op) (rows : Rows)
    → All IsPayment rows
    → All IsPayment (run settings ops rows)
run-IsPayment settings [] rows hs = hs
run-IsPayment settings (o ∷ ops) rows hs =
    run-IsPayment settings ops (step settings o rows)
      (Change-IsPayment settings rows (step settings o rows) (step-Change settings o rows) hs)

confirmed-refused :
    (current next_status : String)
    → current ≡ "confirmed"
    → validate_transition current next_status ≢ ok tt
confirmed-refused current next_status e h = elim (validate_allows current next_status h) [
  | inl (e', _) ↦ ground (arith, eq_iff "pending" "confirmed", sym e' ∙ e)
  | inr (e', _) ↦ ground (arith, eq_iff "failed" "confirmed", sym e' ∙ e)
]

-- A row that a query finds under a second id too is the same row.
same-row :
    (id id' : String) (p q : Payment) (rows : Rows)
    → get id rows ≡ some p
    → get id' rows ≡ some q
    → str_eq q.id id ≡ true
    → q ≡ p
unfolding get
same-row id id' p q rows h h' same =
    let e : id' ≡ id =
      ground
        (arith, eq_iff q.id id, eq_iff q.id id', first-test (λ x. str_eq x.id id') rows q h') in
    some-inj q p (sym h' ∙ ap (λ i. get i rows) e ∙ h)
  where
    some-inj : (q p : Payment) → some q ≡ some p → q ≡ p
    some-inj q p h = ground arith

Change-confirmed :
    (settings : Settings) (id : String) (p : Payment) (rows rows' : Rows)
    → Change settings rows rows'
    → get id rows ≡ some p
    → p.status ≡ "confirmed"
    → get id rows' ≡ some p
unfolding get
Change-confirmed settings id p rows _ kept h e = h
Change-confirmed settings id p rows _ (moved id' status now q found allowed) h e =
    elim (Bool-cases (str_eq q.id id)) [
      | inl same ↦
          let e' = ap (λ x. x.status) (same-row id id' p q rows h found same) in
          ground (arith, confirmed-refused q.status status (e' ∙ e) allowed)
      | inr other ↦
          first-update_first-ne (λ x. str_eq x.id id') (λ x. str_eq x.id id) (reconciled status now)
            rows q found other other
          ∙ h
    ]
Change-confirmed settings id p rows _ (tried id' now q found few allowed) h e =
    elim (Bool-cases (str_eq q.id id)) [
      | inl same ↦
          let e' = ap (λ x. x.status) (same-row id id' p q rows h found same) in
          ground (arith, confirmed-refused q.status "pending" (e' ∙ e) allowed)
      | inr other ↦
          first-update_first-ne (λ x. str_eq x.id id') (λ x. str_eq x.id id) (retried now) rows q
            found other other
          ∙ h
    ]
Change-confirmed settings id p rows _ (added q hq free) h e =
    ground (arith, first-append (λ x. str_eq x.id id) rows (q ∷ []))

-- A confirmed payment is final: whatever calls follow, its row stays as it is.
pub confirmed_final :
    (settings : Settings) (ops : List Op) (id : String) (p : Payment) (rows : Rows)
    → get id rows ≡ some p
    → p.status ≡ "confirmed"
    → get id (run settings ops rows) ≡ some p
confirmed_final settings [] id p rows h e = h
confirmed_final settings (o ∷ ops) id p rows h e =
    confirmed_final settings ops id p (step settings o rows)
      (Change-confirmed settings id p rows (step settings o rows) (step-Change settings o rows) h e)
      e
