-- ===== src/RateLimit/Window.antt =====
-- The sliding window that every limiter promises, as a specification: a call is admitted if fewer
-- than the limit of the calls admitted before are alive.
use apex_chainx_backend.Common.{
  ℕ, ◌+◌, ◌≤◌, ◌<◌, ◌≡◌, refl, inl, inr, String, Bool, List, [], ◌∷◌, ◌++◌, str_eq, eq_iff,
  append-nil, length-filter-le, ltb→lt, ltb, if◌then◌else◌, length, filter, filter-append,
  Bool-cases, arith, length-append, subst,
}

-- A key and the time of a call.
abbrev pub Call : Type 0
Call = String × ℕ

-- The times of the calls of one key.
abbrev pub times : String → List Call → List ℕ
times key [] = []
times key ((k, t) ∷ calls) = let rest = times key calls in if str_eq k key then t ∷ rest else rest

-- The clock does not run backwards.
abbrev pub IsOrdered : ℕ → List Call → Type 0
IsOrdered now [] = Unit
IsOrdered now ((k, t) ∷ calls) = (now ≤ t) × IsOrdered t calls

module _ (limit : ℕ) (live : ℕ → ℕ → Bool) where
  abbrev pub admits : String → ℕ → List Call → Bool
  admits key now past = ltb (length (filter (live now) (times key past))) limit

  -- The calls that the specification admits, after those of `past`.
  unfoldable pub promised : List Call → List Call → List Call
  promised [] past = past
  promised ((key, now) ∷ calls) past =
      promised calls (if admits key now past then past ++ (key, now) ∷ [] else past)

-- The calls that a limiter admits.
module _ {ℓ} {S : Type ℓ} (step : String → ℕ → S → S × Bool) where
  unfoldable pub admitted : List Call → S → List Call → List Call
  admitted [] s past = past
  admitted ((key, now) ∷ calls) s past =
      let (s', allowed) = step key now s in
      admitted calls s' (if allowed then past ++ (key, now) ∷ [] else past)

-- A limiter whose state stands for the calls admitted before keeps the promise.
module _ {ℓ} {S : Type ℓ} (step : String → ℕ → S → S × Bool) (limit : ℕ) (live : ℕ → ℕ → Bool)
    (Stands : ℕ → S → List Call → Type 0)
    (answers : (now : ℕ) (key : String) (s : S) (past : List Call)
      → Stands now s past
      → (step key now s).1 ≡ admits limit live key now past)
    (later : (before now : ℕ) (s : S) (past : List Call)
      → before ≤ now
      → Stands before s past
      → Stands now s past)
    (stands : (now : ℕ) (key : String) (s : S) (past : List Call)
      → Stands now s past
      → Stands now
          (step key now s).0
          (if admits limit live key now past then past ++ (key, now) ∷ [] else past)) where
  pub admitted-promised :
      (calls : List Call) (before : ℕ) (s : S) (past : List Call)
      → IsOrdered before calls
      → Stands before s past
      → admitted step calls s past ≡ promised limit live calls past
  unfolding admitted promised
  admitted-promised [] before s past ordered h = refl
  admitted-promised ((key, now) ∷ calls) before s past (order, ordered) h =
      let here = later before now s past order h in
      rw (answers now key s past here)
        (admitted-promised calls now (step key now s).0 _ ordered (stands now key s past here))

pub times-append :
    (key k : String) (t : ℕ) (past : List Call)
    → times key (past ++ (k, t) ∷ []) ≡ times key past ++ (if str_eq k key then t ∷ [] else [])
times-append key k t [] = ground arith
times-append key k t ((j, u) ∷ past) = ground (arith, times-append key k t past)

-- The moment of the last call.
abbrev pub latest : ℕ → List Call → ℕ
latest now [] = now
latest now ((k, t) ∷ calls) = latest t calls

-- A hit within `window` before a moment, or after it.
abbrev pub within : ℕ → ℕ → ℕ → Bool
within window now t = ltb now (t + window)

module _ (limit window : ℕ) where
  pub fewer_later :
      (xs : List ℕ) (before now : ℕ)
      → before ≤ now
      → length (filter (within window now) xs) ≤ length (filter (within window before) xs)
  fewer_later [] before now h = omega arith
  fewer_later (x ∷ xs) before now h = ground (arith, fewer_later xs before now h)

  one_more :
      (key k : String) (t n : ℕ) (past : List Call)
      → t ≤ n
      → ((m : ℕ) → t ≤ m → length (filter (within window m) (times key past)) ≤ limit)
      → length (
          filter (within window n) (
            times key
              (if admits limit (within window) k t past then past ++ (k, t) ∷ [] else past)))
        ≤ limit
  one_more key k t n past h bound = elim (Bool-cases (admits limit (within window) k t past)) [
    | inr refused ↦ rw refused (bound n h)
    | inl admitted_now ↦ elim (Bool-cases (str_eq k key)) [
      | inr other ↦
          rw (admitted_now, times-append key k t past, other, append-nil (times key past))
            (bound n h)
      | inl own ↦
          let e : k ≡ key = ground (arith, eq_iff k key, own) in
          let room : length (filter (within window t) (times key past)) < limit =
            subst (λ j. length (filter (within window t) (times j past)) < limit) e
              (ltb→lt _ _ admitted_now) in
          let hits = times key past in
          rw
            (
              admitted_now,
              times-append key k t past,
              own,
              filter-append (within window n) hits (t ∷ []),
            )
            (omega (
              arith,
              length-append (filter (within window n) hits) (filter (within window n) (t ∷ [])),
              length-filter-le (within window n) (t ∷ []),
              fewer_later hits t n h,
              room,
            ))
    ]
  ]

  -- At the moment of the last call and later, at most `limit` of the promised calls of a key are
  -- within the window.
  pub promised-le :
      (calls : List Call) (before now : ℕ) (key : String) (past : List Call)
      → IsOrdered before calls
      → ((n : ℕ) → before ≤ n → length (filter (within window n) (times key past)) ≤ limit)
      → latest before calls ≤ now
      → length (filter (within window now) (times key (promised limit (within window) calls past)))
        ≤ limit
  unfolding promised
  promised-le [] before now key past ordered bound h = bound now h
  promised-le ((k, t) ∷ calls) before now key past (order, ordered) bound h =
      promised-le calls t now key _ ordered
        (λ n later. one_more key k t n past later (λ m le. bound m (omega (arith, order, le)))) h
