-- ===== src/Poller/Chain.antt =====
-- Polling cycles of app/services/block_poller.py against a chain of ledgers: nothing is skipped, and
-- nothing that was handled is handled again.
use apex_chainx_backend.Common.{
  ℕ, ◌≤◌, ◌≡◌, refl, sym, ap, subst, ◌∙◌, String, Bool, true, not, ◌&&◌, Option, none, some, List,
  [], ◌∷◌, ◌++◌, map, arith, str_eq, str_eq_refl, eq_iff, if◌then◌else◌, any, take, drop,
  take-append-drop, append-nil, Bool-cases, Option-cases, inl, inr,
}
use apex_chainx_backend.Poller.{
  Block, ok, Response, fails, page, Config, Poller, start_at, attempt_of, validate_blocks,
  fetch_with_retry, process, poll_once,
}
use apex_chainx_backend.Poller.Fetch.{Result-cases, fetch_with_retry_lem}

-- The ledgers after a cursor, which is what a source with the chain answers.
abbrev pub next_after : Option String → List Block → List Block
next_after none chain = chain
next_after (some c) [] = []
next_after (some c) (b ∷ chain) =
    let rest = next_after (some c) chain in if str_eq b.cursor c then chain else rest

abbrev pub has_cursor : String → List Block → Bool
has_cursor c = any (λ b. str_eq b.cursor c)

-- No two ledgers share a cursor.
abbrev pub is_distinct : List Block → Bool
is_distinct [] = true
is_distinct (b ∷ chain) = not (has_cursor b.cursor chain) && is_distinct chain

-- A source that fails at some attempts, and else answers the next page.
abbrev pub source : (ℕ → Option Bool) → List Block → Option String → ℕ → ℕ → Response
source fault chain cursor limit attempt = elim (fault attempt) [
  | some retryable ↦ fails retryable
  | none ↦ page (map some (take limit (next_after cursor chain)))
]

-- One cycle: the faults of the source, the answers of the handler, and the time.
pub record Cycle : Type 0 where
  pub fault : ℕ → Option Bool
  pub handler : Block → Bool
  pub now : ℕ

-- The cycles of `run`: the poller after them, and the blocks handled, in order.
unfoldable pub cycles : Config → List Block → List Cycle → Poller → Poller × List Block
unfolding poll_once
cycles cfg chain [] p = (p, [])
cycles cfg chain (c ∷ cs) p =
    let (r, p', handled) =
      poll_once cfg (source c.fault chain p.cursor cfg.batch_size) c.handler c.now p in
    let (p'', later) = cycles cfg chain cs p' in (p'', handled ++ later)

has_cursor-middle :
    (b : Block) (done rest : List Block) → has_cursor b.cursor (done ++ b ∷ rest) ≡ true
has_cursor-middle b [] rest = ground (arith, str_eq_refl b.cursor)
has_cursor-middle b (x ∷ done) rest = ground (arith, has_cursor-middle b done rest)

distinct-before :
    (b : Block) (done rest : List Block)
    → is_distinct (done ++ b ∷ rest) ≡ true
    → next_after (some b.cursor) (done ++ b ∷ rest) ≡ rest
distinct-before b [] rest h = ground (arith, str_eq_refl b.cursor)
distinct-before b (x ∷ done) rest h = elim (Bool-cases (str_eq x.cursor b.cursor)) [
  | inl same ↦
      let e : x.cursor ≡ b.cursor = ground (arith, eq_iff x.cursor b.cursor) in
      absurd
        (ground (arith, ap (λ c. has_cursor c (done ++ b ∷ rest)) e, has_cursor-middle b done rest))
  | inr other ↦ ground (arith, distinct-before b done rest (ground arith))
]

validated : (bs : List Block) → validate_blocks (map some bs) ≡ ok bs
unfolding validate_blocks
validated [] = refl
validated (b ∷ bs) = ground (arith, validated bs)

append-one : (xs : List Block) (b : Block) (ys : List Block) → (xs ++ b ∷ []) ++ ys ≡ xs ++ b ∷ ys
append-one [] b ys = refl
append-one (x ∷ xs) b ys = ap (◌∷◌ x) (append-one xs b ys)

append_assoc : (xs ys zs : List Block) → (xs ++ ys) ++ zs ≡ xs ++ (ys ++ zs)
append_assoc [] ys zs = refl
append_assoc (x ∷ xs) ys zs = ap (◌∷◌ x) (append_assoc xs ys zs)

-- The cursor stands between the blocks that are done and the rest of the chain.
pub IsAt : List Block → List Block → Option String → Type 0
IsAt chain done cursor =
    (rest : List Block) × (chain ≡ done ++ rest) × (next_after cursor chain ≡ rest)

module _ (chain : List Block) (distinct : is_distinct chain ≡ true) where
  process-IsAt :
      (handler : Block → Bool) (blocks : List Block) (p : Poller) (done rest : List Block)
      → chain ≡ done ++ (blocks ++ rest)
      → next_after p.cursor chain ≡ blocks ++ rest
      → let (p', handled, failed) = process handler blocks p in
        IsAt chain (done ++ handled) p'.cursor
  unfolding process IsAt
  process-IsAt handler [] p done rest split at =
      (rest, split ∙ ap (λ xs. xs ++ rest) (sym (append-nil done)), at)
  process-IsAt handler (b ∷ blocks) p done rest split at = elim (Bool-cases (handler b)) [
    | inr refused ↦
        rw (refused, process)
          (
            b ∷ (blocks ++ rest),
            split ∙ ap (λ xs. xs ++ (b ∷ (blocks ++ rest))) (sym (append-nil done)),
            at,
          )
    | inl handled ↦
        let here : next_after (some b.cursor) chain ≡ blocks ++ rest =
          subst (λ c. next_after (some b.cursor) c ≡ blocks ++ rest) (sym split)
            (distinct-before b done (blocks ++ rest)
              (subst (λ c. is_distinct c ≡ true) split distinct)) in
        let (rest', split', at') =
          process-IsAt handler blocks (record p { cursor = some b.cursor }) (done ++ b ∷ []) rest
            (split ∙ sym (append-one done b (blocks ++ rest))) here in
        let later = (process handler blocks (record p { cursor = some b.cursor })).1 in
        rw (handled, process)
          (rest', split' ∙ ap (λ xs. xs ++ rest') (append-one done b later), at')
  ]

  -- What a fetch from the source gives.
  source-page :
      (cfg : Config) (fault : ℕ → Option Bool) (cursor : Option String) (n : ℕ)
      (blocks : List Block)
      → attempt_of (source fault chain cursor cfg.batch_size n) ≡ ok blocks
      → blocks ≡ take cfg.batch_size (next_after cursor chain)
  source-page cfg fault cursor n blocks h = elim (Option-cases (fault n)) [
    | inr (retryable, down) ↦ absurd (ground arith)
    | inl up ↦
        let blocks' = take cfg.batch_size (next_after cursor chain) in
        let answered : source fault chain cursor cfg.batch_size n ≡ page (map some blocks') =
          ground arith in
        ok-inj blocks blocks' (sym h ∙ ap attempt_of answered ∙ validated blocks')
  ]
    where
      ok-inj : (xs ys : List Block) → ok xs ≡ ok ys → xs ≡ ys
      ok-inj xs ys e = ground arith

  cycle-IsAt :
      (cfg : Config) (c : Cycle) (p : Poller) (done : List Block)
      → 1 ≤ cfg.max_attempts
      → IsAt chain done p.cursor
      → let (r, p', handled) =
          poll_once cfg (source c.fault chain p.cursor cfg.batch_size) c.handler c.now p in
        IsAt chain (done ++ handled) p'.cursor
  unfolding poll_once IsAt
  cycle-IsAt cfg c p done h (rest, split, at) =
      let responses = source c.fault chain p.cursor cfg.batch_size in
      let fetched = fetch_with_retry cfg responses in
      elim (Result-cases fetched.outcome) [
        | inl (e, failed) ↦
            rw (failed, poll_once) (rest, split ∙ ap (λ xs. xs ++ rest) (sym (append-nil done)), at)
        | inr (blocks, given) ↦
            let (_, _, last, _, _) = fetch_with_retry_lem cfg responses h in
            let e : blocks ≡ take cfg.batch_size rest =
              source-page cfg c.fault p.cursor fetched.attempts blocks (sym last ∙ given)
              ∙ ap (take cfg.batch_size) at in
            let whole : blocks ++ drop cfg.batch_size rest ≡ rest =
              ap (λ xs. xs ++ drop cfg.batch_size rest) e ∙ take-append-drop cfg.batch_size rest in
            let next =
              process-IsAt c.handler blocks p done (drop cfg.batch_size rest)
                (split ∙ ap (λ xs. done ++ xs) (sym whole)) (at ∙ sym whole) in
            elim (Option-cases (process c.handler blocks p).2) [
              | inl all_handled ↦ rw (given, all_handled, poll_once) next
              | inr (b, refused) ↦ rw (given, refused, poll_once) next
            ]
      ]

  cycles-IsAt :
      (cfg : Config) (cs : List Cycle) (p : Poller) (done : List Block)
      → 1 ≤ cfg.max_attempts
      → IsAt chain done p.cursor
      → let (p', handled) = cycles cfg chain cs p in IsAt chain (done ++ handled) p'.cursor
  unfolding cycles
  cycles-IsAt cfg [] p done h at = subst (λ xs. IsAt chain xs p.cursor) (sym (append-nil done)) at
  cycles-IsAt cfg (c ∷ cs) p done h at =
      let (r, p', handled) =
        poll_once cfg (source c.fault chain p.cursor cfg.batch_size) c.handler c.now p in
      let later = (cycles cfg chain cs p').1 in
      subst (λ xs. IsAt chain xs (cycles cfg chain cs p').0.cursor)
        (append_assoc done handled later)
        (cycles-IsAt cfg cs p' (done ++ handled) h (cycle-IsAt cfg c p done h at))

  -- Against a chain of ledgers with distinct cursors, with at least one attempt for a fetch:
  -- whatever faults the source has and whatever blocks the handler refuses, the blocks that the
  -- cycles from the start have handled are the chain's first ones, each once and in order, and the
  -- source's next page begins right after them.
  pub cycles_in_order :
      (cfg : Config) (cs : List Cycle)
      → 1 ≤ cfg.max_attempts
      → let (p, handled) = cycles cfg chain cs (start_at none) in
        (rest : List Block) × (chain ≡ handled ++ rest) × (next_after p.cursor chain ≡ rest)
  unfolding IsAt
  cycles_in_order cfg cs h = cycles-IsAt cfg cs (start_at none) [] h (chain, refl, refl)
