-- ===== src/Poller/Cycle.antt =====
-- One `poll_once` of app/services/block_poller.py: which blocks it handles, and what it leaves.
use apex_chainx_backend.Common.{
  ℕ, suc, ◌≤◌, ◌≡◌, refl, ap, Bool, none, some, List, [], ◌∷◌, arith, Bool-cases, Option-cases, inl,
  inr, ◌⊎◌,
}
use apex_chainx_backend.Poller.{
  Block, Error, ok, err, handler_error, Response, Config, Poller, CycleResult, unhealthy, health,
  fetch_with_retry, process, poll_once,
}
use apex_chainx_backend.Poller.Fetch.{Result-cases}

process-failures :
    (handler : Block → Bool) (blocks : List Block) (p : Poller)
    → (process handler blocks p).0.consecutive_failures ≡ p.consecutive_failures
unfolding process
process-failures handler [] p = refl
process-failures handler (b ∷ blocks) p = elim (Bool-cases (handler b)) [
  | inl handled ↦
      rw (handled, process) (process-failures handler blocks (record p { cursor = some b.cursor }))
  | inr refused ↦ rw (refused, process) refl
]

-- A failed cycle, of either kind, is counted and keeps the error; with as many failures in a row as
-- there are attempts, the poller is unhealthy. A cycle that succeeds starts the count again.
pub poll_once-health :
    (cfg : Config) (responses : ℕ → Response) (handler : Block → Bool) (now : ℕ) (p : Poller)
    → let (r, p', handled) = poll_once cfg responses handler now p in
      (((e : Error) × (r ≡ err e)
        × (p'.last_error ≡ some e)
        × (p'.consecutive_failures ≡ suc p.consecutive_failures)
        × (cfg.max_attempts ≤ p'.consecutive_failures → health cfg p' ≡ unhealthy)))
      ⊎ ((c : CycleResult) × (r ≡ ok c)
          × (p'.last_error ≡ none)
          × (p'.consecutive_failures ≡ 0)
          × (p'.last_success_at ≡ some now)
          × (p'.cursor ≡ c.cursor))
unfolding poll_once health
poll_once-health cfg responses handler now p =
    elim (Result-cases (fetch_with_retry cfg responses).outcome) [
      | inl (e, failed) ↦ rw (failed, poll_once) (inl (e, refl, refl, refl, λ h. ground arith))
      | inr (blocks, fetched) ↦ elim (Option-cases (process handler blocks p).2) [
        | inl all_handled ↦
            rw (fetched, all_handled, poll_once) (inr (_, refl, refl, refl, refl, refl))
        | inr (b, refused) ↦
            rw (fetched, refused, poll_once)
              (inl (
                handler_error b,
                refl,
                refl,
                ap suc (process-failures handler blocks p),
                λ h. ground arith,
              ))
      ]
    ]
