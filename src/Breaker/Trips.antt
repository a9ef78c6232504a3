-- ===== src/Breaker/Trips.antt =====
-- When `_record_failure` (app/services/webhook_breaker.py) opens the breaker of a host.
use apex_chainx_backend.Common.{
  ℕ, ◌+◌, ◌≤◌, ◌<◌, ◌≡◌, refl, Bool, Option, List, [], ◌∷◌, ◌++◌, String, arith, str_eq_refl, inl,
  inr, Bool-cases, ◌∙◌, ltb, leb, if◌then◌else◌, length, All, length-append, length-filter-le,
  All-append, lookup, ap,
}
use apex_chainx_backend.Breaker.{closed, opened, Config, init, host_key, Call, failed, state_of}
use apex_chainx_backend.Breaker.Host.{HostView, Event, step, fail, recent, trip}
use apex_chainx_backend.Breaker.Host
use apex_chainx_backend.Breaker.Refines.{view, run, events_for, view-run}

module _ (cfg : Config) where
  abbrev failures : List ℕ → List Event
  failures [] = []
  failures (t ∷ ts) = Event.failure t ∷ failures ts

  -- Every time lies in one window that begins at `start`.
  abbrev pub InWindow : ℕ → List ℕ → Type 0
  InWindow start = All (λ t. (start ≤ t) × (t < start + cfg.window_seconds))

  recent_all :
      (start now : ℕ) (ts : List ℕ)
      → now < start + cfg.window_seconds
      → InWindow start ts
      → recent cfg now ts ≡ ts
  recent_all start now [] h w = refl
  recent_all start now (t ∷ ts) h w = ground (arith, recent_all start now ts h w.1)

  stays_open :
      (ts : List ℕ) (v : HostView)
      → v.state ≡ opened
      → (Host.run cfg (failures ts) v).state ≡ opened
  unfolding Host.run step
  stays_open [] v o = o
  stays_open (t ∷ ts) v o = stays_open ts (fail cfg t v) (ground arith)

  -- A failure of a closed host adds one to those of the window.
  fail_counts :
      (start t : ℕ) (v : HostView)
      → v.state ≡ closed
      → t < start + cfg.window_seconds
      → InWindow start v.failures
      → let counted : HostView = record v { failures = v.failures ++ t ∷ [] } in
        fail cfg t v
        ≡ (if leb cfg.fail_threshold (length v.failures + 1) then trip cfg t counted else counted)
  unfolding fail
  fail_counts start t v c h w =
      ground (arith, recent_all start t v.failures h w, length-append v.failures (t ∷ []))

  trips_from :
      (start : ℕ) (ts : List ℕ) (v : HostView)
      → v.state ≡ closed
      → InWindow start v.failures
      → InWindow start ts
      → length v.failures < cfg.fail_threshold
      → cfg.fail_threshold ≤ length v.failures + length ts
      → (Host.run cfg (failures ts) v).state ≡ opened
  unfolding Host.run step
  trips_from start [] v c w _ below enough = absurd (omega arith)
  trips_from start (t ∷ ts) v c w w' below enough =
      rw (Host.run, fail_counts start t v c w'.0.1 w)
        (elim (Bool-cases (leb cfg.fail_threshold (length v.failures + 1))) [
          | inl full ↦ rw full (stays_open ts _ refl)
          | inr room ↦ rw room (
              trips_from start ts (record v { failures = v.failures ++ t ∷ [] }) c
                (All-append _ v.failures (t ∷ []) w (w'.0, tt)) w'.1
                (ground (arith, length-append v.failures (t ∷ [])))
                (omega (arith, length-append v.failures (t ∷ []))))
        ])

  -- A failure below the threshold adds at most one to the recorded failures.
  fail_below :
      (t : ℕ) (v : HostView)
      → v.state ≡ closed
      → length v.failures + 1 < cfg.fail_threshold
      → ((fail cfg t v).state ≡ closed) × (length (fail cfg t v).failures ≤ length v.failures + 1)
  unfolding fail
  fail_below t v c few = ground (
    arith,
    length-append (recent cfg t v.failures) (t ∷ []),
    length-filter-le (λ s. ltb t (s + cfg.window_seconds)) v.failures,
  )

  stays_closed :
      (ts : List ℕ) (v : HostView)
      → v.state ≡ closed
      → length v.failures + length ts < cfg.fail_threshold
      → (Host.run cfg (failures ts) v).state ≡ closed
  unfolding Host.run step
  stays_closed [] v c few = c
  stays_closed (t ∷ ts) v c few =
      let (c', l) = fail_below t v c (omega arith) in
      stays_closed ts (fail cfg t v) c' (omega arith)

  module _ (shared : Bool) (hostname : String → Option String) (url : String) where
    -- Failures of one URL, at the given times.
    abbrev pub failing : List ℕ → List Call
    failing [] = []
    failing (t ∷ ts) = failed url t ∷ failing ts

    events_for-failing :
        (ts : List ℕ)
        → events_for cfg shared hostname (host_key hostname url) (failing ts) ≡ failures ts
    unfolding events_for
    events_for-failing [] = refl
    events_for-failing (t ∷ ts) =
        rw (str_eq_refl (host_key hostname url))
          (ap (◌∷◌ (Event.failure t)) (events_for-failing ts))

    after_failing :
        (ts : List ℕ)
        → state_of (run cfg shared hostname (failing ts) init) (host_key hostname url)
          ≡ (Host.run cfg (failures ts) (view init (host_key hostname url))).state
    after_failing ts =
        ap (λ v. v.state) (view-run cfg shared hostname (failing ts) init (host_key hostname url))
        ∙ ap (λ events. (Host.run cfg events (view init (host_key hostname url))).state)
            (events_for-failing ts)

    -- On a fresh breaker, failures of one URL within one window open the breaker of its host if
    -- they are as many as the threshold, which is not 0.
    pub failing_opens :
        (start : ℕ) (ts : List ℕ)
        → 0 < cfg.fail_threshold
        → cfg.fail_threshold ≤ length ts
        → InWindow start ts
        → state_of (run cfg shared hostname (failing ts) init) (host_key hostname url) ≡ opened
    unfolding lookup
    failing_opens start ts pos enough w =
        after_failing ts
        ∙ trips_from start ts (view init (host_key hostname url)) refl tt w pos (omega arith)

    -- On a fresh breaker, fewer failures than the threshold leave the host closed, at any times.
    pub failing_below_threshold :
        (ts : List ℕ)
        → length ts < cfg.fail_threshold
        → state_of (run cfg shared hostname (failing ts) init) (host_key hostname url) ≡ closed
    unfolding lookup
    failing_below_threshold ts few =
        after_failing ts ∙ stays_closed ts (view init (host_key hostname url)) refl (omega arith)
