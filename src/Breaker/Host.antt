-- ===== src/Breaker/Host.antt =====
-- What one host sees of the breaker (app/services/webhook_breaker.py): an automaton with no
-- dictionaries, and the invariant of its states.
use apex_chainx_backend.Common.{
  ℕ, ◌+◌, ◌<◌, ◌≡◌, ◌≢◌, Bool, true, false, Option, none, some, List, [], ◌∷◌, ◌++◌, arith, ltb,
  leb, if◌then◌else◌, get_or, length, filter,
}
use apex_chainx_backend.Breaker.{BreakerState, closed, half_open, opened, Config}

pub record HostView : Type 0 where
  pub state : BreakerState
  pub failures : List ℕ
  pub open_since : Option ℕ
  pub probe_sent : Bool

abbrev pub idle : HostView
idle = record { state = closed; failures = []; open_since = none; probe_sent = false }

-- The events of one host: `allowed marker adopted_at now` is a request, with the marker that
-- another worker has left, or not.
pub data Event : Type 0 where
  allow : Bool → ℕ → ℕ → Event
  failure : ℕ → Event
  success : Event
  reset : Event

module _ (cfg : Config) where
  abbrev pub recent : ℕ → List ℕ → List ℕ
  recent now = filter (λ t. ltb now (t + cfg.window_seconds))

  abbrev pub trip : ℕ → HostView → HostView
  trip now v = record v { state = opened; open_since = some now; probe_sent = false }

  unfoldable pub fail : ℕ → HostView → HostView
  fail now v = elim v.state [
    | half_open ↦ trip now v
    | _ ↦
        let kept : List ℕ = recent now v.failures ++ now ∷ [] in
        let counted : HostView = record v { failures = kept } in
        if leb cfg.fail_threshold (length kept) then trip now counted else counted
  ]

  abbrev pub adopted : Bool → ℕ → HostView → HostView
  adopted marker now v = elim v.state [
    | closed ↦ if marker then record v { state = opened; open_since = some now } else v
    | _ ↦ v
  ]

  -- The request is answered, and the automaton moves.
  unfoldable pub request : ℕ → HostView → HostView × Bool
  request now v = elim v.state [
    | closed ↦ (v, true)
    | half_open ↦ if v.probe_sent then (v, false) else (record v { probe_sent = true }, true)
    | opened ↦
        if leb (get_or v.open_since 0 + cfg.reset_seconds) now
        then (if v.probe_sent
            then (record v { state = half_open }, false)
            else (record v { state = half_open; probe_sent = true }, true))
        else (v, false)
  ]

  -- The next state, and whether a request went out.
  unfoldable pub step : Event → HostView → HostView × Bool
  unfolding request fail
  step (allow marker adopted_at now) v = request now (adopted marker adopted_at v)
  step (failure now) v = (fail now v, false)
  step success v = (idle, false)
  step reset v = (idle, false)

  -- CLOSED stays below the threshold, OPEN knows since when, and a probe is out in HALF_OPEN only.
  pub record IsValid (v : HostView) : Type 0 where
    pub below : v.state ≡ closed → length v.failures < cfg.fail_threshold
    pub dated : v.state ≡ opened → v.open_since ≢ none
    pub unprobed : v.probe_sent ≡ true → v.state ≡ half_open

  pub step-IsValid :
      (e : Event) (v : HostView) → 0 < cfg.fail_threshold → IsValid v → IsValid (step e v).0
  unfolding step
  step-IsValid (allow marker adopted_at now) v pos h = ground arith
  step-IsValid (failure now) v pos h = ground arith
  step-IsValid success v pos h = ground arith
  step-IsValid reset v pos h = ground arith

  unfoldable pub run : List Event → HostView → HostView
  run [] v = v
  run (e ∷ events) v = run events (step e v).0

  pub run-IsValid :
      (events : List Event) (v : HostView)
      → 0 < cfg.fail_threshold
      → IsValid v
      → IsValid (run events v)
  unfolding run
  run-IsValid [] v pos h = h
  run-IsValid (e ∷ events) v pos h = run-IsValid events (step e v).0 pos (step-IsValid e v pos h)
