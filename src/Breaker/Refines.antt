-- ===== src/Breaker/Refines.antt =====
-- The dictionaries of `CircuitBreaker` (app/services/webhook_breaker.py) hold one automaton for
-- each host: a call steps the automaton of its own host and leaves every other host alone.
use apex_chainx_backend.Common.{
  ◌<◌, ap, ◌≢◌, refl, inl, inr, List, [], ◌∷◌, str_eq, eq_iff, if◌then◌else◌, Bool-cases, String,
  ◌≡◌, Bool, false, ◌&&◌, Option, [], arith, str_eq_refl, get_or, lookup, lookup-insert,
  lookup-erase,
}
use mathlib.Core.Path.{subst}
use apex_chainx_backend.Breaker.{
  init, Config, CircuitBreaker, host_key, Call, allow, failed, succeeded, reset_call, url_of, apply,
  state_of,
}
use apex_chainx_backend.Breaker.Host
use apex_chainx_backend.Breaker.Host.{IsValid, HostView, Event, step}

abbrev pub view : CircuitBreaker → String → HostView
view b host = record {
  state = state_of b host;
  failures = get_or (lookup host b.failures) [];
  open_since = lookup host b.open_since;
  probe_sent = get_or (lookup host b.probe_sent) false;
}

abbrev pub event_of : Bool → Call → Event
event_of shared (allow url exists adopted_at now) =
    Event.allow (shared && get_or exists false) adopted_at now
event_of shared (failed url now) = Event.failure now
event_of shared (succeeded url) = Event.success
event_of shared (reset_call url) = Event.reset

module _ (cfg : Config) (shared : Bool) (hostname : String → Option String) where
  pub apply-view_self :
      (c : Call) (b : CircuitBreaker)
      → let h = host_key hostname (url_of c) in
        let (b', allowed, effects) = apply cfg shared hostname c b in
        (view b' h, allowed) ≡ step cfg (event_of shared c) (view b h)
  unfolding apply step
  apply-view_self (allow url exists adopted_at now) b =
      grind (arith, lookup-insert, lookup-erase, str_eq_refl)
  apply-view_self (failed url now) b = grind (arith, lookup-insert, lookup-erase, str_eq_refl)
  apply-view_self (succeeded url) b = grind (arith, lookup-insert, lookup-erase, str_eq_refl)
  apply-view_self (reset_call url) b = grind (arith, lookup-insert, lookup-erase, str_eq_refl)

  -- A call about one host changes nothing that another host can see.
  pub apply-view_ne :
      (c : Call) (b : CircuitBreaker) (g : String)
      → host_key hostname (url_of c) ≢ g
      → view (apply cfg shared hostname c b).0 g ≡ view b g
  unfolding apply
  apply-view_ne (allow url exists adopted_at now) b g ne =
      grind (arith, lookup-insert, lookup-erase, eq_iff)
  apply-view_ne (failed url now) b g ne = grind (arith, lookup-insert, lookup-erase, eq_iff)
  apply-view_ne (succeeded url) b g ne = grind (arith, lookup-insert, lookup-erase, eq_iff)
  apply-view_ne (reset_call url) b g ne = grind (arith, lookup-insert, lookup-erase, eq_iff)

  -- A call acts on its own host's view as the automaton of one host does, and leaves the view of
  -- every other host alone.
  pub apply-view :
      (c : Call) (b : CircuitBreaker) (g : String)
      → view (apply cfg shared hostname c b).0 g ≡ (
          if str_eq (host_key hostname (url_of c)) g
          then (step cfg (event_of shared c) (view b g)).0
          else view b g)
  apply-view c b g = elim (Bool-cases (str_eq (host_key hostname (url_of c)) g)) [
    | inl same ↦ rw same (own g ((eq_iff _ _).0 same))
    | inr other ↦ rw other (apply-view_ne c b g (λ e. cc (other, (eq_iff _ _).1 e)))
  ]
    where
      own :
          (k : String)
          → host_key hostname (url_of c) ≡ k
          → view (apply cfg shared hostname c b).0 k ≡ (step cfg (event_of shared c) (view b k)).0
      own k e =
          subst
            (λ k.
              view (apply cfg shared hostname c b).0 k
              ≡ (step cfg (event_of shared c) (view b k)).0)
            e (ap (λ r. r.0) (apply-view_self c b))

  -- A history of calls, and the events of it that concern one host.
  unfoldable pub run : List Call → CircuitBreaker → CircuitBreaker
  run [] b = b
  run (c ∷ calls) b = run calls (apply cfg shared hostname c b).0

  unfoldable pub events_for : String → List Call → List Event
  events_for g [] = []
  events_for g (c ∷ calls) =
      let rest = events_for g calls in
      if str_eq (host_key hostname (url_of c)) g then event_of shared c ∷ rest else rest

  pub view-run :
      (calls : List Call) (b : CircuitBreaker) (g : String)
      → view (run calls b) g ≡ Host.run cfg (events_for g calls) (view b g)
  unfolding run events_for Host.run
  view-run [] b g = refl
  view-run (c ∷ calls) b g = elim (Bool-cases (str_eq (host_key hostname (url_of c)) g)) [
    | inl same ↦
        rw (same, view-run calls (apply cfg shared hostname c b).0 g)
          (ap (Host.run cfg (events_for g calls)) (rw same at (apply-view c b g)))
    | inr other ↦
        rw (other, view-run calls (apply cfg shared hostname c b).0 g)
          (ap (Host.run cfg (events_for g calls)) (rw other at (apply-view c b g)))
  ]

  -- With a threshold above 0, in every state that a history of calls reaches from the start, every
  -- host is valid: CLOSED has fewer failures than the threshold, OPEN knows since when, and a
  -- probe is out in HALF_OPEN only.
  pub run-IsValid :
      (calls : List Call) (g : String)
      → 0 < cfg.fail_threshold
      → IsValid cfg (view (run calls init) g)
  unfolding lookup
  run-IsValid calls g pos =
      rw (view-run calls init g)
        (Host.run-IsValid cfg (events_for g calls) (view init g) pos (ground arith))
