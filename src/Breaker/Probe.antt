-- ===== src/Breaker/Probe.antt =====
-- What `allow_request` (app/services/webhook_breaker.py) lets through while a host is not CLOSED.
use mathlib.Core.Path.{subst}
use apex_chainx_backend.Breaker.Refines.{view, events_for, event_of, apply-view_self, apply-view}
use apex_chainx_backend.Common.{
  lookup, ◌⊎◌, inl, inr, Bool-cases, eq_iff, str_eq, ap, String, ◌&&◌, ℕ, ◌+◌, ◌≤◌, ◌≡◌, ◌≢◌, refl,
  Bool, true, false, Option, some, List, [], ◌∷◌, arith, All, leb, if◌then◌else◌, get_or,
}
use apex_chainx_backend.Breaker.{
  BreakerState, closed, half_open, opened, Config, CircuitBreaker, Call, apply, host_key, url_of,
  state_of,
}
use apex_chainx_backend.Breaker.Host
use apex_chainx_backend.Breaker.Host.{
  request, HostView, Event, allow, failure, success, reset, step, IsValid,
}

BreakerState-cases : (s : BreakerState) → (s ≡ closed) ⊎ ((s ≡ half_open) ⊎ (s ≡ opened))
BreakerState-cases closed = inl refl
BreakerState-cases half_open = inr (inl refl)
BreakerState-cases opened = inr (inr refl)

module _ (cfg : Config) where
  -- The requests of a history that were allowed.
  pub sent : List Event → HostView → ℕ
  sent [] v = 0
  sent (e ∷ events) v =
      let (v', allowed) = step cfg e v in if allowed then sent events v' + 1 else sent events v'

  abbrev pub IsRequest : Event → Type 0
  IsRequest (allow marker adopted_at now) = Unit
  IsRequest _ = ⊥

  -- A host whose probe is out refuses every request, at any time, until an outcome is reported.
  sent_probing :
      (events : List Event) (v : HostView)
      → All IsRequest events
      → v.state ≡ half_open
      → v.probe_sent ≡ true
      → (sent events v ≡ 0) × ((Host.run cfg events v).state ≡ half_open)
  unfolding sent step request Host.run
  sent_probing [] v all s p = (refl, s)
  sent_probing (allow marker adopted_at now ∷ events) v all s p =
      ground (arith, sent_probing events v all.1 s p)
  sent_probing (_ ∷ events) v all s p = absurd all.0

  sent_half_open :
      (events : List Event) (v : HostView)
      → All IsRequest events
      → v.state ≡ half_open
      → sent events v ≤ 1
  unfolding sent step request
  sent_half_open [] v all s = omega arith
  sent_half_open (allow marker adopted_at now ∷ events) v all s = ground (
    arith,
    sent_probing events v all.1,
    sent_probing events (record v { probe_sent = true }) all.1,
  )
  sent_half_open (_ ∷ events) v all s = absurd all.0

  sent_opened :
      (events : List Event) (v : HostView)
      → All IsRequest events
      → v.state ≡ opened
      → sent events v ≤ 1
  unfolding sent step request
  sent_opened [] v all s = omega arith
  sent_opened (allow marker adopted_at now ∷ events) v all s = ground (
    arith,
    sent_opened events v all.1,
    sent_probing events (record v { state = half_open }) all.1,
    sent_probing events (record v { state = half_open; probe_sent = true }) all.1,
  )
  sent_opened (_ ∷ events) v all s = absurd all.0

  sent_not_closed :
      (events : List Event) (v : HostView)
      → All IsRequest events
      → v.state ≢ closed
      → sent events v ≤ 1
  sent_not_closed events v all ne = elim (BreakerState-cases v.state) [
    | inl c ↦ absurd (ne c)
    | inr (inl h) ↦ sent_half_open events v all h
    | inr (inr o) ↦ sent_opened events v all o
  ]

  module _ (shared : Bool) (hostname : String → Option String) where
    -- The requests of a history to one host that `allow_request` answered with True.
    pub allowed_to : String → List Call → CircuitBreaker → ℕ
    allowed_to g [] b = 0
    allowed_to g (c ∷ calls) b =
        let (b', allowed, effects) = apply cfg shared hostname c b in
        let rest = allowed_to g calls b' in
        if str_eq (host_key hostname (url_of c)) g && allowed then rest + 1 else rest

    own_call :
        (c : Call) (b : CircuitBreaker) (g : String)
        → host_key hostname (url_of c) ≡ g
        → (apply cfg shared hostname c b).1 ≡ (step cfg (event_of shared c) (view b g)).1
    own_call c b g e =
        subst (λ k. (apply cfg shared hostname c b).1 ≡ (step cfg (event_of shared c) (view b k)).1)
          e (ap (λ r. r.1) (apply-view_self cfg shared hostname c b))

    allowed_to-sent :
        (g : String) (calls : List Call) (b : CircuitBreaker)
        → allowed_to g calls b ≡ sent (events_for cfg shared hostname g calls) (view b g)
    unfolding allowed_to sent events_for
    allowed_to-sent g [] b = refl
    allowed_to-sent g (c ∷ calls) b =
        let b' = (apply cfg shared hostname c b).0 in
        elim (Bool-cases (str_eq (host_key hostname (url_of c)) g)) [
          | inl same ↦
              rw (same, own_call c b g ((eq_iff _ _).0 same), allowed_to-sent g calls b')
                (rw (rw same at (apply-view cfg shared hostname c b g)) refl)
          | inr other ↦
              rw (other, allowed_to-sent g calls b')
                (rw (rw other at (apply-view cfg shared hostname c b g)) refl)
        ]

    -- From a state that is not CLOSED, as long as no outcome is reported and nothing is reset,
    -- the host gets at most one request, whatever the times and the markers in Redis.
    pub allowed_to-le-one :
        (g : String) (calls : List Call) (b : CircuitBreaker)
        → state_of b g ≢ closed
        → All IsRequest (events_for cfg shared hostname g calls)
        → allowed_to g calls b ≤ 1
    allowed_to-le-one g calls b ne all =
        rw (allowed_to-sent g calls b)
          (sent_not_closed (events_for cfg shared hostname g calls) (view b g) all ne)

    -- A request to a host that has been OPEN since `since`, its probe not sent: it goes out, as the
    -- probe of HALF_OPEN, exactly if the reset time has passed, and else the host stays OPEN.
    pub opened-request :
        (url : String) (exists : Option Bool) (adopted_at now since : ℕ) (b : CircuitBreaker)
        → let h = host_key hostname url in
          let due = leb (since + cfg.reset_seconds) now in
          let (b', allowed, effects) =
            apply cfg shared hostname (Call.allow url exists adopted_at now) b in
          state_of b h ≡ opened
          → lookup h b.open_since ≡ some since
          → get_or (lookup h b.probe_sent) false ≡ false
          → (allowed ≡ due)
            × (state_of b' h ≡ (if due then half_open else opened))
            × (get_or (lookup h b'.probe_sent) false ≡ due)
    unfolding step request
    opened-request url exists adopted_at now since b o s p =
        ground (arith, apply-view_self cfg shared hostname (Call.allow url exists adopted_at now) b)
