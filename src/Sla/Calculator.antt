-- ===== src/Sla/Calculator.antt =====
-- The settlement of one outage (app/services/sla/sla_calculator.py). The decision trace is kept as
-- the values that its text shows. `str(int)` and SHA-256 are parameters; the latency histogram is
-- left out.
use apex_chainx_backend.Common.{
  ◌≡◌, refl, ℕ, ◌-◌, ◌*◌, ◌/◌, String, Bool, not, ◌&&◌, Option, none, some, ◌==◌, str_eq,
  if◌then◌else◌, lookup,
}
use apex_chainx_backend.Common.Int.{ℤ, pos, pos_part, ltb_ℤ, ◌*ℤ◌, floor_div, negate}
use apex_chainx_backend.Sla.{
  value_error, attribute_error, Result, ok, err, ◌>>=◌, ◌>>◌, SeverityConfig, Policies, lower,
}
use apex_chainx_backend.Sla.Lowered.{lower_idem}
use apex_chainx_backend.Sla.Config.{get_config_for_severity, get_policy_version, known_severity}

pub data Status : Type 0 where
  met violated : Status

pub data PaymentType : Type 0 where
  reward penalty : PaymentType

pub data Rating : Type 0 where
  exceptional excellent good poor : Rating

pub data ReasonCode : Type 0 where
  mttr_exceeded met_exceptional met_excellent met_good : ReasonCode

-- f"MTTR {mttr} > threshold {threshold} (overtime {overtime} minutes)", and
-- f"MTTR {mttr} <= threshold {threshold}, performance ratio {ratio}%, rating {rating}".
pub data DecisionTrace : Type 0 where
  exceeded : ℤ → ℕ → ℕ → DecisionTrace
  within : ℤ → ℕ → ℤ → Rating → DecisionTrace

-- The part of an `SLAResult` that depends on the policy and the repair time alone.
pub record Verdict : Type 0 where
  pub status : Status
  pub threshold_minutes : ℕ
  pub amount : ℤ
  pub payment_type : PaymentType
  pub rating : Rating
  pub reason_code : ReasonCode
  pub decision_trace : DecisionTrace

pub record SlaResult : Type 0 where
  pub outage_id : String
  pub mttr_minutes : ℤ
  pub policy_version : String
  pub threshold_source : String
  pub verdict : Verdict
  pub version_fallback_note : Bool
  pub compute_hash : Option String

-- `mttr_minutes - threshold`, where that is positive.
abbrev pub overtime : ℤ → ℕ → ℕ
overtime mttr threshold = pos_part mttr - threshold

abbrev pub performance_ratio : ℤ → ℕ → ℤ
performance_ratio mttr threshold =
    if threshold == 0 then pos 0 else floor_div (mttr *ℤ 100) threshold

abbrev pub tier : ℤ → ℕ × Rating × ReasonCode
tier ratio =
    if ltb_ℤ ratio (pos 50)
    then (200, exceptional, met_exceptional)
    else (if ltb_ℤ ratio (pos 75) then (150, excellent, met_excellent) else (100, good, met_good))

-- Case 1 and case 2 of `calculate`.
unfoldable pub judge : SeverityConfig → ℤ → Verdict
judge config mttr =
    let threshold = config.threshold_minutes in
    let ratio = performance_ratio mttr threshold in
    let (multiplier, rating, reason) = tier ratio in
    if ltb_ℤ (pos threshold) mttr
    then record {
      status = violated;
      threshold_minutes = threshold;
      amount = negate (overtime mttr threshold * config.penalty_per_minute);
      payment_type = penalty;
      rating = poor;
      reason_code = mttr_exceeded;
      decision_trace = exceeded mttr threshold (overtime mttr threshold);
    }
    else record {
      status = met;
      threshold_minutes = threshold;
      amount = pos (config.reward_base * multiplier / 100);
      payment_type = reward;
      rating = rating;
      reason_code = reason;
      decision_trace = within mttr threshold ratio rating;
    }

module _ (str : ℕ → String) (compute_hash : String → String → String → String → String) where
  -- `policy_version and policy_version != live_version`
  abbrev pub note : String → ℕ → Bool
  note policy_version live =
      not (str_eq policy_version "") && not (str_eq policy_version (str live))

  -- The `try`: on ValueError the plain dictionary is taken, which has no `threshold_minutes`.
  abbrev attempt : Policies → String → String → Result (SeverityConfig × Bool)
  attempt st severity policy_version = do
    config ← get_config_for_severity st severity
    live ← get_policy_version st none severity
    ok (config, note policy_version live)

  abbrev or_dictionary : Result (SeverityConfig × Bool) → Result (SeverityConfig × Bool)
  or_dictionary (ok c) = ok c
  or_dictionary (err value_error) = err attribute_error
  or_dictionary (err e) = err e

  unfoldable pub calculate :
      Policies → String → String → ℤ → String → String → String → String → Result SlaResult
  unfolding judge
  calculate st outage_id severity mttr policy_version threshold_source started_at resolved_at = do
    known_severity st (lower severity)
    (config, noted) ← or_dictionary (attempt st (lower severity) policy_version)
    ok (record {
      outage_id = outage_id;
      mttr_minutes = mttr;
      policy_version = policy_version;
      threshold_source = threshold_source;
      verdict = judge config mttr;
      version_fallback_note = noted;
      compute_hash =
          if not (str_eq started_at "") && not (str_eq resolved_at "")
          then some (compute_hash outage_id started_at resolved_at policy_version)
          else none;
    })

  -- An unknown severity is a ValueError.
  calculate_unknown :
      (st : Policies) (outage_id severity : String) (mttr : ℤ)
      → (version source started_at resolved_at : String)
      → lookup (lower severity) st.sla_config ≡ none
      → calculate st outage_id severity mttr version source started_at resolved_at ≡ err value_error
  unfolding calculate
  calculate_unknown st outage_id severity mttr version source started_at resolved_at h = rw h

  -- A severity with a policy and a version, in any letter case, gives the verdict of its policy on the
  -- repair time, with the note exactly if another version was asked for.
  pub calculate_known :
      (st : Policies) (outage_id severity : String) (mttr : ℤ)
      → (version source started_at resolved_at : String) (config : SeverityConfig) (live : ℕ)
      → lookup (lower severity) st.sla_config ≡ some config
      → lookup (lower severity) st.policy_versions ≡ some live
      → (r : SlaResult) × (calculate st outage_id severity mttr version source started_at
            resolved_at
          ≡ ok r)
        × (r.verdict ≡ judge config mttr)
        × (r.mttr_minutes ≡ mttr)
        × (r.outage_id ≡ outage_id)
        × (r.version_fallback_note ≡ note version live)
  unfolding calculate get_config_for_severity get_policy_version
  calculate_known st outage_id severity mttr version source started_at resolved_at config live h
        h' =
      (
        record {
          outage_id = outage_id;
          mttr_minutes = mttr;
          policy_version = version;
          threshold_source = source;
          verdict = judge config mttr;
          version_fallback_note = note version live;
          compute_hash =
              if not (str_eq started_at "") && not (str_eq resolved_at "")
              then some (compute_hash outage_id started_at resolved_at version)
              else none;
        },
        rw (h, lower_idem severity, h, h'),
        refl,
        refl,
        refl,
        refl,
      )
