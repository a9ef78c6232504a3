-- ===== src/Sla/Amounts.antt =====
-- What the settlement of an outage amounts to (app/services/sla/sla_calculator.py).
use apex_chainx_backend.Common.{
  ◌||◌, ltb, ◌==◌, if◌then◌else◌, Bool-cases, inl, inr, ℕ, ◌+◌, ◌-◌, ◌*◌, ◌/◌, ◌≤◌, ◌<◌, ◌≡◌, arith,
}
use apex_chainx_backend.Common.Int.{ℤ, pos, negsuc, pos_part, neg_part, ◌≤ℤ◌, negate}
use native.Mathlib.Nat.{div-lt_iff_lt-mul, mul-le-mul_right}
use apex_chainx_backend.Sla.{SeverityConfig}
use apex_chainx_backend.Sla.Calculator.{
  violated, met, reward, penalty, exceptional, excellent, good, poor, judge,
}

-- The multiplier of the reward, with the ratio compared without a division.
abbrev pub multiplier : ℕ → ℤ → ℕ
multiplier threshold mttr =
    if ltb (2 * pos_part mttr) threshold || threshold == 0
    then 200
    else (if ltb (4 * pos_part mttr) (3 * threshold) then 150 else 100)

multiplier_antitone : (t : ℕ) (a b : ℤ) → a ≤ℤ b → multiplier t b ≤ multiplier t a
multiplier_antitone t a b h = ground arith

ratio-lt : (t k m : ℕ) → 0 < t → ltb (m * 100 / t) k ≡ ltb (m * 100) (k * t)
ratio-lt t k m h = ground (arith, div-lt_iff_lt-mul {k = t} {x = m * 100} {y = k} h)

module _ (config : SeverityConfig) where
  -- A repair time up to the threshold, the threshold included, meets the SLA, and the reward lies
  -- between the base and twice the base.
  pub judge_met :
      (mttr : ℤ)
      → mttr ≤ℤ pos config.threshold_minutes
      → ((judge config mttr).status ≡ met)
        × ((judge config mttr).payment_type ≡ reward)
        × (pos config.reward_base ≤ℤ (judge config mttr).amount)
        × ((judge config mttr).amount ≤ℤ pos (2 * config.reward_base))
  unfolding judge
  judge_met mttr h = ground arith

  -- A repair time of m + 1 minutes over the threshold violates the SLA, and costs the rate for
  -- each of these minutes.
  pub judge_violated :
      (m : ℕ)
      → let v = judge config (pos (config.threshold_minutes + m + 1)) in
        (v.status ≡ violated)
        × (v.payment_type ≡ penalty)
        × (v.rating ≡ poor)
        × (v.amount ≡ negate ((m + 1) * config.penalty_per_minute))
  unfolding judge
  judge_violated m = ground arith

  met-multiplier :
      (mttr : ℤ)
      → mttr ≤ℤ pos config.threshold_minutes
      → (judge config mttr).amount
        ≡ pos (config.reward_base * multiplier config.threshold_minutes mttr / 100)
  unfolding judge
  met-multiplier (pos m) h =
      ground (arith, ratio-lt config.threshold_minutes 50 m, ratio-lt config.threshold_minutes 75 m)
  met-multiplier (negsuc m) h = ground arith

  -- The rating of a repair time of 0 or more within a threshold above 0: exceptional below half
  -- of the threshold, excellent from there to below three quarters, good from there on.
  pub judge_rating :
      (m : ℕ)
      → m ≤ config.threshold_minutes
      → 0 < config.threshold_minutes
      → (judge config (pos m)).rating ≡ (
          if ltb (2 * m) config.threshold_minutes
          then exceptional
          else (if ltb (4 * m) (3 * config.threshold_minutes) then excellent else good))
  unfolding judge
  judge_rating m h h' =
      ground (
        arith,
        ratio-lt config.threshold_minutes 50 m h',
        ratio-lt config.threshold_minutes 75 m h',
      )

  over_amount :
      (mttr : ℤ)
      → config.threshold_minutes + neg_part mttr < pos_part mttr
      → (judge config mttr).amount
        ≡ negate ((pos_part mttr - config.threshold_minutes) * config.penalty_per_minute)
  unfolding judge
  over_amount mttr h = ground arith

  -- A longer repair never pays more, across the threshold and below 0 too.
  pub amount_antitone : (a b : ℤ) → a ≤ℤ b → (judge config b).amount ≤ℤ (judge config a).amount
  amount_antitone a b h =
      elim (Bool-cases (ltb (config.threshold_minutes + neg_part b) (pos_part b))) [
        | inl over ↦
            rw (over_amount b (ground arith))
              (elim (Bool-cases (ltb (config.threshold_minutes + neg_part a) (pos_part a))) [
                | inl over' ↦ rw (over_amount a (ground arith)) (
                    grind (
                      arith,
                      mul-le-mul_right {m = pos_part a - config.threshold_minutes}
                          {n = pos_part b - config.threshold_minutes} config.penalty_per_minute
                          (ground arith),
                    ))
                | inr within ↦ rw (met-multiplier a (ground arith)) (ground arith)
              ])
        | inr within ↦
            rw (met-multiplier a (ground arith), met-multiplier b (ground arith))
              (ground (arith, multiplier_antitone config.threshold_minutes a b h))
      ]
