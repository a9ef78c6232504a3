-- ===== src/Sla/Tests.antt =====
-- The policies of app/services/sla/config.py and their settlements on concrete outages.
use apex_chainx_backend.Common.{
  true, ◌⊎◌, inr, ◌≢◌, ℕ, ◌≡◌, refl, String, none, some, List, [], ◌∷◌, arith, lookup, insert, All,
}
use apex_chainx_backend.Common.Int.{pos, negsuc, ◌≤ℤ◌}
use apex_chainx_backend.Sla.{Error, SeverityConfig, Policies, lower, ok, err, concurrency_error}
use apex_chainx_backend.Sla.Config.{
  HistoryRow, latest_history_row, get_policy_version, get_current_token, get_config_for_severity,
  check, row_of, publish_config_for_severity,
}
use apex_chainx_backend.Sla.Published.{publish_unseen, publish_race}
use apex_chainx_backend.Sla.Swapped.{has_severity, swapped_in, IsConsecutive, publish-IsConsecutive}
use apex_chainx_backend.Sla.Calculator.{judge, calculate}
use apex_chainx_backend.Sla.Amounts.{amount_antitone}
use apex_chainx_backend.Sla.Intervals.{Interval, merge_intervals, covered, IsSeparated, IsInterval}
use apex_chainx_backend.Sla.Intervals.Merged.{merge_intervals_covers}

abbrev critical : SeverityConfig
critical = record { threshold_minutes = 15; penalty_per_minute = 100; reward_base = 750 }

abbrev low : SeverityConfig
low = record { threshold_minutes = 120; penalty_per_minute = 10; reward_base = 600 }

abbrev stricter : SeverityConfig
stricter = record { threshold_minutes = 10; penalty_per_minute = 120; reward_base = 800 }

abbrev policies : Policies
policies = record {
  sla_config = ("critical", critical) ∷ ("low", low) ∷ [];
  policy_versions = ("critical", 1) ∷ ("low", 1) ∷ [];
  publish_tokens = ("critical", "t0") ∷ ("low", "u0") ∷ [];
}

abbrev content_hash : String → SeverityConfig → ℕ → String
content_hash severity config version = severity

abbrev row : ℕ → String → HistoryRow
row version token = row_of content_hash "critical" version stricter token 100 none

abbrev rows : List HistoryRow
rows = row 1 "t1" ∷ []

program : Unit {0}
unfolding lower latest_history_row get_policy_version get_current_token check
    publish_config_for_severity lookup insert merge_intervals calculate get_config_for_severity
program = tt

publish_unseen_example :
    let out =
      publish_config_for_severity content_hash policies
        (some rows)
        "Critical"
        stricter
        (some "t1")
        none
        []
        "t2"
        200 in
    (get_policy_version policies out.rows "Critical" ≡ ok 2)
    × (get_current_token policies out.rows "Critical" ≡ ok "t2")
    × (get_config_for_severity policies "Critical" ≡ ok critical)
unfolding program
publish_unseen_example =
    publish_unseen content_hash policies "Critical" stricter none rows (some "t1") "t2" 200 1
      policies critical refl refl

abbrev base : String → ℕ
base severity = 1

-- The token "t2" is the current one, and another worker has published the other severity meanwhile.
abbrev other_row : HistoryRow
other_row = row_of content_hash "low" 2 low "u1" 150 none

publish-IsConsecutive_example :
    let out =
      publish_config_for_severity content_hash policies
        (some (row 2 "t2" ∷ []))
        "Critical"
        stricter
        (some "t2")
        none
        (other_row ∷ [])
        "t3"
        200 in
    let new : HistoryRow = row_of content_hash "critical" 3 stricter "t3" 200 none in
    ((e : Error) × (out
        ≡ record { result = err e; policies = policies; rows = some (other_row ∷ row 2 "t2" ∷ []) })
      × ((get_current_token policies (some (row 2 "t2" ∷ [])) "Critical" ≢ ok "t2")
          ⊎ (has_severity "critical" (other_row ∷ []) ≡ true)))
    ⊎ ((get_current_token policies (some (row 2 "t2" ∷ [])) "Critical" ≡ ok "t2")
        × (latest_history_row "critical" (other_row ∷ row 2 "t2" ∷ [])
            ≡ latest_history_row "critical" (row 2 "t2" ∷ []))
        × (out ≡ swapped_in content_hash policies (other_row ∷ row 2 "t2" ∷ []) new)
        × IsConsecutive base (new ∷ other_row ∷ row 2 "t2" ∷ []))
unfolding program
publish-IsConsecutive_example =
    publish-IsConsecutive content_hash policies base (row 2 "t2" ∷ []) "Critical" "t2" (inr refl)
      stricter none (other_row ∷ []) "t3" 200 (refl, (refl, tt))

publish_race_example :
    publish_config_for_severity content_hash policies
      (some rows)
      "Critical"
      stricter
      none
      none
      (row 2 "t2" ∷ [])
      "t3"
      201
    ≡ record {
      result = err concurrency_error;
      policies = policies;
      rows = some (row 2 "t2" ∷ rows);
    }
unfolding program
publish_race_example =
    publish_race content_hash policies "Critical" stricter none rows (some "t1") none (row 2 "t2")
      "t3" 201 1 1 refl refl refl refl

abbrev str : ℕ → String
str n = "1"

abbrev compute_hash : String → String → String → String → String
compute_hash outage started resolved version = outage

amount_antitone_example : (judge critical (pos 30)).amount ≤ℤ (judge critical (negsuc 2)).amount
amount_antitone_example = amount_antitone critical (negsuc 2) (pos 30) (ground arith)

abbrev outages : List Interval
outages = (30, 40) ∷ (0, 10) ∷ (5, 20) ∷ (20, 25) ∷ []

outages_merged : merge_intervals outages ≡ (0, 25) ∷ (30, 40) ∷ []
unfolding program
outages_merged = refl

outages-IsInterval : All IsInterval outages
outages-IsInterval = (ground arith, (ground arith, (ground arith, (ground arith, tt))))

merge_intervals_covers_example :
    IsSeparated (merge_intervals outages)
    × ((t : ℕ) → covered t (merge_intervals outages) ≡ covered t outages)
merge_intervals_covers_example = merge_intervals_covers outages outages-IsInterval
