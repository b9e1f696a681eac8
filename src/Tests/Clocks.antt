-- ===== src/Tests/Clocks.antt =====
-- The exit plan's theorems at concrete inputs.
use esscher_market.Base.{ℕ, Option, none, some, [], ◌∷◌, ◌≡◌, refl, ◌↔◌, true}
use esscher_market.Base.Json.{string, array, nil, set_field, get}
use esscher_market.Base.Text.{Text, text, same, strip}
use esscher_market.Base.Result.{ok, err}
use esscher_market.Risk.Policy.Parse.{names}
use esscher_market.Lifecycle.Reasons.{exit_plan_clocks_misordered, exit_plan_cohort_mismatch}
use esscher_market.Lifecycle.Clocks.{
  LifecycleClocks, strictly_ordered, is_lifecycle_clocks, source_verified, lifecycle_clocks_payload,
  lifecycle_clocks_bytes,
}
use esscher_market.Lifecycle.Clocks.Parse.{
  rejected, type_error, has_clock_fields, timestamp, clocks_of, parse_lifecycle_clocks,
}
use esscher_market.Lifecycle.Clocks.RoundTrip.{parse_lifecycle_clocks_iff}
use esscher_market.Tests.Data.{sample_host, digest}
use esscher_market.Tests.Policy.{sample_reader, sample_reader-IsReader}

-- The instant of a text that `isoformat` gave.
abbrev sample_instant : Text → Option ℕ
sample_instant (n ∷ []) = some n
sample_instant _ = none

abbrev morning_plan : LifecycleClocks
morning_plan = record {
  event_run_id = text "event-1";
  cohort_id = text "BMO";
  policy_sha256 = digest;
  source_sha256 = text "00000000000000000000000000000000000000000000000000000000000000a1";
  observation_window_start_at = 10;
  observation_window_end_at = 20;
  entry_deadline_at = 30;
  time_exit_at = 40;
  flattening_deadline_at = 50;
}

parse_lifecycle_clocks_iff_example :
    (parse_lifecycle_clocks sample_host sample_reader sample_instant
        (lifecycle_clocks_bytes sample_host morning_plan)
      ≡ ok morning_plan)
    ↔ ((lifecycle_clocks_bytes sample_host morning_plan
          ≡ lifecycle_clocks_bytes sample_host morning_plan)
        × (is_lifecycle_clocks morning_plan ≡ true)
        × (source_verified morning_plan ≡ true))
parse_lifecycle_clocks_iff_example =
    parse_lifecycle_clocks_iff sample_host sample_reader sample_instant sample_reader-IsReader
      (λ n. refl) (lifecycle_clocks_bytes sample_host morning_plan) morning_plan

morning_plan_verified : source_verified morning_plan ≡ true
unfolding source_verified same
morning_plan_verified = refl

morning_plan_valid : is_lifecycle_clocks morning_plan ≡ true
unfolding is_lifecycle_clocks strictly_ordered same strip
morning_plan_valid = refl

-- A deadline that is no instant is reported as misordered clocks.
unreadable_deadline :
    clocks_of sample_host sample_reader sample_instant [] (
      set_field
        (text "entry_deadline_at")
        (string (text "noon"))
        (lifecycle_clocks_payload sample_host morning_plan))
    ≡ err (rejected exit_plan_clocks_misordered)
unfolding clocks_of has_clock_fields lifecycle_clocks_payload set_field get same names timestamp
unreadable_deadline = refl

unknown_cohort :
    clocks_of sample_host sample_reader sample_instant [] (
      set_field
        (text "cohort_id")
        (string (text "CPI"))
        (lifecycle_clocks_payload sample_host morning_plan))
    ≡ err (rejected exit_plan_cohort_mismatch)
unfolding clocks_of has_clock_fields lifecycle_clocks_payload set_field get same names
unknown_cohort = refl

-- A list in place of the cohort raises a `TypeError`.
listed_cohort :
    clocks_of sample_host sample_reader sample_instant []
      (set_field (text "cohort_id") (array nil) (lifecycle_clocks_payload sample_host morning_plan))
    ≡ err type_error
unfolding clocks_of has_clock_fields lifecycle_clocks_payload set_field get same names
listed_cohort = refl
