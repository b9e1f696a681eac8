-- ===== src/Tests/Kernel.antt =====
-- The kernel's approvals and sessions at concrete inputs.
use esscher_market.Base.{
  ◌⊎◌, ℕ, ◌≤◌, true, false, List, [], ◌∷◌, all, any, none, some, ◌≡◌, refl, ◌↔◌, ◌*◌, ◌≢◌, length,
  All,
}
use esscher_market.Base.Text.{text, same, strip, upper}
use esscher_market.Risk.Snapshots.{second, is_partial_fill}
use esscher_market.Risk.Snapshots.Freshness.{IsFresh}
use esscher_market.Execution.Models.{distance}
use esscher_market.Risk.Reasons.{ControlState, truth_error}
use esscher_market.Risk.Passport.{PassportEvent, verify_passport}
use esscher_market.Risk.Ledger.Passport.{passport_events}
use esscher_market.Risk.Ledger.Rows.{Reservation}
use esscher_market.Risk.Ledger.Holdings.{IsUnique}
use esscher_market.Risk.Ledger.Operations.{LedgerCall, perform_all}
use esscher_market.Risk.Kernel.Truth.{raised, failed, validated, fresh_clock}
use esscher_market.Risk.Ledger.Monad.{fail}
use esscher_market.Risk.Kernel.Truth.Fresh.{observed_truth_iff}
use esscher_market.Risk.Kernel.Control.{startup_from, startup_reconciliation, is_held}
use esscher_market.Risk.Kernel.Startup.{startup_ends, startup_active_iff}
use esscher_market.Risk.Kernel.Entry.Approved.{IsApproved, authorize_entry-IsApproved}
use esscher_market.Risk.Kernel.Calls.{KernelCall, run_all}
use esscher_market.Risk.Kernel.Refines.{is_kernel_call}
use esscher_market.Risk.Kernel.Refines.Methods.{kernel_refines_ledger}
use esscher_market.Risk.Kernel.Sessions.{kernel_exposure_within_limits, kernel_passport_verifies}
use esscher_market.Risk.Kernel.Killed.{kill_survives_sessions}
use esscher_market.Tests.Data.{sample_host-IsJson}
use esscher_market.Base.Json.{get_value}
use esscher_market.Base.Result.{ok, err}
use esscher_market.Execution.Expression.{compiled_expression_sha256}
use esscher_market.Execution.Models.{
  debit_vertical_permit_id, debit_vertical_permit_bytes, maximum_loss,
}
use esscher_market.Risk.Reasons.{active, kill}
use esscher_market.Risk.Policy.{risk_policy_sha256}
use esscher_market.Risk.Snapshots.{AccountSnapshot, PositionSnapshot, OrderSnapshot}
use esscher_market.Risk.Ledger.Rows.{Ledger, empty}
use esscher_market.Base.Int.{◌-ℤ◌}
use esscher_market.Risk.Passport.{event_text}
use esscher_market.Risk.Checks.{
  identifier, underlying, sha256, amount, positive_limit, positive_int, finite_decimal,
}
use esscher_market.Risk.Controls.{entry_allowed}
use esscher_market.Risk.Exposure.{expression_exposure, decimal_field}
use esscher_market.Risk.Policy.{constants_verified}
use esscher_market.Risk.Snapshots.{
  validate_ages, validate_account_freshness, validate_positions_freshness,
  validate_orders_freshness,
}
use esscher_market.Risk.Ledger.Monad.{◌>>=◌, transaction}
use esscher_market.Risk.Ledger.Passport.{append_passport}
use esscher_market.Risk.Ledger.Queries.{sum_open, sum_open_for, count_open, entries_today}
use esscher_market.Risk.Ledger.Records.{
  get_control_state, record_account_snapshot, intraday_peak_equity,
}
use esscher_market.Risk.Ledger.Reservations.{insert_reservation, insert_permit}
use esscher_market.Risk.Ledger.Authorize.{
  reserve_and_issue_permit, validated_order, issue_body, require_authorized,
}
use esscher_market.Risk.Kernel.Truth.{
  Truth, read, observed_truth, fresh_clock, fresh_account, fresh_positions, fresh_orders,
}
use esscher_market.Risk.Kernel.Binding.{validate_candidate_binding, compiled_underlying}
use esscher_market.Risk.Kernel.Permit.{validate_permit_binding}
use esscher_market.Risk.Kernel.Entry.{
  trip_if, truth_or_trip, require_affordable, require_limits, gross_existing, issue,
  require_entry_allowed,
}
use esscher_market.Risk.Kernel.Entry.{authorize_entry}
use esscher_market.Tests.Data.{sample_host, event_one}
use esscher_market.Tests.Entries.{
  zero_host, paper_policy, spy_expression, spy_entry, spy_account, flat_truth, active_ledger,
  spy_approval,
}

approved :
    (authorize_entry zero_host paper_policy spy_entry flat_truth 7 active_ledger).0
    ≡ ok spy_approval
unfolding authorize_entry ◌>>=◌ constants_verified entry_allowed get_control_state identifier same
    strip underlying upper get_value risk_policy_sha256 compiled_expression_sha256
    validate_permit_binding debit_vertical_permit_id debit_vertical_permit_bytes expression_exposure
    decimal_field amount require_entry_allowed validate_candidate_binding compiled_underlying
    truth_or_trip observed_truth fresh_clock fresh_account fresh_positions fresh_orders trip_if
    require_affordable require_limits record_account_snapshot intraday_peak_equity sum_open_for
    gross_existing issue reserve_and_issue_permit validated_order sha256 positive_limit positive_int
    issue_body require_authorized insert_reservation insert_permit append_passport event_text
    entries_today count_open sum_open transaction maximum_loss finite_decimal
    validate_account_freshness validate_positions_freshness validate_orders_freshness validate_ages
    ◌-ℤ◌
approved = refl

authorize_entry-IsApproved_example :
    IsApproved zero_host paper_policy spy_entry flat_truth 7 active_ledger spy_approval
authorize_entry-IsApproved_example =
    authorize_entry-IsApproved zero_host paper_policy spy_entry flat_truth 7 active_ledger
      spy_approval approved

-- A truth source whose account call fails.
abbrev broken_truth : Truth
broken_truth = record flat_truth { account = raised }

-- A startup, an expression frozen, an entry tried on broken truth and then on good truth, and
-- another event abstained from.
abbrev session : List KernelCall
session =
    KernelCall.start flat_truth 5
    ∷ KernelCall.freeze_expression event_one (text "candidate-1") spy_expression (text "SYNTHETIC")
        5
    ∷ KernelCall.enter spy_entry broken_truth 6
    ∷ KernelCall.start flat_truth 7
    ∷ KernelCall.enter spy_entry flat_truth 8
    ∷ KernelCall.abstain (text "event-2") (text "NO_SIGNAL") 9
    ∷ []

kernel_refines_ledger_example :
    (ledger_calls : List LedgerCall) × (all (is_kernel_call zero_host paper_policy) ledger_calls
      ≡ true)
    × (run_all zero_host paper_policy session empty ≡ perform_all zero_host ledger_calls empty)
kernel_refines_ledger_example = kernel_refines_ledger zero_host paper_policy session empty

kernel_exposure_within_limits_example :
    let rs : List Reservation = (run_all zero_host paper_policy session empty).reservations in
    IsUnique rs × (sum_open rs ≤ 500) × (count_open rs ≤ 2)
kernel_exposure_within_limits_example = kernel_exposure_within_limits zero_host paper_policy session

kernel_passport_verifies_example :
    let l : Ledger = run_all sample_host paper_policy session empty in
    (es : List PassportEvent) × (passport_events sample_host l ≡ ok es)
    × (verify_passport sample_host es ≡ ok (length l.passport))
kernel_passport_verifies_example =
    kernel_passport_verifies sample_host paper_policy sample_host-IsJson session

abbrev killed_ledger : Ledger
killed_ledger = record active_ledger {
  control = some (record { state = kill; reason = none; updated_at = 5 });
}

killed : (get_control_state killed_ledger).0 ≡ kill
unfolding get_control_state
killed = refl

kill_survives_sessions_example :
    (get_control_state (run_all zero_host paper_policy session killed_ledger)).0 ≡ kill
kill_survives_sessions_example =
    kill_survives_sessions zero_host paper_policy session killed_ledger killed

startup_ends_example :
    let seen = observed_truth 60 7 broken_truth in
    let after = startup_reconciliation zero_host paper_policy broken_truth 7 active_ledger in
    ((seen ≡ err truth_error) × (after.0 ≡ err truth_error) × (after.1 ≡ active_ledger))
    ⊎ ((seen ≢ err truth_error)
        × ((s : ControlState) × (after.0 ≡ ok s) × ((get_control_state after.1).0 ≡ s)))
startup_ends_example = startup_ends zero_host paper_policy broken_truth 7 active_ledger

-- A source that raises another exception at its first method stops the startup.
failing_truth_raises :
    startup_reconciliation zero_host paper_policy
      (record broken_truth { broker_clock = failed })
      7
      active_ledger
    ≡ (err truth_error, active_ledger)
unfolding startup_reconciliation startup_from fail observed_truth fresh_clock validated
failing_truth_raises = refl

startup_active_iff_example :
    ((startup_reconciliation zero_host paper_policy flat_truth 7 active_ledger).0 ≡ ok active) ↔ (
      (seen : AccountSnapshot × List PositionSnapshot × List OrderSnapshot) × (observed_truth 60 7
          flat_truth
        ≡ ok seen)
      × ((get_control_state active_ledger).0 ≢ kill)
      × (any is_partial_fill seen.2 ≡ false)
      × (any is_held seen.1 ≡ false))
startup_active_iff_example = startup_active_iff zero_host paper_policy flat_truth 7 active_ledger

observed_truth_iff_example : (observed_truth 60 7 flat_truth ≡ ok (spy_account, [], [])) ↔ (
    ((clock : ℕ) × (flat_truth.broker_clock ≡ read clock) × (distance clock 7 ≤ 60 * second))
    × ((flat_truth.account ≡ read (some spy_account)) × IsFresh 60 7 6)
    × ((flat_truth.positions ≡ read [])
        × All (λ (p : PositionSnapshot). IsFresh 60 7 p.observed_at) [])
    × ((flat_truth.orders ≡ read []) × All (λ (o : OrderSnapshot). IsFresh 60 7 o.observed_at) []))
observed_truth_iff_example = observed_truth_iff 60 7 flat_truth spy_account [] []
