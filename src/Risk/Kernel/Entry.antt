-- ===== src/Risk/Kernel/Entry.antt =====
-- `authorize_entry` (src/esscher/risk/kernel.py).
pub mod Unchanged
pub mod Approved
use esscher_market.Base.{ℕ, ◌+◌, Bool, not, ◌&&◌, List, [], ◌∷◌, any, ltb, if◌then◌else◌}
use esscher_market.Base.Int.{pos, ◌-ℤ◌, leb_ℤ, ltb_ℤ, abs, finite}
use esscher_market.Base.Text.{Text, text, same}
use esscher_market.Base.Json.{Host}
use esscher_market.Base.Result.{Result, ok, err}
use esscher_market.Execution.Expression.{CompiledExpression, compiled_expression_sha256}
use esscher_market.Execution.Models.{DebitVerticalPermit, debit_vertical_permit_bytes}
use esscher_market.Risk.Reasons.{
  ControlState, RiskReason, policy_unverified_constant, policy_not_paper_only,
  control_state_blocks_entry, contradictory_truth, partial_fill_state, budget_exceeded,
  daily_loss_limit_breached, drawdown_limit_breached, concentration_limit_breached,
  unsupported_input, Failure, rejected, type_error, integrity_error, truth_error,
}
use esscher_market.Risk.Checks.{identifier}
use esscher_market.Risk.Controls.{ControlTrigger, entry_allowed}
use esscher_market.Risk.Exposure.{expression_exposure}
use esscher_market.Risk.Policy.{RiskPolicy, constants_verified}
use esscher_market.Risk.Snapshots.{AccountSnapshot, PositionSnapshot, is_partial_fill}
use esscher_market.Risk.Ledger.Monad.{
  Action, pure, raise, fail, reject_if, gets, check, ◌>>=◌, ◌>>◌,
}
use esscher_market.Risk.Ledger.Queries.{sum_open_for}
use esscher_market.Risk.Ledger.Records.{
  get_control_state, record_account_snapshot, intraday_peak_equity,
}
use esscher_market.Risk.Ledger.Authorize.{Request, reserve_and_issue_permit}
use esscher_market.Risk.Kernel.Truth.{Truth, observed_truth}
use esscher_market.Risk.Kernel.Control.{apply_trigger, failure_trigger}
use esscher_market.Risk.Kernel.Binding.{validate_candidate_binding}
use esscher_market.Risk.Kernel.Permit.{validate_permit_binding}

-- The arguments of `authorize_entry`.
pub record Entry : Type 0 where
  pub event_id : Text
  pub underlying : Text
  pub candidate_id : Text
  pub compiled : CompiledExpression
  pub permit : DebitVerticalPermit

pub record RiskApproval : Type 0 where
  pub event_id : Text
  pub candidate_id : Text
  pub reservation_id : Text
  pub permit_id : Text
  pub permit_sha256 : Text
  pub exposure : ℕ
  pub control_state : ControlState

-- `sum(abs(position.market_value) for position in positions if position.underlying == symbol)`.
unfoldable pub gross_existing : Text → List PositionSnapshot → ℕ
gross_existing symbol [] = 0
gross_existing symbol (p ∷ rest) =
    (if same p.underlying symbol then abs p.market_value else 0) + gross_existing symbol rest

module _ (host : Host) where
  -- `if test: self._apply_trigger(trigger, ...); raise _reject(reason, ...)`.
  unfoldable pub trip_if : Bool → ControlTrigger → RiskReason → ℕ → Action (Unit {0})
  unfolding apply_trigger
  trip_if test trigger reason now =
      if test then (apply_trigger host trigger now >>= λ _. raise reason) else pure tt

  -- What a `try` block over the truth gives, in a method that handles a malformed source too.
  unfoldable pub truth_or_trip : {A : Type 0} → Result Failure A → ℕ → Action A
  unfolding apply_trigger
  truth_or_trip (ok a) now = pure a
  truth_or_trip (err (rejected reason)) now =
      apply_trigger host (failure_trigger reason) now >>= λ _. raise reason
  truth_or_trip (err type_error) now =
      apply_trigger host ControlTrigger.contradictory_truth now >>= λ _. raise contradictory_truth
  truth_or_trip (err integrity_error) now = fail integrity_error
  truth_or_trip (err truth_error) now = fail truth_error

  module _ (policy : RiskPolicy) where
    -- From the exposure to the buying power. (`exposure.is_finite()` and `exposure >= 0` hold of
    -- every exposure that `expression_exposure` returns.)
    unfoldable pub require_affordable : ℕ → AccountSnapshot → Action (Unit {0})
    require_affordable exposure account = do
      reject_if (ltb policy.per_event_loss_budget exposure) budget_exceeded
      reject_if (ltb_ℤ account.buying_power (pos exposure)) budget_exceeded

    -- From `record_account_snapshot` to the concentration limit.
    unfoldable pub require_limits :
        Text → ℕ → AccountSnapshot → List PositionSnapshot → ℕ → Action (Unit {0})
    unfolding trip_if
    require_limits symbol exposure account positions now = do
      record_account_snapshot (finite account.equity) now
      peak ← gets (intraday_peak_equity now)
      trip_if (ltb_ℤ (pos policy.daily_loss_limit) (peak -ℤ account.equity))
          ControlTrigger.daily_loss_limit_breached daily_loss_limit_breached now
      trip_if (ltb_ℤ (pos policy.drawdown_limit) (pos policy.account_capital -ℤ account.equity))
          ControlTrigger.drawdown_limit_breached drawdown_limit_breached now
      trip_if (leb_ℤ account.equity (pos policy.close_only_equity_threshold))
          ControlTrigger.close_only_equity_threshold control_state_blocks_entry now
      held ← gets (λ l. sum_open_for symbol l.reservations)
      trip_if (ltb policy.concentration_limit (gross_existing symbol positions + held + exposure))
          ControlTrigger.concentration_limit_breached concentration_limit_breached now

    -- The arguments of the call of `reserve_and_issue_permit`.
    abbrev pub request_of : Entry → Text → Text → Text → ℕ → Request
    request_of e event symbol active_policy exposure = record {
      event_id = event;
      underlying = symbol;
      candidate_id = e.candidate_id;
      risk_policy_sha256 = active_policy;
      decision_sha256 = e.compiled.decision_sha256;
      expression_sha256 = compiled_expression_sha256 host e.compiled;
      amount = finite (pos exposure);
      aggregate_limit = finite (pos policy.aggregate_exposure_limit);
      max_open_expressions = pos policy.max_open_expressions;
      max_entries_per_day = pos policy.max_entries_per_day;
    }

    -- The receipt `(reservation_id, issued_permit_id, permit_sha256)` preserves the permit.
    abbrev pub is_receipt_of : DebitVerticalPermit → Text × Text × Text → Bool
    is_receipt_of permit (_, issued, digest) =
        same issued permit.permit_id
        && same digest (host.sha256_hex (debit_vertical_permit_bytes host permit))

    -- From the call of the ledger to the end.
    unfoldable pub issue : Entry → Text → Text → Text → ℕ → ControlState → ℕ → Action RiskApproval
    issue e event symbol active_policy exposure state now = do
      decision ← check (identifier e.compiled.decision_sha256)
      receipt ←
          reserve_and_issue_permit host (request_of e event symbol active_policy exposure) e.permit
            now
      reject_if (not (is_receipt_of e.permit receipt)) unsupported_input
      pure (record {
        event_id = event;
        candidate_id = e.candidate_id;
        reservation_id = receipt.0;
        permit_id = receipt.1;
        permit_sha256 = receipt.2;
        exposure = exposure;
        control_state = state;
      })

    -- The three tests in front of the bindings.
    unfoldable pub require_entry_allowed : Action ControlState
    require_entry_allowed = do
      reject_if (not (constants_verified policy)) policy_unverified_constant
      reject_if (not (same policy.run_mode (text "PAPER"))) policy_not_paper_only
      state ← gets (λ l. (get_control_state l).0)
      reject_if (not (entry_allowed state)) control_state_blocks_entry
      pure state

    unfoldable pub authorize_entry : Entry → Truth → ℕ → Action RiskApproval
    unfolding validate_candidate_binding truth_or_trip trip_if require_affordable require_limits
        issue require_entry_allowed
    authorize_entry e truth now = do
      state ← require_entry_allowed
      bound ←
          validate_candidate_binding host policy e.event_id e.underlying e.candidate_id e.compiled
      check (validate_permit_binding host e.permit e.compiled bound.2 now)
      observed ← truth_or_trip (observed_truth policy.truth_max_age_seconds now truth) now
      trip_if (any is_partial_fill observed.2) ControlTrigger.partial_fill_state partial_fill_state
          now
      exposure ← check (expression_exposure host e.compiled)
      require_affordable exposure observed.0
      require_limits bound.1 exposure observed.0 observed.1 now
      issue e bound.0 bound.1 bound.2 exposure state now
