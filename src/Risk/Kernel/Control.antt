-- ===== src/Risk/Kernel/Control.antt =====
-- Triggers and startup (src/esscher/risk/kernel.py).
pub mod Leaves
use esscher_market.Base.{ℕ, Bool, true, false, not, Option, some, List, [], ◌∷◌, any, if◌then◌else◌}
use esscher_market.Base.Int.{is_zero}
use esscher_market.Base.Text.{Text, text}
use esscher_market.Base.Json.{string, Fields, fields, Host}
use esscher_market.Base.Result.{Result, ok, err}
use esscher_market.Risk.Reasons.{
  ControlState, active, entry_disabled, close_only, kill, manual_required, RiskReason,
  stale_account_truth, stale_position_truth, stale_order_truth, stale_clock, Failure, rejected,
  type_error, integrity_error, truth_error,
}
use esscher_market.Risk.Controls.{ControlTrigger, next_control_state}
use esscher_market.Risk.Snapshots.{
  AccountSnapshot, PositionSnapshot, OrderSnapshot, is_partial_fill,
}
use esscher_market.Risk.Policy.{RiskPolicy}
use esscher_market.Risk.Ledger.Rows.{Ledger}
use esscher_market.Risk.Ledger.Monad.{Action, pure, fail, gets, check, ◌>>=◌, ◌>>◌}
use esscher_market.Risk.Ledger.Records.{set_control_state_with_passport, get_control_state}
use esscher_market.Risk.Kernel.Truth.{Truth, observed_truth}

abbrev pub trigger_text : ControlTrigger → Text
trigger_text ControlTrigger.drawdown_limit_breached = text "DRAWDOWN_LIMIT_BREACHED"
trigger_text ControlTrigger.daily_loss_limit_breached = text "DAILY_LOSS_LIMIT_BREACHED"
trigger_text ControlTrigger.stale_truth = text "STALE_TRUTH"
trigger_text ControlTrigger.contradictory_truth = text "CONTRADICTORY_TRUTH"
trigger_text ControlTrigger.partial_fill_state = text "PARTIAL_FILL_STATE"
trigger_text ControlTrigger.non_flat_state = text "NON_FLAT_STATE"
trigger_text ControlTrigger.close_only_equity_threshold = text "CLOSE_ONLY_EQUITY_THRESHOLD"
trigger_text ControlTrigger.concentration_limit_breached = text "CONCENTRATION_LIMIT_BREACHED"
trigger_text ControlTrigger.kill_request = text "KILL_REQUEST"
trigger_text ControlTrigger.manual_required_request = text "MANUAL_REQUIRED_REQUEST"
trigger_text ControlTrigger.resolved = text "RESOLVED"

abbrev pub control_text : ControlState → Text
control_text active = text "ACTIVE"
control_text entry_disabled = text "ENTRY_DISABLED"
control_text close_only = text "CLOSE_ONLY"
control_text kill = text "KILL"
control_text manual_required = text "MANUAL_REQUIRED"

-- `_failure_trigger`.
unfoldable pub failure_trigger : RiskReason → ControlTrigger
failure_trigger stale_account_truth = ControlTrigger.stale_truth
failure_trigger stale_position_truth = ControlTrigger.stale_truth
failure_trigger stale_order_truth = ControlTrigger.stale_truth
failure_trigger stale_clock = ControlTrigger.stale_truth
failure_trigger _ = ControlTrigger.contradictory_truth

-- `position.quantity != Decimal(0)`.
abbrev pub is_held : PositionSnapshot → Bool
is_held position = not (is_zero position.quantity)

-- `state is ControlState.KILL or state is ControlState.ACTIVE`.
abbrev pub is_settled : ControlState → Bool
is_settled kill = true
is_settled active = true
is_settled _ = false

module _ (host : Host) where
  abbrev pub trigger_payload : ControlState → ControlState → ControlTrigger → Fields
  trigger_payload current updated trigger = fields (
      (text "from", string (control_text current))
      ∷ (text "to", string (control_text updated))
      ∷ (text "trigger", string (trigger_text trigger))
      ∷ [])

  -- `_apply_trigger`.
  unfoldable pub apply_trigger : ControlTrigger → ℕ → Action ControlState
  apply_trigger trigger now = do
    current ← gets (λ l. (get_control_state l).0)
    updated ← check (next_control_state current trigger)
    set_control_state_with_passport host updated (some (trigger_text trigger))
        (trigger_payload current updated trigger) now
    pure updated

  -- The last statements of `startup_reconciliation`, on fresh truth with nothing open.
  unfoldable pub resume : ℕ → Action ControlState
  unfolding apply_trigger
  resume now = do
    state ← gets (λ l. (get_control_state l).0)
    (if is_settled state then pure state else apply_trigger ControlTrigger.resolved now)

  -- `startup_reconciliation` once its `try` block has ended.
  unfoldable pub startup_from :
      Result Failure (AccountSnapshot × List PositionSnapshot × List OrderSnapshot)
      → ℕ
      → Action ControlState
  unfolding apply_trigger resume
  startup_from (err (rejected reason)) now = apply_trigger (failure_trigger reason) now
  startup_from (err type_error) now = apply_trigger ControlTrigger.contradictory_truth now
  startup_from (err integrity_error) now = fail integrity_error
  startup_from (err truth_error) now = fail truth_error
  startup_from (ok (_, positions, orders)) now =
      if any is_partial_fill orders
      then apply_trigger ControlTrigger.partial_fill_state now
      else (if any is_held positions
          then apply_trigger ControlTrigger.non_flat_state now
          else resume now)

  unfoldable pub startup_reconciliation : RiskPolicy → Truth → ℕ → Action ControlState
  unfolding startup_from
  startup_reconciliation policy truth now =
      startup_from (observed_truth policy.truth_max_age_seconds now truth) now
