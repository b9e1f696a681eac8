-- ===== src/Risk/Reasons.antt =====
-- Control states and rejection reasons (src/esscher/risk/reasons.py). A `RiskRejected` is its
-- reason: its path and detail are text for people, and no code branches on them.
use esscher_market.Base.Result.{Result}

pub data ControlState : Type 0 where
  active entry_disabled close_only kill manual_required : ControlState

pub data RiskReason : Type 0 where
  policy_unverified_constant policy_hash_mismatch policy_not_paper_only : RiskReason
  control_state_blocks_entry duplicate_event_reservation immutable_event_replay : RiskReason
  not_run_event event_lifecycle_invalid permit_lifecycle_invalid budget_exceeded : RiskReason
  daily_loss_limit_breached drawdown_limit_breached concentration_limit_breached : RiskReason
  entry_count_limit_reached expression_limit_reached unknown_exposure : RiskReason
  exposure_not_calculable stale_account_truth stale_position_truth stale_order_truth : RiskReason
  stale_clock stale_quote contradictory_truth unknown_route missing_capability : RiskReason
  non_flat_state partial_fill_state reservation_not_released : RiskReason
  ledger_migration_required passport_verification_failed unsupported_input : RiskReason

-- The exceptions that the code tells apart: `RiskRejected` with its reason,
-- `sqlite3.IntegrityError` for a row that breaks a uniqueness constraint of a table, and an
-- `AttributeError` or a `TypeError` from a malformed truth source, and any other exception that a
-- truth source raises.
pub data Failure : Type 0 where
  rejected : RiskReason → Failure
  integrity_error : Failure
  type_error : Failure
  truth_error : Failure

-- A check that touches no state.
abbrev pub Checked : Type 0 → Type 0
Checked A = Result RiskReason A
