-- ===== src/Lifecycle/Reasons.antt =====
-- States and rejection reasons (src/esscher/lifecycle/reasons.py). A rejection is its reason: the
-- path and the detail of `LifecycleRejected` are text for people, and no code branches on them.

pub data LifecycleState : Type 0 where
  approved open_submitted open_partial open_filled open_canceled open_unknown : LifecycleState
  holding close_due close_submitted close_partial closed_flat manual_required : LifecycleState

pub data LifecycleReason : Type 0 where
  exit_plan_unverified exit_plan_clocks_misordered exit_plan_cohort_mismatch : LifecycleReason
  entry_deadline_passed entry_blocked_by_control permit_not_active duplicate_tick : LifecycleReason
  open_order_unknown open_order_partial close_permit_unavailable : LifecycleReason
  close_order_unknown close_order_partial broker_outage stale_quote : LifecycleReason
  stale_account_truth stale_broker_truth broker_truth_mismatch non_flat_close : LifecycleReason
  flattening_deadline_passed clock_jump restart_state_invalid : LifecycleReason
  restart_intent_replayed lifecycle_state_invalid manual_required : LifecycleReason
  mutation_gate_closed unsupported_input : LifecycleReason
