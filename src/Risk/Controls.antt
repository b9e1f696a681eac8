-- ===== src/Risk/Controls.antt =====
-- The control-state machine (src/esscher/risk/controls.py).
pub mod Traces
use esscher_market.Base.{Bool, true, false, Option, none, some, List, [], ◌∷◌}
use esscher_market.Base.Result.{Result, ok, err, ◌>>=◌}
use esscher_market.Risk.Reasons.{
  ControlState, active, entry_disabled, close_only, kill, manual_required,
  control_state_blocks_entry, Checked,
}

pub data ControlTrigger : Type 0 where
  drawdown_limit_breached daily_loss_limit_breached stale_truth contradictory_truth : ControlTrigger
  partial_fill_state non_flat_state close_only_equity_threshold : ControlTrigger
  concentration_limit_breached kill_request manual_required_request resolved : ControlTrigger

-- `_TRANSITIONS.get((current, trigger))`.
transitions : ControlState → ControlTrigger → Option ControlState
transitions active drawdown_limit_breached = some entry_disabled
transitions active daily_loss_limit_breached = some entry_disabled
transitions active stale_truth = some entry_disabled
transitions active concentration_limit_breached = some entry_disabled
transitions active contradictory_truth = some manual_required
transitions active partial_fill_state = some manual_required
transitions active non_flat_state = some close_only
transitions active close_only_equity_threshold = some close_only
transitions active manual_required_request = some manual_required
transitions entry_disabled stale_truth = some entry_disabled
transitions entry_disabled contradictory_truth = some manual_required
transitions entry_disabled partial_fill_state = some manual_required
transitions entry_disabled non_flat_state = some close_only
transitions entry_disabled resolved = some active
transitions manual_required stale_truth = some entry_disabled
transitions manual_required contradictory_truth = some manual_required
transitions manual_required partial_fill_state = some manual_required
transitions manual_required non_flat_state = some close_only
transitions manual_required resolved = some active
transitions close_only stale_truth = some entry_disabled
transitions close_only contradictory_truth = some manual_required
transitions close_only partial_fill_state = some manual_required
transitions close_only non_flat_state = some close_only
transitions close_only resolved = some active
transitions _ _ = none

-- The state the table gives, or manual where it has no entry.
or_manual : Option ControlState → ControlState
or_manual none = manual_required
or_manual (some s) = s

-- The tests on the trigger `KILL_REQUEST`, then on the state `KILL`, then the table.
unfoldable pub next_control_state : ControlState → ControlTrigger → Checked ControlState
unfolding transitions or_manual
next_control_state current kill_request = ok kill
next_control_state kill resolved = err control_state_blocks_entry
next_control_state kill trigger = ok kill
next_control_state current trigger = ok (or_manual (transitions current trigger))

unfoldable pub entry_allowed : ControlState → Bool
entry_allowed active = true
entry_allowed _ = false

unfoldable pub close_allowed : ControlState → Bool
close_allowed kill = false
close_allowed _ = true

-- The stored state after one trigger: a trigger that raises leaves it as it was.
unfoldable pub apply_control : ControlState → ControlTrigger → ControlState
unfolding next_control_state
apply_control s t = elim (next_control_state s t) [ ok u ↦ u | err _ ↦ s ]

-- A sequence of triggers, each on the state that the one before it left.
unfoldable pub run_controls : ControlState → List ControlTrigger → ControlState
run_controls s [] = s
run_controls s (t ∷ ts) = run_controls (apply_control s t) ts
