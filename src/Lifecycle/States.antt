-- ===== src/Lifecycle/States.antt =====
-- The transition table and its readers (src/esscher/lifecycle/states.py). A key that the table
-- lacks is `none`; `require_transition` raises there and `next_lifecycle_state` goes to manual.
use esscher_market.Base.{Bool, true, false, Option, none, some, List, [], ◌∷◌}
use esscher_market.Base.Result.{Result, ok, err}
use esscher_market.Lifecycle.Reasons.{
  LifecycleState, approved, open_submitted, open_partial, open_filled, open_canceled, open_unknown,
  holding, close_due, close_submitted, close_partial, closed_flat, LifecycleReason,
  lifecycle_state_invalid,
}
pub mod Traces
pub mod Authority

pub data LifecycleTrigger : Type 0 where
  open_submit open_fill open_partial_fill open_cancel open_ambiguous : LifecycleTrigger
  hold_elapsed close_submit close_fill close_partial_fill close_ambiguous : LifecycleTrigger
  flattening_deadline manual : LifecycleTrigger

-- `_TRANSITIONS.get((current, trigger))`.
transitions : LifecycleState → LifecycleTrigger → Option LifecycleState
transitions approved open_submit = some open_submitted
transitions open_submitted open_fill = some open_filled
transitions open_submitted open_partial_fill = some open_partial
transitions open_submitted open_cancel = some open_canceled
transitions open_submitted open_ambiguous = some open_unknown
transitions open_unknown open_fill = some open_filled
transitions open_unknown open_partial_fill = some open_partial
transitions open_unknown open_cancel = some open_canceled
transitions open_unknown manual = some LifecycleState.manual_required
transitions open_partial manual = some LifecycleState.manual_required
transitions open_filled hold_elapsed = some close_due
transitions holding hold_elapsed = some close_due
transitions close_due close_submit = some close_submitted
transitions close_submitted close_fill = some closed_flat
transitions close_submitted close_partial_fill = some close_partial
transitions close_submitted close_ambiguous = some LifecycleState.manual_required
transitions close_partial manual = some LifecycleState.manual_required
transitions _ _ = none

unfoldable pub next_lifecycle_state : LifecycleState → LifecycleTrigger → LifecycleState
unfolding transitions
next_lifecycle_state current trigger = elim (transitions current trigger) [
  | none ↦ LifecycleState.manual_required
  | some next ↦ next
]

unfoldable pub require_transition :
    LifecycleState → LifecycleTrigger → Result LifecycleReason LifecycleState
unfolding transitions
require_transition current trigger = elim (transitions current trigger) [
  | none ↦ err lifecycle_state_invalid
  | some next ↦ ok next
]

unfoldable pub is_terminal : LifecycleState → Bool
is_terminal open_canceled = true
is_terminal closed_flat = true
is_terminal LifecycleState.manual_required = true
is_terminal _ = false

unfoldable pub entry_permitted : LifecycleState → Bool
entry_permitted approved = true
entry_permitted _ = false

unfoldable pub close_permitted : LifecycleState → Bool
close_permitted open_partial = true
close_permitted open_filled = true
close_permitted open_unknown = true
close_permitted holding = true
close_permitted close_due = true
close_permitted close_submitted = true
close_permitted close_partial = true
close_permitted LifecycleState.manual_required = true
close_permitted _ = false

-- The states that a run of triggers goes through, and where it ends.
unfoldable pub run_triggers : LifecycleState → List LifecycleTrigger → LifecycleState
run_triggers s [] = s
run_triggers s (t ∷ ts) = run_triggers (next_lifecycle_state s t) ts
