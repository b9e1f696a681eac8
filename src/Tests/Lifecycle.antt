-- ===== src/Tests/Lifecycle.antt =====
-- The lifecycle theorems at concrete inputs.
use esscher_market.Base.{true, false, List, [], ◌∷◌, ◌≡◌, ◌≢◌, refl, ◌⊎◌, ◌↔◌}
use esscher_market.Base.Int.{pos}
use esscher_market.Base.Text.{text}
use esscher_market.Base.Result.{ok, err, is_ok}
use esscher_market.Lifecycle.Reasons.{
  LifecycleState, approved, open_submitted, open_partial, open_filled, open_canceled, holding,
  close_due, close_submitted, closed_flat, lifecycle_state_invalid,
}
use esscher_market.Lifecycle.Broker.{
  partially_filled, filled, BrokerOrderTruth, PositionTruth, is_open_working,
  is_open_unfilled_terminal,
}
use esscher_market.Lifecycle.States.{
  LifecycleTrigger, open_submit, open_fill, open_ambiguous, hold_elapsed, close_submit, close_fill,
  next_lifecycle_state, require_transition, is_terminal, entry_permitted, close_permitted,
  run_triggers,
}
use esscher_market.Lifecycle.States.Traces.{
  InOrder, flat_needs_proofs, terminal_absorbs, holding_unreachable,
}
use esscher_market.Lifecycle.States.Authority.{accepted_has_authority, is_closing}
use esscher_market.Lifecycle.Reducer.{
  reduce_open_order, reduce_close_order, opening_exposure_bearing, positions_flat,
}
use esscher_market.Lifecycle.Reducer.Proofs.{
  reduce_open_order_iff, reduce_close_order-flat_iff, reductions_are_transitions, open_trigger,
  close_trigger,
}

-- A filled order of one contract.
abbrev filled_order : BrokerOrderTruth
filled_order = record {
  order_id = text "order-1";
  client_order_id = text "client-1";
  status = filled;
  filled_qty = pos 1;
  observed_at = 40;
  permit_id = text "permit-1";
  open_permit_id = text "permit-1";
  event_run_id = text "event-1";
  reservation_id = text "rsv-event-1";
  correlation_sha256 = text "00";
  policy_sha256 = text "00";
  snapshot_sha256 = text "00";
  account_id = text "account-1";
  account_class = text "PAPER";
  order_class = text "mleg";
  limit_price = pos 3;
  legs = [];
}

-- One contract that is still held.
abbrev held : List PositionTruth
held = record { symbol = text "SPY"; qty = pos 1; observed_at = 41 } ∷ []

-- A full lifecycle, with an ambiguous readback of the opening on the way.
abbrev full_run : List LifecycleTrigger
full_run = open_submit ∷ open_ambiguous ∷ open_fill ∷ hold_elapsed ∷ close_submit ∷ close_fill ∷ []

reduce_close_order-flat_iff_example :
    (reduce_close_order filled_order held (pos 1) ≡ closed_flat) ↔ (
      (filled_order.status ≡ filled)
      × (filled_order.filled_qty ≡ pos 1)
      × (positions_flat held ≡ true))
reduce_close_order-flat_iff_example = reduce_close_order-flat_iff filled_order held (pos 1)

reduce_open_order_iff_example :
    let state = reduce_open_order filled_order (pos 1) in
    ((state ≡ open_filled) ↔ ((filled_order.status ≡ filled) × (filled_order.filled_qty ≡ pos 1)))
    × ((state ≡ open_canceled) ↔ (
        (is_open_unfilled_terminal filled_order.status ≡ true) × (filled_order.filled_qty ≡ pos 0)))
    × ((state ≡ open_submitted) ↔ (is_open_working filled_order.status ≡ true))
    × ((state ≡ open_partial) ↔ (filled_order.status ≡ partially_filled))
reduce_open_order_iff_example = reduce_open_order_iff filled_order (pos 1)

reductions_are_transitions_example :
    let opened = reduce_open_order filled_order (pos 1) in
    let closed = reduce_close_order filled_order held (pos 1) in
    ((opened ≡ open_submitted)
      ⊎ (require_transition open_submitted (open_trigger opened) ≡ ok opened))
    × (require_transition close_submitted (close_trigger closed) ≡ ok closed)
    × ((opened ≡ open_canceled) ⊎ (opening_exposure_bearing opened ≡ true))
reductions_are_transitions_example = reductions_are_transitions filled_order held (pos 1)

full_run_is_flat : run_triggers approved full_run ≡ closed_flat
unfolding run_triggers next_lifecycle_state
full_run_is_flat = refl

flat_needs_proofs_example :
    InOrder (open_submit ∷ open_fill ∷ hold_elapsed ∷ close_submit ∷ close_fill ∷ []) full_run
flat_needs_proofs_example = flat_needs_proofs full_run full_run_is_flat

closed_is_terminal : is_terminal closed_flat ≡ true
unfolding is_terminal
closed_is_terminal = refl

terminal_absorbs_example :
    (require_transition closed_flat open_submit ≡ err lifecycle_state_invalid)
    × (run_triggers closed_flat (open_submit ∷ full_run) ≡ LifecycleState.manual_required)
terminal_absorbs_example = terminal_absorbs closed_flat open_submit full_run closed_is_terminal

holding_unreachable_example : run_triggers approved full_run ≢ holding
holding_unreachable_example = holding_unreachable full_run

accepted_has_authority_example :
    (is_ok (require_transition close_due open_submit) ≡ entry_permitted close_due)
    × (is_closing close_submit ≡ true
        → is_ok (require_transition close_due close_submit) ≡ true
        → close_permitted close_due ≡ true)
    × (is_ok (require_transition close_due close_submit) ≡ true → is_terminal close_due ≡ false)
accepted_has_authority_example = accepted_has_authority close_due close_submit
