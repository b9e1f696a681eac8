-- ===== src/Lifecycle/Reducer/Proofs.antt =====
-- The reductions against the state machine (src/esscher/lifecycle/reducer.py and states.py).
use esscher_market.Base.{true, List, [], ◌∷◌, arith, ◌≡◌, ◌⊎◌, ◌↔◌, refl, length, ◌==◌}
use esscher_market.Base.Int.{ℤ, pos, eq_ℤ_iff}
use esscher_market.Base.Result.{ok}
use esscher_market.Lifecycle.Reasons.{
  LifecycleState, open_submitted, open_partial, open_filled, open_canceled, close_partial,
  closed_flat, close_submitted,
}
use esscher_market.Lifecycle.Broker.{
  partially_filled, filled, BrokerOrderTruth, PositionTruth, is_open_working,
  is_open_unfilled_terminal,
}
use esscher_market.Lifecycle.States.{
  LifecycleTrigger, open_fill, open_partial_fill, open_cancel, open_ambiguous, close_fill,
  close_partial_fill, close_ambiguous, require_transition,
}
use esscher_market.Lifecycle.Reducer.{
  reduce_open_order, reduce_close_order, residue, opening_exposure_bearing, positions_flat,
}

residue-positions_flat : (ps : List PositionTruth) → (length (residue ps) == 0) ≡ positions_flat ps
unfolding residue positions_flat
residue-positions_flat [] = refl
residue-positions_flat (p ∷ ps) = ground (arith, residue-positions_flat ps)

-- An opening is reported filled exactly when the broker says filled at the permit's quantity,
-- canceled exactly when a terminal unfilled status comes with no fill, submitted exactly when the
-- order is working, and partial exactly when the broker says partially filled.
pub reduce_open_order_iff :
    (truth : BrokerOrderTruth) (expected : ℤ)
    → let state = reduce_open_order truth expected in
      ((state ≡ open_filled) ↔ ((truth.status ≡ filled) × (truth.filled_qty ≡ expected)))
      × ((state ≡ open_canceled)
          ↔ ((is_open_unfilled_terminal truth.status ≡ true) × (truth.filled_qty ≡ pos 0)))
      × ((state ≡ open_submitted) ↔ (is_open_working truth.status ≡ true))
      × ((state ≡ open_partial) ↔ (truth.status ≡ partially_filled))
unfolding reduce_open_order
reduce_open_order_iff truth expected =
    ground (arith, eq_ℤ_iff truth.filled_qty expected, eq_ℤ_iff truth.filled_qty (pos 0))

-- A close is reported flat exactly when the broker says filled, at the permit's quantity, and every
-- observed position has quantity zero.
pub reduce_close_order-flat_iff :
    (truth : BrokerOrderTruth) (positions : List PositionTruth) (expected : ℤ)
    → (reduce_close_order truth positions expected ≡ closed_flat) ↔ (
        (truth.status ≡ filled) × (truth.filled_qty ≡ expected) × (positions_flat positions ≡ true))
unfolding reduce_close_order
reduce_close_order-flat_iff truth positions expected =
    ground (arith, eq_ℤ_iff truth.filled_qty expected, residue-positions_flat positions)

-- The trigger that an opening readback stands for; an order that still works stands for none.
abbrev pub open_trigger : LifecycleState → LifecycleTrigger
open_trigger open_filled = open_fill
open_trigger open_partial = open_partial_fill
open_trigger open_canceled = open_cancel
open_trigger _ = open_ambiguous

-- The trigger that a closing readback stands for.
abbrev pub close_trigger : LifecycleState → LifecycleTrigger
close_trigger closed_flat = close_fill
close_trigger close_partial = close_partial_fill
close_trigger _ = close_ambiguous

-- Whatever the broker reports, the reduced state of an opening order is the submitted state or one
-- accepted transition from it, and the reduced state of a closing order is one accepted transition
-- from the submitted close. An opening that is not canceled bears exposure.
pub reductions_are_transitions :
    (truth : BrokerOrderTruth) (positions : List PositionTruth) (expected : ℤ)
    → let opened = reduce_open_order truth expected in
      let closed = reduce_close_order truth positions expected in
      ((opened ≡ open_submitted)
        ⊎ (require_transition open_submitted (open_trigger opened) ≡ ok opened))
      × (require_transition close_submitted (close_trigger closed) ≡ ok closed)
      × ((opened ≡ open_canceled) ⊎ (opening_exposure_bearing opened ≡ true))
unfolding reduce_open_order reduce_close_order require_transition opening_exposure_bearing
reductions_are_transitions truth positions expected = ground arith
