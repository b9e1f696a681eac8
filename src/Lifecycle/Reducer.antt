-- ===== src/Lifecycle/Reducer.antt =====
-- Folding broker truth into lifecycle states (src/esscher/lifecycle/reducer.py).
use esscher_market.Base.{
  Bool, true, false, not, List, [], ◌∷◌, if◌then◌else◌, filter, all, is_none, ◌==◌, length, leb,
}
use esscher_market.Base.Int.{ℤ, pos, eq_ℤ}
use esscher_market.Lifecycle.Reasons.{
  LifecycleState, open_submitted, open_partial, open_filled, open_canceled, open_unknown,
  close_partial, closed_flat,
}
use esscher_market.Lifecycle.Broker.{
  BrokerOrderState, partially_filled, filled, BrokerOrderTruth, PositionTruth, is_open_working,
  is_open_unfilled_terminal,
}
pub mod Proofs

-- `status == BrokerOrderState.FILLED` and `status == BrokerOrderState.PARTIALLY_FILLED`.
abbrev pub is_filled : BrokerOrderState → Bool
is_filled filled = true
is_filled _ = false

abbrev pub is_partially_filled : BrokerOrderState → Bool
is_partially_filled partially_filled = true
is_partially_filled _ = false

unfoldable pub reduce_open_order : BrokerOrderTruth → ℤ → LifecycleState
unfolding is_open_working is_open_unfilled_terminal
reduce_open_order truth expected_qty =
    if is_filled truth.status
    then (if eq_ℤ truth.filled_qty expected_qty then open_filled else open_unknown)
    else if is_partially_filled truth.status
    then open_partial
    else if is_open_unfilled_terminal truth.status
    then (if eq_ℤ truth.filled_qty (pos 0) then open_canceled else open_unknown)
    else if is_open_working truth.status
    then open_submitted
    else open_unknown

-- `tuple(p for p in positions if p.qty != 0)`.
unfoldable pub residue : List PositionTruth → List PositionTruth
residue = filter (λ p. not (eq_ℤ p.qty (pos 0)))

unfoldable pub reduce_close_order : BrokerOrderTruth → List PositionTruth → ℤ → LifecycleState
unfolding residue
reduce_close_order truth positions expected_qty =
    if is_partially_filled truth.status
    then close_partial
    else if is_filled truth.status
    then (if not (eq_ℤ truth.filled_qty expected_qty)
        then LifecycleState.manual_required
        else if not (length (residue positions) == 0)
        then LifecycleState.manual_required
        else closed_flat)
    else LifecycleState.manual_required

unfoldable pub opening_exposure_bearing : LifecycleState → Bool
opening_exposure_bearing open_submitted = true
opening_exposure_bearing open_partial = true
opening_exposure_bearing open_filled = true
opening_exposure_bearing open_unknown = true
opening_exposure_bearing _ = false

unfoldable pub positions_flat : List PositionTruth → Bool
positions_flat = all (λ position. eq_ℤ position.qty (pos 0))
