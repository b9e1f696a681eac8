-- ===== src/Risk/Kernel/Reconcile.antt =====
-- Submissions, fills and flat positions (src/esscher/risk/kernel.py).
pub mod Observed
use esscher_market.Base.{ℕ, Bool, true, false, not, ◌&&◌, any, ◌==◌}
use esscher_market.Base.Int.{finite, eq_ℤ}
use esscher_market.Base.Text.{Text, same}
use esscher_market.Base.Json.{Host}
use esscher_market.Base.Result.{Result, ok, err}
use esscher_market.Risk.Reasons.{
  RiskReason, contradictory_truth, partial_fill_state, non_flat_state, event_lifecycle_invalid,
  Failure, rejected, type_error, integrity_error, truth_error,
}
use esscher_market.Risk.Checks.{underlying, identifier}
use esscher_market.Risk.Controls.{ControlTrigger}
use esscher_market.Risk.Policy.{RiskPolicy}
use esscher_market.Risk.Snapshots.{OrderSnapshot, is_partial_fill}
use esscher_market.Risk.Ledger.Monad.{
  Action, pure, raise, fail, except, gets, check, or_reject, ◌>>=◌, ◌>>◌,
}
use esscher_market.Risk.Ledger.Queries.{reservation_for_event}
use esscher_market.Risk.Ledger.Orders.{reconcile_observed_order, release_consumed_after_flat}
use esscher_market.Risk.Kernel.Truth.{Truth, observed_orders, observed_positions}
use esscher_market.Risk.Kernel.Control.{apply_trigger, failure_trigger, is_held}
use esscher_market.Risk.Kernel.Entry.{trip_if}

-- `==` of the dataclass `OrderSnapshot`.
abbrev pub same_order : OrderSnapshot → OrderSnapshot → Bool
same_order a b =
    same a.order_id b.order_id
    && same a.symbol b.symbol
    && same a.status b.status
    && eq_ℤ a.filled_quantity b.filled_quantity
    && (a.observed_at == b.observed_at)

-- `error.reason is RiskReason.PARTIAL_FILL_STATE`.
abbrev pub is_partial_state : RiskReason → Bool
is_partial_state partial_fill_state = true
is_partial_state _ = false

module _ (host : Host) where
  -- What a `try` block over the truth gives, in a method that handles a `RiskRejected` only.
  unfoldable pub orders_or_trip : {A : Type 0} → Result Failure A → ℕ → Action A
  unfolding apply_trigger
  orders_or_trip (ok a) now = pure a
  orders_or_trip (err (rejected reason)) now =
      apply_trigger host (failure_trigger reason) now >>= λ _. raise reason
  orders_or_trip (err type_error) now = fail type_error
  orders_or_trip (err integrity_error) now = fail integrity_error
  orders_or_trip (err truth_error) now = fail truth_error

  -- The handler around `reconcile_observed_order`.
  unfoldable pub partial_trips : ℕ → Failure → Action (Unit {0})
  unfolding trip_if
  partial_trips now (rejected reason) =
      trip_if host (is_partial_state reason) ControlTrigger.partial_fill_state reason now >>= λ _.
      raise reason
  partial_trips now type_error = fail type_error
  partial_trips now integrity_error = fail integrity_error
  partial_trips now truth_error = fail truth_error

  module _ (policy : RiskPolicy) where
    unfoldable pub reconcile_fill : Text → Text → OrderSnapshot → Truth → ℕ → Action (Unit {0})
    unfolding orders_or_trip trip_if partial_trips
    reconcile_fill event_id permit_id fill truth now = do
      orders ← orders_or_trip (observed_orders policy.truth_max_age_seconds now truth) now
      trip_if host (not (any (same_order fill) orders)) ControlTrigger.contradictory_truth
          contradictory_truth now
      except (partial_trips now) (
          reconcile_observed_order host event_id permit_id fill.order_id fill.status
            (finite fill.filled_quantity) fill.observed_at now)

    unfoldable pub reconcile_flat : Text → Text → Truth → ℕ → Action (Unit {0})
    unfolding orders_or_trip trip_if
    reconcile_flat event_id permit_id truth now = do
      event ← check (identifier event_id)
      reservation ← or_reject event_lifecycle_invalid (← gets (reservation_for_event event))
      symbol ← check (underlying reservation.underlying)
      observed ← orders_or_trip (observed_positions policy.truth_max_age_seconds now truth) now
      trip_if host (any is_partial_fill observed.1) ControlTrigger.partial_fill_state
          partial_fill_state now
      trip_if host (any (λ p. same p.underlying symbol && is_held p) observed.0)
          ControlTrigger.non_flat_state non_flat_state now
      release_consumed_after_flat host event_id permit_id now
