-- ===== src/Tests/Settlement.antt =====
-- The kernel's settlements at concrete inputs.
use esscher_market.Base.{[], ◌∷◌, ◌≡◌, refl}
use esscher_market.Base.Int.{pos}
use esscher_market.Base.Text.{text, same, strip, upper}
use esscher_market.Risk.Ledger.Rows.{Reservation, Permit, PermitState, ReservationState, consumed}
use esscher_market.Risk.Ledger.Monad.{except}
use esscher_market.Risk.Ledger.Reservations.{set_reservation_state, transition_permit}
use esscher_market.Risk.Ledger.Orders.{
  reconcile_observed_order, reconcile_body, settle, terminal_outcome, release_consumed_after_flat,
  flat_body,
}
use esscher_market.Risk.Kernel.Truth.{observed_positions, observed_orders}
use esscher_market.Risk.Kernel.Reconcile.{orders_or_trip, reconcile_fill, reconcile_flat}
use esscher_market.Risk.Kernel.Reconcile.Observed.{
  IsReleased, IsSettled, reconcile_flat-IsReleased, IsSettled, reconcile_fill-IsSettled,
}
use esscher_market.Base.Result.{ok}
use esscher_market.Risk.Snapshots.{OrderSnapshot}
use esscher_market.Risk.Ledger.Rows.{Ledger}
use esscher_market.Risk.Passport.{event_text}
use esscher_market.Risk.Checks.{identifier, underlying, amount}
use esscher_market.Risk.Snapshots.{
  validate_ages, validate_positions_freshness, validate_orders_freshness,
}
use esscher_market.Risk.Ledger.Monad.{◌>>=◌, transaction}
use esscher_market.Risk.Ledger.Passport.{append_passport}
use esscher_market.Risk.Kernel.Truth.{Truth, read, fresh_clock, fresh_positions, fresh_orders}
use esscher_market.Risk.Kernel.Entry.{trip_if}
use esscher_market.Tests.Data.{digest, event_one}
use esscher_market.Tests.Entries.{zero_host, paper_policy, flat_truth, active_ledger}

abbrev held_reservation : Reservation
held_reservation = record {
  reservation_id = text "reservation-1";
  event_id = event_one;
  amount = 300;
  state = consumed;
  underlying = text "SPY";
  created_at = 7;
  updated_at = 9;
}

abbrev filled_permit : Permit
filled_permit = record {
  permit_id = text "permit-1";
  event_id = event_one;
  reservation_id = text "reservation-1";
  permit_sha256 = digest;
  state = PermitState.filled;
  created_at = 7;
  updated_at = 9;
}

-- The entry filled and its exposure consumed.
abbrev filled_ledger : Ledger
filled_ledger = record active_ledger {
  reservations = held_reservation ∷ [];
  permits = filled_permit ∷ [];
}

flat_returns :
    (reconcile_flat zero_host paper_policy event_one
      (text "permit-1")
      flat_truth
      12
      filled_ledger).0
    ≡ ok tt
unfolding reconcile_flat ◌>>=◌ identifier same strip underlying upper orders_or_trip trip_if
    observed_positions fresh_clock fresh_positions fresh_orders validate_positions_freshness
    validate_orders_freshness validate_ages release_consumed_after_flat flat_body append_passport
    event_text transaction set_reservation_state
flat_returns = refl

reconcile_flat-IsReleased_example :
    IsReleased zero_host paper_policy event_one
      (text "permit-1")
      flat_truth
      12
      filled_ledger
      (reconcile_flat zero_host paper_policy event_one
        (text "permit-1")
        flat_truth
        12
        filled_ledger).1
reconcile_flat-IsReleased_example =
    reconcile_flat-IsReleased zero_host paper_policy event_one (text "permit-1") flat_truth 12
      filled_ledger flat_returns

abbrev filled_order : OrderSnapshot
filled_order = record {
  order_id = text "order-1";
  symbol = text "SPY";
  status = text "FILLED";
  filled_quantity = pos 1;
  observed_at = 11;
}

abbrev filled_truth : Truth
filled_truth = record flat_truth { orders = read (filled_order ∷ []) }

-- The entry submitted.
abbrev submitted_ledger : Ledger
submitted_ledger = record active_ledger {
  reservations = record held_reservation { state = ReservationState.reserved } ∷ [];
  permits = record filled_permit { state = PermitState.submitted } ∷ [];
  submissions =
      record {
        permit_id = text "permit-1";
        event_id = event_one;
        broker_order_id = text "order-1";
        submitted_at = 9;
      }
      ∷ [];
}

fill_returns :
    (reconcile_fill zero_host paper_policy event_one
      (text "permit-1")
      filled_order
      filled_truth
      12
      submitted_ledger).0
    ≡ ok tt
unfolding reconcile_fill ◌>>=◌ identifier same strip orders_or_trip trip_if observed_orders
    fresh_clock fresh_orders validate_orders_freshness validate_ages reconcile_observed_order
    reconcile_body settle amount append_passport event_text transaction transition_permit
    terminal_outcome except set_reservation_state
fill_returns = refl

reconcile_fill-IsSettled_example :
    IsSettled zero_host paper_policy event_one
      (text "permit-1")
      filled_order
      filled_truth
      12
      submitted_ledger
      (reconcile_fill zero_host paper_policy event_one
        (text "permit-1")
        filled_order
        filled_truth
        12
        submitted_ledger).1
reconcile_fill-IsSettled_example =
    reconcile_fill-IsSettled zero_host paper_policy event_one (text "permit-1") filled_order
      filled_truth 12 submitted_ledger fill_returns
