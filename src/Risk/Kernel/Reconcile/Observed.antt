-- ===== src/Risk/Kernel/Reconcile/Observed.antt =====
-- What the kernel saw when it settled an order or released an exposure (src/esscher/risk/kernel.py).
use esscher_market.Base.{ℕ, update, true, false, ◌&&◌, List, any, arith, ◌≡◌, refl, some}
use esscher_market.Base.Int.{finite}
use esscher_market.Base.Text.{Text, same}
use esscher_market.Base.Json.{Host}
use esscher_market.Base.Result.{Result, ok, err}
use esscher_market.Risk.Reasons.{Failure, rejected, type_error, integrity_error, truth_error}
use esscher_market.Risk.Policy.{RiskPolicy}
use esscher_market.Risk.Snapshots.{PositionSnapshot, OrderSnapshot, is_partial_fill}
use esscher_market.Risk.Ledger.Rows.{Ledger, Reservation, released}
use esscher_market.Risk.Ledger.Monad.{fail}
use esscher_market.Risk.Ledger.Orders.{
  is_consumed_by, flat_body, reconcile_observed_order, release_consumed_after_flat,
}
use esscher_market.Risk.Ledger.Reservations.{set_reservation_state}
use esscher_market.Risk.Ledger.Passport.{append_passport}
use esscher_market.Risk.Ledger.Queries.{of_event, permit_by_id, reservation_for_event}
use esscher_market.Risk.Ledger.Ensures.{
  Ensures, Ensures-pure, Ensures-value, Ensures-map, Ensures-modify, Ensures-transaction,
  except-own, then_modify, then_reject_if, then_gets, then_or_reject, then_check,
}
use esscher_market.Risk.Kernel.Truth.{Truth, observed_orders, observed_positions}
use esscher_market.Risk.Kernel.Control.{is_held}
use esscher_market.Risk.Kernel.Entry.Unchanged.{
  then_reads, trip_if-reads, raise_after, underlying-value, identifier-value,
}
use esscher_market.Risk.Kernel.Reconcile.{
  same_order, orders_or_trip, partial_trips, reconcile_fill, reconcile_flat,
}

module _ (host : Host) (policy : RiskPolicy) where
  orders_or_trip-reads :
      {A : Type 0} (r : Result Failure A) (now : ℕ) (l : Ledger)
      → Ensures (orders_or_trip host r now) l (λ a l'. (r ≡ ok a) × (l' ≡ l))
  unfolding orders_or_trip fail
  orders_or_trip-reads (ok a) now l = Ensures-pure a l (refl, refl)
  orders_or_trip-reads (err (rejected reason)) now l = raise_after host _ reason l
  orders_or_trip-reads (err type_error) now l = record { at = tt }
  orders_or_trip-reads (err integrity_error) now l = record { at = tt }
  orders_or_trip-reads (err truth_error) now l = record { at = tt }

  partial_trips-raises :
      (e : Failure) (now : ℕ) (l : Ledger) → Ensures (partial_trips host now e) l (λ _ _. ⊥)
  unfolding partial_trips fail
  partial_trips-raises (rejected reason) now l = raise_after host _ reason l
  partial_trips-raises type_error now l = record { at = tt }
  partial_trips-raises integrity_error now l = record { at = tt }
  partial_trips-raises truth_error now l = record { at = tt }

  -- The event's reservation, and the truth that showed its underlying to be flat.
  pub record IsFlat (event : Text) (truth : Truth) (now : ℕ) (l : Ledger) : Type 0 where
    pub held : Reservation
    pub reserved : reservation_for_event event l ≡ some held
    pub seen : List PositionSnapshot × List OrderSnapshot
    pub fresh : observed_positions policy.truth_max_age_seconds now truth ≡ ok seen
    pub whole : any is_partial_fill seen.1 ≡ false
    pub flat : any (λ p. same p.underlying held.underlying && is_held p) seen.0 ≡ false

  -- The permit was filled for the event, and held its consumed reservation; that reservation is
  -- released, and every other one and every permit is as it was.
  pub record IsFreed (event permit : Text) (now : ℕ) (l l' : Ledger) : Type 0 where
    pub owned : is_consumed_by event (permit_by_id permit l) (reservation_for_event event l) ≡ true
    pub moved :
        l'.reservations
        ≡ update
            (of_event event)
            (λ r. record r { state = released; updated_at = now })
            l.reservations
    pub permits : l'.permits ≡ l.permits

  release-IsFreed :
      (event permit : Text) (now : ℕ) (l : Ledger)
      → Ensures
          (release_consumed_after_flat host event permit now)
          l
          (λ _ l'. IsFreed event permit now l l')
  unfolding release_consumed_after_flat flat_body set_reservation_state append_passport
  release-IsFreed event permit now l = then_check _ _ λ e own_event. then_check _ _ λ p own_permit.
      Ensures-transaction _ _ l (
        then_gets _ _ (
          then_gets _ _ (
            then_reject_if _ _ _ λ owned. then_modify _ _ (
              then_check _ _ λ _ _. Ensures-modify _ _ (
                let same_event = identifier-value event e own_event in
                let same_permit = identifier-value permit p own_permit in
                record {
                  owned = rw (← same_event, ← same_permit) (ground arith);
                  moved = rw (← same_event) refl;
                  permits = refl;
                })))))

  -- The exposure of the event was flat and is released.
  abbrev pub IsReleased : Text → Text → Truth → ℕ → Ledger → Ledger → Type 0
  IsReleased event permit truth now l l' = IsFlat event truth now l × IsFreed event permit now l l'

  flat_lem :
      (event permit : Text) (truth : Truth) (now : ℕ) (l : Ledger)
      → Ensures
          (reconcile_flat host policy event permit truth now)
          l
          (λ _ l'. IsReleased event permit truth now l l')
  unfolding reconcile_flat
  flat_lem event permit truth now l = then_check _ _ λ name own_name. then_gets _ _ (
      then_or_reject _ _ _ λ held reserved. then_check _ _ λ symbol named.
        then_reads _ _ _ l (orders_or_trip-reads _ now l) λ seen fresh.
          then_reads _ _ _ l (trip_if-reads host _ _ _ now l) λ _ whole.
            then_reads _ _ _ l (trip_if-reads host _ _ _ now l) λ _ flat.
              let own = underlying-value held.underlying symbol named in
              let same_event = identifier-value event name own_name in
              Ensures-map
                (λ _ l' returned. (
                  record {
                    held = held;
                    reserved = rw (← same_event) reserved;
                    seen = seen;
                    fresh = fresh;
                    whole = whole;
                    flat = rw (← own) flat;
                  },
                  returned,
                ))
                (release-IsFreed event permit now l))

  -- A `reconcile_flat` that returns has released the exposure of the event that it is for: that event's
  -- reservation, consumed by the filled permit of the call, is released, and every other reservation and
  -- every permit is as it was. Fresh truth showed no partial fill and no position in the reserved
  -- underlying that is not zero.
  pub reconcile_flat-IsReleased :
      (event permit : Text) (truth : Truth) (now : ℕ) (l : Ledger)
      → (reconcile_flat host policy event permit truth now l).0 ≡ ok tt
      → IsReleased event permit truth now l (reconcile_flat host policy event permit truth now l).1
  reconcile_flat-IsReleased event permit truth now l h =
      Ensures-value (reconcile_flat host policy event permit truth now) l tt
        (flat_lem event permit truth now l) h

  -- The order is among those that fresh truth shows, and the call leaves what the ledger's
  -- reconciliation of that order leaves.
  abbrev pub IsSettled : Text → Text → OrderSnapshot → Truth → ℕ → Ledger → Ledger → Type 0
  IsSettled event permit fill truth now l l' =
      ((orders : List OrderSnapshot) × (observed_orders policy.truth_max_age_seconds now truth
          ≡ ok orders)
        × (any (same_order fill) orders ≡ true))
      × ((reconcile_observed_order host event permit fill.order_id fill.status
            (finite fill.filled_quantity) fill.observed_at now l).0
          ≡ ok tt)
      × ((reconcile_observed_order host event permit fill.order_id fill.status
            (finite fill.filled_quantity) fill.observed_at now l).1
          ≡ l')

  settled_lem :
      (event permit : Text) (fill : OrderSnapshot) (truth : Truth) (now : ℕ) (l : Ledger)
      → Ensures
          (reconcile_fill host policy event permit fill truth now)
          l
          (λ _ l'. IsSettled event permit fill truth now l l')
  unfolding reconcile_fill
  settled_lem event permit fill truth now l =
      then_reads _ _ _ l (orders_or_trip-reads _ now l) λ orders fresh.
        then_reads _ _ _ l (trip_if-reads host _ _ _ now l) λ _ present.
          Ensures-map (λ _ l' returned. ((orders, fresh, ground arith), returned.0, returned.1))
            (except-own (partial_trips host now)
              (reconcile_observed_order host event permit fill.order_id fill.status
                (finite fill.filled_quantity) fill.observed_at now)
              l λ e l'. partial_trips-raises e now l')

  -- A `reconcile_fill` that returns has settled the order that it is given: the order is one of those
  -- that fresh truth shows, in each of its fields, and the call leaves what the ledger's reconciliation
  -- of that order, in those fields, with the event's permit leaves.
  pub reconcile_fill-IsSettled :
      (event permit : Text) (fill : OrderSnapshot) (truth : Truth) (now : ℕ) (l : Ledger)
      → (reconcile_fill host policy event permit fill truth now l).0 ≡ ok tt
      → IsSettled event permit fill truth now l
          (reconcile_fill host policy event permit fill truth now l).1
  reconcile_fill-IsSettled event permit fill truth now l h =
      Ensures-value (reconcile_fill host policy event permit fill truth now) l tt
        (settled_lem event permit fill truth now l) h
