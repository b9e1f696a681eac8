-- ===== src/Risk/Ledger/Orders/Settled.antt =====
-- What `reconcile_observed_order` needs of the ledger and what it writes.
use esscher_market.Base.{
  ℕ, ◌<◌, true, false, some, [], ◌∷◌, ◌++◌, any, update, ◌≡◌, ap, ◌↔◌, ◌⊎◌, arith,
}
use esscher_market.Base.Text.{Text, text, same, same_iff}
use esscher_market.Base.Json.{string, fields, Fields, Host}
use esscher_market.Base.Result.{ok, is_ok}
use esscher_market.Risk.Passport.{PassportEventType, fill_observed, reservation_released}
use esscher_market.Risk.Ledger.Rows.{
  Permit, PermitState, ReservationState, consumed, released, Fill, Ledger,
}
use esscher_market.Risk.Ledger.Monad.{◌>>=◌, ◌>>◌}
use esscher_market.Risk.Ledger.Queries.{
  of_event, has_permit_id, permit_by_id, reservation_for_event, submission_for_permit,
}
use esscher_market.Risk.Ledger.Reservations.{
  same_permit_state, owns_reserved, set_reservation_state, transition_permit,
}
use esscher_market.Risk.Ledger.Passport.{append_passport}
use esscher_market.Risk.Ledger.Passport.Verified.{event_text-identifier, appended}
use esscher_market.Risk.Ledger.Ensures.{
  Ensures, Ensures-always, Ensures-returned, Ensures-bind, Ensures-modify, Ensures-pure,
  Ensures-reject_if, then_gets, then_reject_if, then_or_reject, then_constraint, then_modify,
  then_check,
}
use esscher_market.Risk.Ledger.Orders.{
  owned_permit, require_reserved, insert_fill, terminal_outcome, is_submission_of, settle,
  reconcile_body, permit_state_text,
}

-- A terminal report is taken as a fill exactly when it is `FILLED` with a quantity, and as a
-- cancellation exactly when it is `CANCELED` without one; nothing else is taken.
pub terminal_outcome_iff :
    (status : Text) (quantity : ℕ)
    → ((terminal_outcome status quantity ≡ ok (PermitState.filled, consumed, fill_observed))
        ↔ ((status ≡ text "FILLED") × (0 < quantity)))
      × ((terminal_outcome status quantity
            ≡ ok (PermitState.cancelled, released, reservation_released))
          ↔ ((status ≡ text "CANCELED") × (quantity ≡ 0)))
      × (is_ok (terminal_outcome status quantity) ≡ true
          → (terminal_outcome status quantity ≡ ok (PermitState.filled, consumed, fill_observed))
            ⊎ (terminal_outcome status quantity
                ≡ ok (PermitState.cancelled, released, reservation_released)))
unfolding terminal_outcome
terminal_outcome_iff status quantity =
    ground (arith, same_iff status (text "FILLED"), same_iff status (text "CANCELED"))

abbrev Outcome : Type 0
Outcome = PermitState × ReservationState × PassportEventType

-- The permit is the event's and submitted, its submission names the broker's order, its reservation
-- is held, the report is terminal, and the order has no fill row yet.
abbrev pub IsSettleable : Fill → Ledger → Outcome → Type 0
IsSettleable row l outcome =
    ((p : Permit) × (permit_by_id row.permit_id l ≡ some p)
      × (same p.event_id row.event_id ≡ true)
      × (same_permit_state p.state PermitState.submitted ≡ true)
      × (owns_reserved p.reservation_id (reservation_for_event row.event_id l) ≡ true))
    × (is_submission_of row.event_id row.fill_id (submission_for_permit row.permit_id l) ≡ true)
    × (terminal_outcome row.status row.quantity ≡ ok outcome)
    × (any (λ f. same f.fill_id row.fill_id) l.fills ≡ false)

module _ (host : Host) (row : Fill) (now : ℕ) (l : Ledger) where
  reconcile_body-needs :
      Ensures (reconcile_body host row now) l (λ _ _. (o : Outcome) × IsSettleable row l o)
  unfolding reconcile_body owned_permit require_reserved settle transition_permit
      set_reservation_state insert_fill
  reconcile_body-needs = Ensures-bind _ _ l (
      then_gets _ _ (
        then_or_reject _ _ _ λ p found. then_reject_if _ _ _ λ event. Ensures-pure p l (
          then_gets _ _ (
            then_reject_if _ _ _ λ named. then_reject_if _ _ _ λ state. Ensures-bind _ _ l (
              then_gets _ _ (
                Ensures-reject_if _ _ l λ owned. then_check _ _ λ o out. Ensures-bind _ _ l (
                  then_gets _ _ (
                    then_or_reject _ _ _ λ _ _. then_reject_if _ _ _ λ _. then_modify _ _ (
                      Ensures-pure _ _ (
                        then_modify _ _ (
                          Ensures-bind _ _ _ (
                            then_gets _ _ (
                              then_constraint _ _ λ fresh. Ensures-modify _ _ (
                                Ensures-always _ _ (
                                  o,
                                  (
                                    (p, found, ground arith, ground arith, ground arith),
                                    ground arith,
                                    out,
                                    ground arith,
                                  ),
                                )))))))))))))))

  -- The rows that the settlement changes and the one that it adds.
  abbrev rows_settled : Outcome → Ledger
  rows_settled (target, state, _) = record l {
    permits =
        update (has_permit_id row.permit_id) (λ p. record p { state = target; updated_at = now })
          l.permits;
    reservations =
        update (of_event row.event_id) (λ r. record r { state = state; updated_at = now })
          l.reservations;
    fills = l.fills ++ row ∷ [];
  }

  -- The settled ledger, with its two receipts.
  abbrev pub settled_ledger : Outcome → Ledger
  settled_ledger (target, state, event) =
      appended host PassportEventType.reconciled
        (fields (
          (text "event_id", string row.event_id)
          ∷ (text "permit_id", string row.permit_id)
          ∷ (text "result", string (permit_state_text target))
          ∷ []))
        now
        (appended host event
          (fields (
            (text "event_id", string row.event_id)
            ∷ (text "permit_id", string row.permit_id)
            ∷ (text "broker_order_id", string row.fill_id)
            ∷ (text "status", string row.status)
            ∷ (text "filled_quantity", string (host.decimal_str row.quantity))
            ∷ []))
          now (rows_settled (target, state, event)))

  two_receipts :
      (t u : PassportEventType) (payload payload' : Fields) (l' : Ledger)
      → (append_passport host t payload now >> append_passport host u payload' now) l'
        ≡ (ok tt, appended host u payload' now (appended host t payload now l'))
  unfolding append_passport ◌>>=◌
  two_receipts t u payload payload' l' = rw (event_text-identifier t, event_text-identifier u)

  reconcile_body-accepts :
      (o : Outcome)
      → IsSettleable row l o
      → reconcile_body host row now l ≡ (ok tt, settled_ledger o)
  unfolding reconcile_body ◌>>=◌ owned_permit require_reserved settle transition_permit
      set_reservation_state insert_fill
  reconcile_body-accepts o ((p, found, event, state, owned), named, out, fresh) =
      rw (found, event, named, state, owned, out, found, state, fresh)
        (two_receipts o.2 PassportEventType.reconciled _ _ (rows_settled o))

  -- The body of `reconcile_observed_order` returns exactly where the permit is the event's and
  -- submitted, its submission names the broker's order, its reservation is held, the report is
  -- terminal and the order has no fill row; it then moves the permit and the reservation to the
  -- outcome's states, adds the fill and appends two receipts.
  pub reconcile_body_iff :
      ((is_ok (reconcile_body host row now l).0 ≡ true) ↔ ((o : Outcome) × IsSettleable row l o))
      × ((o : Outcome)
          → IsSettleable row l o
          → reconcile_body host row now l ≡ (ok tt, settled_ledger o))
  reconcile_body_iff = (
    (
      Ensures-returned (reconcile_body host row now) l reconcile_body-needs,
      λ (o, h). ap (λ r. is_ok r.0) (reconcile_body-accepts o h),
    ),
    reconcile_body-accepts,
  )
