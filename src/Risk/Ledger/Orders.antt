-- ===== src/Risk/Ledger/Orders.antt =====
-- Submissions, fills and the reconciliation of broker truth (src/esscher/risk/ledger.py).
pub mod Settled
use esscher_market.Base.{
  ℕ, Bool, false, not, ◌&&◌, ◌||◌, Option, none, some, [], ◌∷◌, ◌++◌, if◌then◌else◌, any, ltb, leb,
  ◌==◌,
}
use esscher_market.Base.Int.{Decimal}
use esscher_market.Base.Text.{Text, text, same}
use esscher_market.Base.Json.{string, fields, Host}
use esscher_market.Base.Result.{ok, err}
use esscher_market.Risk.Reasons.{
  event_lifecycle_invalid, permit_lifecycle_invalid, contradictory_truth, partial_fill_state,
  Checked,
}
use esscher_market.Risk.Checks.{identifier, amount}
use esscher_market.Risk.Passport.{
  PassportEventType, order_submitted, fill_observed, reservation_released,
}
use esscher_market.Risk.Ledger.Rows.{
  Reservation, ReservationState, consumed, released, Permit, PermitState, Submission, Fill,
}
use esscher_market.Risk.Ledger.Monad.{
  Action, pure, reject_if, gets, modify, constraint, check, or_reject, ◌>>=◌, ◌>>◌, transaction,
  unhandled, integrity_as,
}
use esscher_market.Risk.Ledger.Passport.{append_passport}
use esscher_market.Risk.Ledger.Queries.{permit_by_id, reservation_for_event, submission_for_permit}
use esscher_market.Risk.Ledger.Reservations.{
  same_reservation_state, same_permit_state, owns_reserved, set_reservation_state,
  transition_permit,
}

-- `permit is None or permit["event_id"] != event` raises EVENT_LIFECYCLE_INVALID.
unfoldable pub owned_permit : Text → Text → Action Permit
owned_permit permit_id event = do
  permit ← or_reject event_lifecycle_invalid (permit_by_id permit_id (← gets (λ l. l)))
  reject_if (not (same permit.event_id event)) event_lifecycle_invalid
  pure permit

-- The permit's reservation exists, is the event's, and is RESERVED.
unfoldable pub require_reserved : Text → Permit → Action (Unit {0})
require_reserved event permit = do
  reservation ← gets (reservation_for_event event)
  reject_if (not (owns_reserved permit.reservation_id reservation)) event_lifecycle_invalid

-- The primary key `permit_id` and the unique `broker_order_id` of `submissions`.
abbrev pub submission_conflict : Submission → Submission → Bool
submission_conflict new old =
    same old.permit_id new.permit_id || same old.broker_order_id new.broker_order_id

unfoldable pub insert_submission : Submission → Action (Unit {0})
insert_submission row = do
  constraint (not (any (submission_conflict row) (← gets (λ l. l.submissions))))
  modify (λ l. record l { submissions = l.submissions ++ row ∷ [] })

-- `INSERT INTO fills`; `fill_id` is the primary key.
unfoldable pub insert_fill : Fill → Action (Unit {0})
insert_fill row = do
  constraint (not (any (λ f. same f.fill_id row.fill_id) (← gets (λ l. l.fills))))
  modify (λ l. record l { fills = l.fills ++ row ∷ [] })

record_fill_body : Fill → Action (Unit {0})
unfolding owned_permit insert_fill
record_fill_body row = owned_permit row.permit_id row.event_id >> insert_fill row

unfoldable pub record_fill : Text → Text → Text → Decimal → Text → ℕ → Action (Unit {0})
unfolding record_fill_body
record_fill fill_id permit_id event_id quantity status observed_at = do
  fill ← check (identifier fill_id)
  permit ← check (identifier permit_id)
  event ← check (identifier event_id)
  value ← check (amount quantity)
  state ← check (identifier status)
  transaction (integrity_as permit_lifecycle_invalid) (
      record_fill_body (record {
        fill_id = fill;
        permit_id = permit;
        event_id = event;
        quantity = value;
        status = state;
        observed_at = observed_at;
      }))

-- What a terminal broker status means: the permit's new state, the reservation's, and the event.
unfoldable pub terminal_outcome :
    Text → ℕ → Checked (PermitState × ReservationState × PassportEventType)
terminal_outcome status quantity =
    if same status (text "FILLED")
    then (if leb quantity 0
        then err contradictory_truth
        else ok (PermitState.filled, consumed, fill_observed))
    else if same status (text "CANCELED") && (quantity == 0)
    then ok (PermitState.cancelled, released, reservation_released)
    else if same status (text "PARTIALLY_FILLED") || ltb 0 quantity
    then err partial_fill_state
    else err contradictory_truth

-- The value of the permit's terminal state.
abbrev pub permit_state_text : PermitState → Text
permit_state_text PermitState.issued = text "ISSUED"
permit_state_text PermitState.submitted = text "SUBMITTED"
permit_state_text PermitState.filled = text "FILLED"
permit_state_text PermitState.cancelled = text "CANCELLED"

-- The permit's submission names this event and this broker order.
abbrev pub is_submission_of : Text → Text → Option Submission → Bool
is_submission_of event order none = false
is_submission_of event order (some s) = same s.event_id event && same s.broker_order_id order

-- `permit is None or ... or reservation["state"] != "CONSUMED"`, negated.
abbrev pub is_consumed_by : Text → Option Permit → Option Reservation → Bool
is_consumed_by event none _ = false
is_consumed_by event (some p) none = false
is_consumed_by event (some p) (some r) =
    same p.event_id event
    && same_permit_state p.state PermitState.filled
    && same r.reservation_id p.reservation_id
    && same_reservation_state r.state consumed

module _ (host : Host) where
  unfoldable pub submission_body : Submission → Bool → Action (Unit {0})
  unfolding owned_permit require_reserved insert_submission
  submission_body row with_passport = do
    permit ← owned_permit row.permit_id row.event_id
    require_reserved row.event_id permit
    transition_permit row.permit_id PermitState.issued PermitState.submitted row.submitted_at
    insert_submission row
    (if with_passport
        then append_passport host order_submitted
            (fields (
              (text "event_id", string row.event_id)
              ∷ (text "permit_id", string row.permit_id)
              ∷ (text "broker_order_id", string row.broker_order_id)
              ∷ []))
            row.submitted_at
        else pure tt)

  unfoldable pub record_submission : Submission → Bool → Action (Unit {0})
  record_submission row with_passport = do
    check (identifier row.event_id)
    check (identifier row.permit_id)
    check (identifier row.broker_order_id)
    transaction (integrity_as permit_lifecycle_invalid) (submission_body row with_passport)

  -- The statements of `reconcile_observed_order` after its checks.
  unfoldable pub settle :
      Fill → PermitState → ReservationState → PassportEventType → ℕ → Action (Unit {0})
  unfolding insert_fill
  settle row terminal reservation_state passport_event now = do
    transition_permit row.permit_id PermitState.submitted terminal now
    set_reservation_state row.event_id reservation_state now
    insert_fill row
    append_passport host passport_event
        (fields (
          (text "event_id", string row.event_id)
          ∷ (text "permit_id", string row.permit_id)
          ∷ (text "broker_order_id", string row.fill_id)
          ∷ (text "status", string row.status)
          ∷ (text "filled_quantity", string (host.decimal_str row.quantity))
          ∷ []))
        now
    append_passport host PassportEventType.reconciled
        (fields (
          (text "event_id", string row.event_id)
          ∷ (text "permit_id", string row.permit_id)
          ∷ (text "result", string (permit_state_text terminal))
          ∷ []))
        now

  -- The body of `reconcile_observed_order` over the row that it is to insert into `fills`, whose
  -- identifier is the broker order's.
  unfoldable pub reconcile_body : Fill → ℕ → Action (Unit {0})
  unfolding owned_permit require_reserved settle
  reconcile_body row now = do
    permit ← owned_permit row.permit_id row.event_id
    submission ← gets (submission_for_permit row.permit_id)
    reject_if (not (is_submission_of row.event_id row.fill_id submission)) contradictory_truth
    reject_if (not (same_permit_state permit.state PermitState.submitted)) permit_lifecycle_invalid
    require_reserved row.event_id permit
    outcome ← check (terminal_outcome row.status row.quantity)
    settle row outcome.0 outcome.1 outcome.2 now

  unfoldable pub reconcile_observed_order :
      Text → Text → Text → Text → Decimal → ℕ → ℕ → Action (Unit {0})
  reconcile_observed_order event_id permit_id broker_order_id status filled_quantity observed_at
        now =
      do
        event ← check (identifier event_id)
        permit ← check (identifier permit_id)
        order ← check (identifier broker_order_id)
        observed_status ← check (identifier status)
        quantity ← check (amount filled_quantity)
        transaction (integrity_as permit_lifecycle_invalid) (
            reconcile_body
              (record {
                fill_id = order;
                permit_id = permit;
                event_id = event;
                quantity = quantity;
                status = observed_status;
                observed_at = observed_at;
              })
              now)

  unfoldable pub flat_body : Text → Text → ℕ → Action (Unit {0})
  unfolding set_reservation_state
  flat_body event permit_id now = do
    permit ← gets (permit_by_id permit_id)
    reservation ← gets (reservation_for_event event)
    reject_if (not (is_consumed_by event permit reservation)) event_lifecycle_invalid
    set_reservation_state event released now
    append_passport host PassportEventType.reconciled
        (fields (
          (text "event_id", string event)
          ∷ (text "permit_id", string permit_id)
          ∷ (text "result", string (text "FLAT"))
          ∷ []))
        now

  unfoldable pub release_consumed_after_flat : Text → Text → ℕ → Action (Unit {0})
  release_consumed_after_flat event_id permit_id now = do
    event ← check (identifier event_id)
    permit ← check (identifier permit_id)
    transaction unhandled (flat_body event permit now)
