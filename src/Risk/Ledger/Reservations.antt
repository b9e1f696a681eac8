-- ===== src/Risk/Ledger/Reservations.antt =====
-- Reservations and permits (src/esscher/risk/ledger.py).
use esscher_market.Base.{
  ℕ, Bool, true, false, not, ◌&&◌, ◌||◌, Option, none, some, [], ◌∷◌, ◌++◌, is_some, is_none, any,
  update,
}
use esscher_market.Base.Int.{Decimal}
use esscher_market.Base.Text.{Text, text, same}
use esscher_market.Risk.Reasons.{
  not_run_event, duplicate_event_reservation, reservation_not_released, event_lifecycle_invalid,
  permit_lifecycle_invalid,
}
use esscher_market.Risk.Checks.{identifier, sha256, underlying, amount}
use esscher_market.Risk.Ledger.Rows.{
  Reservation, ReservationState, reserved, consumed, released, Permit, PermitState,
}
use esscher_market.Risk.Ledger.Monad.{
  Action, pure, reject_if, gets, modify, constraint, check, or_reject, ◌>>=◌, ◌>>◌, transaction,
  unhandled,
}
use esscher_market.Risk.Ledger.Queries.{
  of_event, has_permit_id, not_run_exists, reservation_for_event, permit_for_event, permit_by_id,
}

abbrev pub same_reservation_state : ReservationState → ReservationState → Bool
same_reservation_state reserved reserved = true
same_reservation_state consumed consumed = true
same_reservation_state released released = true
same_reservation_state _ _ = false

abbrev pub same_permit_state : PermitState → PermitState → Bool
same_permit_state PermitState.issued PermitState.issued = true
same_permit_state PermitState.submitted PermitState.submitted = true
same_permit_state PermitState.filled PermitState.filled = true
same_permit_state PermitState.cancelled PermitState.cancelled = true
same_permit_state _ _ = false

-- `f"rsv-{event}"`.
abbrev pub reservation_id_of : Text → Text
reservation_id_of event = text "rsv-" ++ event

-- The row conflicts with a stored one in `reservation_id` (the primary key) or in `event_id`.
abbrev pub reservation_conflict : Reservation → Reservation → Bool
reservation_conflict new old =
    same old.reservation_id new.reservation_id || same old.event_id new.event_id

-- `_insert_reservation`.
unfoldable pub insert_reservation : Text → Text → ℕ → Text → ℕ → Action (Unit {0})
insert_reservation reservation_id event value symbol now =
    let row : Reservation = record {
      reservation_id = reservation_id;
      event_id = event;
      amount = value;
      state = reserved;
      underlying = symbol;
      created_at = now;
      updated_at = now;
    } in
    (do
      constraint (not (any (reservation_conflict row) (← gets (λ l. l.reservations))))
      modify (λ l. record l { reservations = l.reservations ++ row ∷ [] }))

unfoldable pub reserve_body : Text → ℕ → Text → ℕ → Action (Unit {0})
unfolding insert_reservation
reserve_body event value symbol now = do
  reject_if (← gets (not_run_exists event)) not_run_event
  reject_if (is_some (← gets (reservation_for_event event))) duplicate_event_reservation
  insert_reservation (reservation_id_of event) event value symbol now

-- `reserve`, "for migration-level tests only".
unfoldable pub reserve : Text → Decimal → Text → ℕ → Action Text
reserve event_id requested underlying_name now = do
  event ← check (identifier event_id)
  value ← check (amount requested)
  symbol ← check (underlying underlying_name)
  transaction unhandled (reserve_body event value symbol now)
  pure (reservation_id_of event)

-- `UPDATE reservations SET state=?, updated_at=? WHERE event_id=?`.
unfoldable pub set_reservation_state : Text → ReservationState → ℕ → Action (Unit {0})
set_reservation_state event to_state now = modify (λ l. record l {
  reservations =
      update (of_event event) (λ r. record r { state = to_state; updated_at = now }) l.reservations;
})

-- `reservation is None or reservation["state"] != from_state`.
abbrev pub is_in_state : ReservationState → Option Reservation → Bool
is_in_state from_state none = false
is_in_state from_state (some r) = same_reservation_state r.state from_state

unfoldable pub transition_body : Text → ReservationState → ReservationState → ℕ → Action (Unit {0})
unfolding set_reservation_state
transition_body event from_state to_state now = do
  found ← gets (reservation_for_event event)
  reject_if (not (is_in_state from_state found)) reservation_not_released
  set_reservation_state event to_state now

-- `_transition_reservation`.
unfoldable pub transition_reservation :
    Text → ReservationState → ReservationState → ℕ → Action (Unit {0})
transition_reservation event_id from_state to_state now = do
  event ← check (identifier event_id)
  transaction unhandled (transition_body event from_state to_state now)

unfoldable pub consume_reservation : Text → ℕ → Action (Unit {0})
unfolding transition_reservation
consume_reservation event_id now = transition_reservation event_id reserved consumed now

unfoldable pub release_reservation : Text → ℕ → Action (Unit {0})
unfolding transition_reservation
release_reservation event_id now = transition_reservation event_id reserved released now

-- `_insert_permit`; `permit_id` is the primary key.
unfoldable pub insert_permit : Text → Text → Text → Text → ℕ → Action (Unit {0})
insert_permit permit event reservation_id digest now = do
  constraint (is_none (← gets (permit_by_id permit)))
  modify (λ l. record l {
    permits =
        l.permits
        ++ record {
          permit_id = permit;
          event_id = event;
          reservation_id = reservation_id;
          permit_sha256 = digest;
          state = PermitState.issued;
          created_at = now;
          updated_at = now;
        }
          ∷ [];
  })

-- The event's reservation has this identifier and is RESERVED.
abbrev pub owns_reserved : Text → Option Reservation → Bool
owns_reserved reservation_id none = false
owns_reserved reservation_id (some r) =
    same r.reservation_id reservation_id && same_reservation_state r.state reserved

unfoldable pub record_permit_body : Text → Text → Text → Text → ℕ → Action (Unit {0})
unfolding insert_permit
record_permit_body permit event reservation_id digest now = do
  reservation ← gets (reservation_for_event event)
  owner ← gets (permit_for_event event)
  reject_if (not (owns_reserved reservation_id reservation) || is_some owner)
      event_lifecycle_invalid
  insert_permit permit event reservation_id digest now

unfoldable pub record_permit : Text → Text → Text → Text → ℕ → Action (Unit {0})
record_permit permit_id event_id reservation_id permit_sha256 now = do
  permit ← check (identifier permit_id)
  event ← check (identifier event_id)
  reservation ← check (identifier reservation_id)
  digest ← check (sha256 permit_sha256)
  transaction unhandled (record_permit_body permit event reservation digest now)

-- `_transition_permit_in_transaction`.
unfoldable pub transition_permit : Text → PermitState → PermitState → ℕ → Action Permit
transition_permit permit_id expected target now = do
  permit ← or_reject permit_lifecycle_invalid (permit_by_id permit_id (← gets (λ l. l)))
  reject_if (not (same_permit_state permit.state expected)) permit_lifecycle_invalid
  modify (λ l. record l {
    permits =
        update (has_permit_id permit_id) (λ p. record p { state = target; updated_at = now })
          l.permits;
  })
  pure permit

-- `target in {"ISSUED": {"SUBMITTED"}}.get(state, set())`.
abbrev pub is_allowed : PermitState → PermitState → Bool
is_allowed PermitState.issued PermitState.submitted = true
is_allowed _ _ = false

unfoldable pub update_permit_body : Text → PermitState → ℕ → Action Permit
unfolding transition_permit
update_permit_body permit target now = do
  current ← or_reject permit_lifecycle_invalid (permit_by_id permit (← gets (λ l. l)))
  reject_if (not (is_allowed current.state target)) permit_lifecycle_invalid
  transition_permit permit current.state target now

-- `update_permit_state`, "for low-level migration tests". A text that names no state is refused
-- like a state that is not allowed.
unfoldable pub update_permit_state : Text → PermitState → ℕ → Action (Unit {0})
update_permit_state permit_id to_state now = do
  permit ← check (identifier permit_id)
  transaction unhandled (update_permit_body permit to_state now)
  pure tt
