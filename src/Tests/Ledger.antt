-- ===== src/Tests/Ledger.antt =====
-- The ledger's theorems at concrete inputs.
use esscher_market.Base.{ℕ, ◌≤◌, true, false, ◌&&◌, is_some, length, List, [], ◌∷◌, ◌≡◌, refl, ◌↔◌}
use esscher_market.Base.Text.{text, same, strip, upper}
use esscher_market.Base.Result.{ok, err, is_ok}
use esscher_market.Risk.Reasons.{rejected, reservation_not_released}
use esscher_market.Risk.Passport.{event_text, PassportEvent, verify_passport}
use esscher_market.Risk.Ledger.Rows.{Ledger, NotRun, Reservation, empty}
use esscher_market.Risk.Ledger.Queries.{
  not_run_exists, reservation_for_event, sum_open, count_open, entries_today,
}
use esscher_market.Risk.Ledger.Passport.{append_passport, passport_events}
use esscher_market.Risk.Ledger.Reservations.{
  reservation_id_of, consume_reservation, transition_body, insert_reservation, insert_permit,
  transition_permit,
}
use esscher_market.Risk.Ledger.Authorize.{issue_body, reserve_and_issue_permit, validated_order}
use esscher_market.Risk.Ledger.Authorize.Issued.{IsAuthorizable, issued_ledger, issue_body_iff}
use esscher_market.Risk.Ledger.Holdings.{IsUnique}
use esscher_market.Risk.Checks.{
  identifier, underlying, sha256, amount, positive_limit, positive_int,
}
use esscher_market.Risk.Ledger.Monad.{◌>>=◌, transaction}
use esscher_market.Risk.Ledger.Orders.{record_submission, submission_body}
use esscher_market.Risk.Ledger.Candidates.{
  freeze_candidate, freeze_body, record_not_run, not_run_body,
}
use esscher_market.Execution.Models.{debit_vertical_permit_id}
use esscher_market.Risk.Ledger.Operations.{LedgerCall, perform, perform_all}
use esscher_market.Risk.Ledger.Budget.Calls.{exposure_within_limits}
use esscher_market.Risk.Ledger.Separate.{abstention_excludes_reservation}
use esscher_market.Risk.Ledger.Linked.{passport_always_verifies}
use esscher_market.Risk.Ledger.Atomic.{failed_call_writes_nothing}
use esscher_market.Risk.Ledger.Orders.{reconcile_body, terminal_outcome}
use esscher_market.Risk.Ledger.Orders.Settled.{
  IsSettleable, settled_ledger, reconcile_body_iff, terminal_outcome_iff,
}
use esscher_market.Risk.Ledger.Forward.{is_forward}
use esscher_market.Risk.Ledger.Forward.Calls.{permits_move_forward}
use esscher_market.Risk.Ledger.Authorize.Issued.{reservation_row, permit_row}
use esscher_market.Risk.Ledger.Queries.{permit_by_id}
use esscher_market.Risk.Ledger.Rows.{
  Fill, Submission, Permit, PermitState, ReservationState, consumed, released,
}
use esscher_market.Risk.Passport.{PassportEventType, fill_observed, reservation_released}
use esscher_market.Base.{some, ◌<◌, ◌⊎◌}
use esscher_market.Tests.Codec.{print, size}
use esscher_market.Tests.Data.{
  sample_host, sample_host-IsJson, event_one, spy_candidate, spy_permit, spy_request, spy_order,
}

abbrev other_event : NotRun
other_event = record { event_id = text "event-2"; reason = text "NO_SIGNAL"; created_at = 6 }

-- A candidate frozen, authorized twice and submitted, and another event abstained from.
abbrev session : List LedgerCall
session =
    LedgerCall.freeze spy_candidate
    ∷ LedgerCall.authorize spy_request spy_permit 7
    ∷ LedgerCall.authorize spy_request spy_permit 8
    ∷ LedgerCall.abstain other_event true
    ∷ LedgerCall.submit
        (record {
          permit_id = spy_permit.permit_id;
          event_id = event_one;
          broker_order_id = text "order-1";
          submitted_at = 9;
        })
        true
    ∷ []

exposure_within_limits_example :
    let rs : List Reservation = (perform_all sample_host session empty).reservations in
    IsUnique rs × (sum_open rs ≤ 500) × (count_open rs ≤ 2)
exposure_within_limits_example = exposure_within_limits sample_host 500 2 session refl

abstention_excludes_reservation_example :
    let l : Ledger = perform_all sample_host session empty in
    (not_run_exists event_one l && is_some (reservation_for_event event_one l)) ≡ false
abstention_excludes_reservation_example =
    abstention_excludes_reservation sample_host session event_one

passport_always_verifies_example :
    let l : Ledger = perform_all sample_host session empty in
    (es : List PassportEvent) × (passport_events sample_host l ≡ ok es)
    × (verify_passport sample_host es ≡ ok (length l.passport))
passport_always_verifies_example = passport_always_verifies sample_host sample_host-IsJson session

-- The ledger with the candidate frozen.
abbrev frozen_ledger : Ledger
frozen_ledger = record empty { candidates = spy_candidate ∷ [] }

issue_body_iff_example :
    ((is_ok (issue_body sample_host spy_order frozen_ledger).0 ≡ true)
      ↔ IsAuthorizable spy_order frozen_ledger)
    × (IsAuthorizable spy_order frozen_ledger
        → issue_body sample_host spy_order frozen_ledger ≡ (
          ok (
            reservation_id_of spy_order.event,
            spy_order.issued_permit_id,
            spy_order.permit_sha256,
          ),
          issued_ledger sample_host spy_order frozen_ledger,
        ))
issue_body_iff_example = issue_body_iff sample_host spy_order frozen_ledger

consume_fails :
    (perform sample_host (LedgerCall.consume event_one 9) frozen_ledger).0
    ≡ err (rejected reservation_not_released)
unfolding perform consume_reservation ◌>>=◌ identifier same strip transaction transition_body
consume_fails = refl

failed_call_writes_nothing_example :
    (perform sample_host (LedgerCall.consume event_one 9) frozen_ledger).1 ≡ frozen_ledger
failed_call_writes_nothing_example =
    failed_call_writes_nothing sample_host (LedgerCall.consume event_one 9) frozen_ledger
      (rejected reservation_not_released) consume_fails

-- The one open reservation of the session is that of the first authorization.
session_total : sum_open (perform_all sample_host session empty).reservations ≡ 300
unfolding perform_all sum_open perform record_submission ◌>>=◌ identifier same strip
    debit_vertical_permit_id print size transaction submission_body record_not_run not_run_body
    reserve_and_issue_permit validated_order underlying upper sha256 amount positive_limit
    positive_int issue_body freeze_candidate freeze_body append_passport event_text entries_today
    count_open insert_reservation insert_permit transition_permit
session_total = refl

abbrev spy_submission : Submission
spy_submission = record {
  permit_id = text "permit-1";
  event_id = event_one;
  broker_order_id = text "order-1";
  submitted_at = 9;
}

-- The ledger with the candidate's order submitted.
abbrev submitted_ledger : Ledger
submitted_ledger = record frozen_ledger {
  reservations = reservation_row spy_order ∷ [];
  permits = record (permit_row spy_order) { state = PermitState.submitted } ∷ [];
  submissions = spy_submission ∷ [];
}

-- The broker's report that the order is filled.
abbrev filled_report : Fill
filled_report = record {
  fill_id = text "order-1";
  permit_id = text "permit-1";
  event_id = event_one;
  quantity = 1;
  status = text "FILLED";
  observed_at = 11;
}

reconcile_body_iff_example :
    ((is_ok (reconcile_body sample_host filled_report 12 submitted_ledger).0 ≡ true) ↔ (
      (o : PermitState × ReservationState × PassportEventType) × IsSettleable filled_report
        submitted_ledger o))
    × ((o : PermitState × ReservationState × PassportEventType)
        → IsSettleable filled_report submitted_ledger o
        → reconcile_body sample_host filled_report 12 submitted_ledger
          ≡ (ok tt, settled_ledger sample_host filled_report 12 submitted_ledger o))
reconcile_body_iff_example = reconcile_body_iff sample_host filled_report 12 submitted_ledger

terminal_outcome_iff_example :
    ((terminal_outcome (text "FILLED") 1 ≡ ok (PermitState.filled, consumed, fill_observed))
      ↔ ((text "FILLED" ≡ text "FILLED") × (0 < 1)))
    × ((terminal_outcome (text "FILLED") 1
          ≡ ok (PermitState.cancelled, released, reservation_released))
        ↔ ((text "FILLED" ≡ text "CANCELED") × (◌≡◌ {A = ℕ} 1 0)))
    × (is_ok (terminal_outcome (text "FILLED") 1) ≡ true
        → (terminal_outcome (text "FILLED") 1 ≡ ok (PermitState.filled, consumed, fill_observed))
          ⊎ (terminal_outcome (text "FILLED") 1
              ≡ ok (PermitState.cancelled, released, reservation_released)))
terminal_outcome_iff_example = terminal_outcome_iff (text "FILLED") 1

submitted_permit_is_there :
    permit_by_id (text "permit-1") submitted_ledger
    ≡ some (record (permit_row spy_order) { state = PermitState.submitted })
unfolding same
submitted_permit_is_there = refl

permits_move_forward_example :
    (q : Permit) × (permit_by_id
        (text "permit-1")
        (perform_all sample_host session submitted_ledger)
      ≡ some q)
    × (is_forward PermitState.submitted q.state ≡ true)
permits_move_forward_example =
    permits_move_forward sample_host session submitted_ledger (text "permit-1")
      (record (permit_row spy_order) { state = PermitState.submitted }) submitted_permit_is_there
