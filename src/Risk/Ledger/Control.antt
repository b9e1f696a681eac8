-- ===== src/Risk/Ledger/Control.antt =====
-- The control row over the ledger's other methods (src/esscher/risk/ledger.py).
use esscher_market.Base.{Bool, true, false, Option, ◌≡◌}
use esscher_market.Base.Json.{Host}
use esscher_market.Risk.Ledger.Rows.{ControlRow}
use esscher_market.Risk.Ledger.Passport.{append_passport}
use esscher_market.Risk.Ledger.Candidates.{
  record_candidate, validated_candidate, add_candidate, insert_candidate, freeze_candidate,
  freeze_body, record_not_run, not_run_body,
}
use esscher_market.Risk.Ledger.Reservations.{
  reserve, reserve_body, transition_reservation, transition_body, consume_reservation,
  release_reservation, record_permit, record_permit_body, update_permit_state, update_permit_body,
  insert_reservation, insert_permit, set_reservation_state, transition_permit,
}
use esscher_market.Risk.Ledger.Orders.{
  record_submission, submission_body, record_fill, reconcile_observed_order, reconcile_body, settle,
  release_consumed_after_flat, flat_body, owned_permit, require_reserved, insert_submission,
  insert_fill,
}
use esscher_market.Risk.Ledger.Authorize.{
  reserve_and_issue_permit, validated_order, issue_body, require_authorized,
}
use esscher_market.Risk.Ledger.Intents.{
  record_lifecycle_intent, validated_intent, intent_body, bind_lifecycle_intent, bind_body,
  mark_lifecycle_intent_reconciled, reconciled_body,
}
use esscher_market.Risk.Ledger.Records.{
  record_position, record_reconciliation, record_account_snapshot,
}
use esscher_market.Risk.Ledger.Keeps.{Keeps, keeps_rules}
use esscher_market.Risk.Ledger.Operations.{LedgerCall, perform}

-- The calls that write the control row.
abbrev pub sets_control : LedgerCall → Bool
sets_control (LedgerCall.set_control _ _ _) = true
sets_control (LedgerCall.change_control _ _ _ _) = true
sets_control _ = false

-- Every other call keeps what holds of the control row.
pub perform-control :
    (host : Host) (P : Option ControlRow → Type 0) (call : LedgerCall)
    → sets_control call ≡ false
    → Keeps (λ l. P l.control) (perform host call)
unfolding perform record_candidate freeze_candidate freeze_body record_not_run reserve not_run_body
    validated_candidate add_candidate insert_candidate reserve_body insert_reservation
    set_reservation_state issue_body require_authorized owned_permit require_reserved
    insert_submission insert_fill transition_reservation transition_body consume_reservation
    release_reservation record_permit record_permit_body update_permit_state update_permit_body
    transition_permit record_submission submission_body record_fill reconcile_observed_order
    reconcile_body release_consumed_after_flat flat_body settle reserve_and_issue_permit
    validated_order insert_permit record_lifecycle_intent validated_intent intent_body
    bind_lifecycle_intent bind_body mark_lifecycle_intent_reconciled reconciled_body record_position
    record_reconciliation record_account_snapshot append_passport
perform-control host P (LedgerCall.set_control _ _ _) h = cc
perform-control host P (LedgerCall.change_control _ _ _ _) h = cc
perform-control host P (LedgerCall.append_event t p n) h = search keeps_rules depth 40
perform-control host P _ h = search keeps_rules depth 40
