-- ===== src/Risk/Ledger/Forward/Calls.antt =====
-- The states of permits over sequences of calls (src/esscher/risk/ledger.py).
use esscher_market.Base.{ℕ, Bool, true, false, not, some, List, [], ◌∷◌, arith, ◌≡◌, refl}
use esscher_market.Base.Text.{Text}
use esscher_market.Base.Json.{Host}
use esscher_market.Base.Result.{ok}
use esscher_market.Risk.Passport.{PassportEventType}
use esscher_market.Risk.Ledger.Rows.{
  Ledger, Permit, PermitState, ReservationState, Fill, Submission,
}
use esscher_market.Risk.Ledger.Queries.{permit_by_id}
use esscher_market.Risk.Ledger.Passport.{append_passport}
use esscher_market.Risk.Ledger.Candidates.{
  record_candidate, freeze_candidate, freeze_body, record_not_run, not_run_body,
}
use esscher_market.Risk.Ledger.Reservations.{
  reserve, reserve_body, transition_reservation, transition_body, consume_reservation,
  release_reservation, record_permit, record_permit_body, update_permit_state, update_permit_body,
  insert_reservation, set_reservation_state, is_allowed,
}
use esscher_market.Risk.Ledger.Orders.{
  record_submission, submission_body, record_fill, reconcile_observed_order, reconcile_body, settle,
  release_consumed_after_flat, flat_body, terminal_outcome,
}
use esscher_market.Risk.Ledger.Authorize.{reserve_and_issue_permit, validated_order, issue_body}
use esscher_market.Risk.Ledger.Intents.{
  record_lifecycle_intent, validated_intent, intent_body, bind_lifecycle_intent, bind_body,
  mark_lifecycle_intent_reconciled, reconciled_body,
}
use esscher_market.Risk.Ledger.Records.{
  record_position, record_reconciliation, record_account_snapshot, set_control_state,
  set_control_state_with_passport, set_control_body,
}
use esscher_market.Risk.Ledger.Keeps.{Keeps, keeps_rules}
use esscher_market.Risk.Ledger.Ensures.{
  Ensures, Keeps-Ensures, Keeps-when_returns, then_gets, then_reject_if, then_or_reject, then_check,
  then_keeps, then_ensures,
}
use esscher_market.Risk.Ledger.Forward.{is_forward, Moved, insert_permit-Moved, transition-Moved}
use esscher_market.Risk.Ledger.Operations.{LedgerCall, perform, perform_all}

terminal_outcome-forward :
    (status : Text) (quantity : ℕ) (t : PermitState) (r : ReservationState) (e : PassportEventType)
    → terminal_outcome status quantity ≡ ok (t, r, e)
    → is_forward PermitState.submitted t ≡ true
unfolding terminal_outcome
terminal_outcome-forward status quantity t r e h = ground arith

is_allowed-forward : (a b : PermitState) → not (is_allowed a b) ≡ false → is_forward a b ≡ true
is_allowed-forward a b h = ground arith

module _ (host : Host) (id : Text) (s : PermitState) where
  submission_body-Moved :
      (row : Submission) (b : Bool) (l : Ledger)
      → Moved id s l
      → Ensures (submission_body host row b) l (λ _. Moved id s)
  unfolding submission_body append_passport
  submission_body-Moved row b l h =
      then_keeps (Moved id s) _ _ l (search keeps_rules depth 40) h λ p l1 h1.
        then_keeps (Moved id s) _ _ l1 (search keeps_rules depth 40) h1 λ _ l2 h2.
          then_ensures (Moved id s) _ _ l2
            (transition-Moved id s row.permit_id PermitState.issued PermitState.submitted
              row.submitted_at refl l2 h2)
            λ _ l3 h3. Keeps-Ensures (search keeps_rules depth 40) h3

  settle-Moved :
      (row : Fill) (t : PermitState) (r : ReservationState) (e : PassportEventType) (now : ℕ)
      → is_forward PermitState.submitted t ≡ true
      → (l : Ledger) → Moved id s l
      → Ensures (settle host row t r e now) l (λ _. Moved id s)
  unfolding settle append_passport set_reservation_state
  settle-Moved row t r e now forward l h =
      then_ensures (Moved id s) _ _ l
        (transition-Moved id s row.permit_id PermitState.submitted t now forward l h)
        λ _ l1 h1. Keeps-Ensures (search keeps_rules depth 40) h1

  reconcile_body-Moved :
      (row : Fill) (now : ℕ) (l : Ledger)
      → Moved id s l
      → Ensures (reconcile_body host row now) l (λ _. Moved id s)
  unfolding reconcile_body
  reconcile_body-Moved row now l h =
      then_keeps (Moved id s) _ _ l (search keeps_rules depth 40) h λ p l1 h1. then_gets _ _ (
        then_reject_if _ _ _ λ _. then_reject_if _ _ _ λ _.
          then_keeps (Moved id s) _ _ l1 (search keeps_rules depth 40) h1 λ _ l2 h2.
            then_check _ _ λ (t, r, e) out.
              settle-Moved row t r e now
                (terminal_outcome-forward row.status row.quantity t r e out) l2 h2)

  update_permit_body-Moved :
      (permit : Text) (target : PermitState) (now : ℕ) (l : Ledger)
      → Moved id s l
      → Ensures (update_permit_body permit target now) l (λ _. Moved id s)
  unfolding update_permit_body
  update_permit_body-Moved permit target now l h = then_gets _ _ (
      then_or_reject _ _ _ λ p _. then_reject_if _ _ _ λ allowed.
        transition-Moved id s permit p.state target now (is_allowed-forward p.state target allowed)
          l h)

  ruleset moved_rules = (
    keeps_rules, Keeps-when_returns, insert_permit-Moved, submission_body-Moved,
    reconcile_body-Moved, update_permit_body-Moved,
  )

  perform-Moved : (call : LedgerCall) → Keeps (Moved id s) (perform host call)
  unfolding perform record_candidate freeze_candidate freeze_body record_not_run not_run_body
      reserve reserve_body transition_reservation transition_body consume_reservation
      release_reservation record_permit record_permit_body update_permit_state record_submission
      record_fill reconcile_observed_order release_consumed_after_flat flat_body
      reserve_and_issue_permit validated_order issue_body insert_reservation set_reservation_state
      record_lifecycle_intent validated_intent intent_body bind_lifecycle_intent bind_body
      mark_lifecycle_intent_reconciled reconciled_body record_position record_reconciliation
      record_account_snapshot set_control_state set_control_state_with_passport set_control_body
      append_passport
  perform-Moved (LedgerCall.append_event t p n) = search moved_rules depth 40
  perform-Moved _ = search moved_rules depth 40

  perform_all-Moved :
      (calls : List LedgerCall) (l : Ledger) → Moved id s l → Moved id s (perform_all host calls l)
  unfolding perform_all
  perform_all-Moved [] l h = h
  perform_all-Moved (call ∷ calls) l h =
      perform_all-Moved calls (perform host call l).1 ((perform-Moved call).at l h)

is_forward_refl : (s : PermitState) → is_forward s s ≡ true
is_forward_refl s = ground arith

-- Whatever ledger calls follow, a permit of the ledger stays there, and its state only moves forward:
-- from issued to submitted, and from there to filled or cancelled, which are never left.
pub permits_move_forward :
    (host : Host) (calls : List LedgerCall) (l : Ledger) (id : Text) (p : Permit)
    → permit_by_id id l ≡ some p
    → (q : Permit) × (permit_by_id id (perform_all host calls l) ≡ some q)
      × (is_forward p.state q.state ≡ true)
permits_move_forward host calls l id p found =
    perform_all-Moved host id p.state calls l (p, found, is_forward_refl p.state)
