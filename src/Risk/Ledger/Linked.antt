-- ===== src/Risk/Ledger/Linked.antt =====
-- The passport over sequences of calls (src/esscher/risk/ledger.py).
use esscher_market.Base.{ℕ, List, [], ◌∷◌, length, ◌≡◌}
use esscher_market.Base.Json.{Fields, Host, IsJson}
use esscher_market.Base.Result.{ok}
use esscher_market.Risk.Passport.{
  PassportEventType, event_text, genesis_sha256, PassportEvent, verify_passport,
}
use esscher_market.Risk.Ledger.Rows.{Ledger, empty}
use esscher_market.Risk.Ledger.Passport.{append_passport, passport_events}
use esscher_market.Risk.Ledger.Passport.Verified.{
  IsLinked, append_passport_lem, passport_row-IsLinked, IsLinked-verifies,
}
use esscher_market.Risk.Ledger.Keeps.{Keeps, keeps_rules}
use esscher_market.Risk.Ledger.Candidates.{
  record_candidate, freeze_candidate, freeze_body, record_not_run, not_run_body,
}
use esscher_market.Risk.Ledger.Reservations.{
  reserve, reserve_body, transition_reservation, transition_body, consume_reservation,
  release_reservation, record_permit, record_permit_body, update_permit_state, update_permit_body,
  insert_reservation, insert_permit, set_reservation_state, transition_permit,
}
use esscher_market.Risk.Ledger.Orders.{
  record_submission, submission_body, record_fill, reconcile_observed_order, reconcile_body,
  release_consumed_after_flat, flat_body,
}
use esscher_market.Risk.Ledger.Authorize.{reserve_and_issue_permit, validated_order, issue_body}
use esscher_market.Risk.Ledger.Intents.{
  record_lifecycle_intent, validated_intent, intent_body, bind_lifecycle_intent, bind_body,
  mark_lifecycle_intent_reconciled, reconciled_body,
}
use esscher_market.Risk.Ledger.Records.{
  record_position, record_reconciliation, record_account_snapshot, set_control_state,
  set_control_state_with_passport, set_control_body,
}
use esscher_market.Risk.Ledger.Operations.{LedgerCall, perform, perform_all}

module _ (host : Host) where
  -- The passport of the ledger is linked from the genesis hash on.
  abbrev pub HasLinks : Ledger → Type 0
  HasLinks l = IsLinked host genesis_sha256 l.passport

  append-HasLinks :
      (t : PassportEventType) (payload : Fields) (now : ℕ)
      → Keeps HasLinks (append_passport host t payload now)
  append-HasLinks t payload now = record {
    at = λ l h.
        rw (append_passport_lem host t payload now l)
          (passport_row-IsLinked host (event_text t) payload now l.passport h);
  }

  ruleset links_rules = (keeps_rules, append-HasLinks)

  perform-HasLinks : (call : LedgerCall) → Keeps HasLinks (perform host call)
  unfolding perform record_candidate freeze_candidate freeze_body record_not_run not_run_body
      reserve reserve_body transition_reservation transition_body consume_reservation
      release_reservation record_permit record_permit_body update_permit_state update_permit_body
      transition_permit record_submission submission_body record_fill reconcile_observed_order
      reconcile_body release_consumed_after_flat flat_body reserve_and_issue_permit validated_order
      issue_body insert_reservation insert_permit set_reservation_state record_lifecycle_intent
      validated_intent intent_body bind_lifecycle_intent bind_body mark_lifecycle_intent_reconciled
      reconciled_body record_position record_reconciliation record_account_snapshot
      set_control_state set_control_state_with_passport set_control_body
  perform-HasLinks (LedgerCall.append_event t p n) = search links_rules depth 40
  perform-HasLinks _ = search links_rules depth 40

  perform_all-HasLinks :
      (calls : List LedgerCall) (l : Ledger) → HasLinks l → HasLinks (perform_all host calls l)
  unfolding perform_all
  perform_all-HasLinks [] l h = h
  perform_all-HasLinks (call ∷ calls) l h =
      perform_all-HasLinks calls (perform host call l).1 ((perform-HasLinks call).at l h)

  -- After any sequence of ledger calls on an empty database, failed ones included, the passport
  -- loads and `verify_passport` accepts it and counts every row, provided JSON parses back what it
  -- printed and prints equal nested texts equally.
  pub passport_always_verifies :
      IsJson host
      → (calls : List LedgerCall)
      → let l : Ledger = perform_all host calls empty in
        (es : List PassportEvent) × (passport_events host l ≡ ok es)
        × (verify_passport host es ≡ ok (length l.passport))
  passport_always_verifies json calls =
      IsLinked-verifies host json (perform_all host calls empty)
        (perform_all-HasLinks calls empty tt)
