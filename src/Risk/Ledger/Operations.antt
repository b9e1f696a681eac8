-- ===== src/Risk/Ledger/Operations.antt =====
-- The ledger's public methods that write (src/esscher/risk/ledger.py) as one type of calls, and a
-- sequence of calls on one database. A call that raises hands its exception to the caller, and the
-- next call finds the ledger as it was left.
use esscher_market.Base.{ℕ, Bool, true, false, Option, List, [], ◌∷◌}
use esscher_market.Base.Int.{Decimal}
use esscher_market.Base.Text.{Text}
use esscher_market.Base.Json.{Fields, Host}
use esscher_market.Execution.Models.{DebitVerticalPermit}
use esscher_market.Risk.Reasons.{ControlState}
use esscher_market.Risk.Passport.{PassportEventType}
use esscher_market.Risk.Ledger.Rows.{
  Candidate, NotRun, Submission, LifecycleIntent, Reconciliation, PermitState, Ledger,
}
use esscher_market.Risk.Ledger.Monad.{Action, pure, ◌>>◌}
use esscher_market.Risk.Ledger.Passport.{append_passport}
use esscher_market.Risk.Ledger.Candidates.{record_candidate, freeze_candidate, record_not_run}
use esscher_market.Risk.Ledger.Reservations.{
  reserve, consume_reservation, release_reservation, record_permit, update_permit_state,
}
use esscher_market.Risk.Ledger.Orders.{
  record_submission, record_fill, reconcile_observed_order, release_consumed_after_flat,
}
use esscher_market.Risk.Ledger.Authorize.{Request, reserve_and_issue_permit}
use esscher_market.Risk.Ledger.Intents.{
  record_lifecycle_intent, bind_lifecycle_intent, mark_lifecycle_intent_reconciled,
}
use esscher_market.Risk.Ledger.Records.{
  record_position, record_reconciliation, record_account_snapshot, set_control_state,
  set_control_state_with_passport,
}

pub data LedgerCall : Type 0 where
  append_event : PassportEventType → Fields → ℕ → LedgerCall
  add_candidate freeze : Candidate → LedgerCall
  abstain : NotRun → Bool → LedgerCall
  hold : Text → Decimal → Text → ℕ → LedgerCall
  consume release : Text → ℕ → LedgerCall
  add_permit : Text → Text → Text → Text → ℕ → LedgerCall
  move_permit : Text → PermitState → ℕ → LedgerCall
  submit : Submission → Bool → LedgerCall
  observe_fill : Text → Text → Text → Decimal → Text → ℕ → LedgerCall
  reconcile : Text → Text → Text → Text → Decimal → ℕ → ℕ → LedgerCall
  flatten : Text → Text → ℕ → LedgerCall
  authorize : Request → DebitVerticalPermit → ℕ → LedgerCall
  intend : LifecycleIntent → ℕ → LedgerCall
  bind_order : Text → Text → Text → ℕ → LedgerCall
  reconcile_intent : Text → ℕ → LedgerCall
  observe_position : Text → Decimal → ℕ → LedgerCall
  add_reconciliation : Reconciliation → LedgerCall
  observe_account : Decimal → ℕ → LedgerCall
  set_control : ControlState → Option Text → ℕ → LedgerCall
  change_control : ControlState → Option Text → Fields → ℕ → LedgerCall

-- The calls that the kernel and the lifecycle worker make. The others are the low-level methods
-- that no other code of src/esscher calls: `reserve` ("for migration-level tests only"),
-- `consume_reservation`, `release_reservation`, `record_permit` and `update_permit_state`.
abbrev pub is_governed : LedgerCall → Bool
is_governed (hold _ _ _ _) = false
is_governed (consume _ _) = false
is_governed (release _ _) = false
is_governed (add_permit _ _ _ _ _) = false
is_governed (move_permit _ _ _) = false
is_governed _ = true

module _ (host : Host) where
  unfoldable pub perform : LedgerCall → Action (Unit {0})
  perform (append_event t payload now) = append_passport host t payload now
  perform (add_candidate c) = record_candidate c
  perform (freeze c) = freeze_candidate host c
  perform (abstain n with_passport) = record_not_run host n with_passport
  perform (hold event value symbol now) = reserve event value symbol now >> pure tt
  perform (consume event now) = consume_reservation event now
  perform (release event now) = release_reservation event now
  perform (add_permit permit event reservation digest now) =
      record_permit permit event reservation digest now
  perform (move_permit permit state now) = update_permit_state permit state now
  perform (submit row with_passport) = record_submission host row with_passport
  perform (observe_fill fill permit event value status at) =
      record_fill fill permit event value status at
  perform (reconcile event permit order status value at now) =
      reconcile_observed_order host event permit order status value at now
  perform (flatten event permit now) = release_consumed_after_flat host event permit now
  perform (authorize request permit now) =
      reserve_and_issue_permit host request permit now >> pure tt
  perform (intend i now) = record_lifecycle_intent host i now
  perform (bind_order permit phase order now) = bind_lifecycle_intent host permit phase order now
  perform (reconcile_intent permit now) = mark_lifecycle_intent_reconciled permit now
  perform (observe_position symbol value at) = record_position symbol value at
  perform (add_reconciliation row) = record_reconciliation row
  perform (observe_account value now) = record_account_snapshot value now
  perform (set_control state reason now) = set_control_state state reason now
  perform (change_control state reason payload now) =
      set_control_state_with_passport host state reason payload now

  unfoldable pub perform_all : List LedgerCall → Ledger → Ledger
  perform_all [] l = l
  perform_all (call ∷ calls) l = perform_all calls (perform call l).1
