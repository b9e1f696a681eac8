-- ===== src/Risk/Ledger/Authorize.antt =====
-- `reserve_and_issue_permit` (src/esscher/risk/ledger.py): the budgets rechecked and the
-- reservation, the permit and their receipts written in one transaction.
pub mod Issued
use esscher_market.Base.{
  ℕ, ◌+◌, Bool, true, false, not, ◌&&◌, ◌||◌, Option, none, some, List, [], ◌∷◌, is_some, ltb, leb,
}
use esscher_market.Base.Int.{ℤ, Decimal}
use esscher_market.Base.Text.{Text, text, same}
use esscher_market.Base.Json.{Json, string, Fields, fields, Host}
use esscher_market.Execution.Models.{
  DebitVerticalPermit, debit_vertical_permit_id, debit_vertical_permit_bytes,
}
use esscher_market.Risk.Reasons.{
  not_run_event, unsupported_input, policy_hash_mismatch, duplicate_event_reservation,
  entry_count_limit_reached, expression_limit_reached, budget_exceeded,
}
use esscher_market.Risk.Checks.{
  identifier, underlying, sha256, amount, positive_limit, positive_int,
}
use esscher_market.Risk.Passport.{reservation_held, permit_issued}
use esscher_market.Risk.Ledger.Rows.{Candidate, Ledger}
use esscher_market.Risk.Ledger.Monad.{
  Action, pure, reject_if, gets, check, or_reject, ◌>>=◌, ◌>>◌, transaction, integrity_as,
}
use esscher_market.Risk.Ledger.Passport.{append_passport}
use esscher_market.Risk.Ledger.Queries.{
  candidate_for_event, not_run_exists, reservation_for_event, sum_open, count_open, entries_today,
}
use esscher_market.Risk.Ledger.Reservations.{reservation_id_of, insert_reservation, insert_permit}

-- The arguments of `reserve_and_issue_permit`, the permit apart.
pub record Request : Type 0 where
  pub event_id : Text
  pub underlying : Text
  pub candidate_id : Text
  pub risk_policy_sha256 : Text
  pub decision_sha256 : Text
  pub expression_sha256 : Text
  pub amount : Decimal
  pub aggregate_limit : Decimal
  pub max_open_expressions : ℤ
  pub max_entries_per_day : ℤ

-- The checked arguments, with the identity of the permit.
pub record Order : Type 0 where
  pub event : Text
  pub symbol : Text
  pub candidate : Text
  pub policy : Text
  pub decision : Text
  pub expression : Text
  pub exposure : ℕ
  pub aggregate : ℕ
  pub max_open : ℕ
  pub max_entries : ℕ
  pub issued_permit_id : Text
  pub permit_sha256 : Text
  pub created : ℕ

-- The fields of the frozen candidate that must equal the request's.
abbrev pub is_bound : Order → Candidate → Bool
is_bound o frozen =
    same frozen.candidate_id o.candidate
    && same frozen.decision_sha256 o.decision
    && same frozen.expression_sha256 o.expression

-- The checks inside the transaction, in order.
unfoldable pub require_authorized : Order → Action (Unit {0})
require_authorized o = do
  reject_if (← gets (not_run_exists o.event)) not_run_event
  frozen ← or_reject unsupported_input (candidate_for_event o.event (← gets (λ l. l)))
  reject_if (not (same frozen.policy_sha256 o.policy)) policy_hash_mismatch
  reject_if (not (is_bound o frozen)) unsupported_input
  reject_if (is_some (← gets (reservation_for_event o.event))) duplicate_event_reservation
  reservations ← gets (λ l. l.reservations)
  reject_if (leb o.max_entries (entries_today o.created reservations)) entry_count_limit_reached
  reject_if (leb o.max_open (count_open reservations)) expression_limit_reached
  reject_if (ltb o.aggregate (sum_open reservations + o.exposure)) budget_exceeded

module _ (host : Host) where
  pub order_payload : Order → Fields
  order_payload o = fields (
      (text "event_id", string o.event)
      ∷ (text "candidate_id", string o.candidate)
      ∷ (text "reservation_id", string (reservation_id_of o.event))
      ∷ (text "permit_id", string o.issued_permit_id)
      ∷ (text "permit_sha256", string o.permit_sha256)
      ∷ (text "risk_policy_sha256", string o.policy)
      ∷ (text "decision_sha256", string o.decision)
      ∷ (text "compiled_expression_sha256", string o.expression)
      ∷ (text "exposure", string (host.decimal_str o.exposure))
      ∷ [])

  unfoldable pub issue_body : Order → Action (Text × Text × Text)
  unfolding require_authorized order_payload
  issue_body o = do
    require_authorized o
    insert_reservation (reservation_id_of o.event) o.event o.exposure o.symbol o.created
    insert_permit o.issued_permit_id o.event (reservation_id_of o.event) o.permit_sha256 o.created
    append_passport host reservation_held (order_payload o) o.created
    append_passport host permit_issued (order_payload o) o.created
    pure (reservation_id_of o.event, o.issued_permit_id, o.permit_sha256)

  -- The validations in front of the transaction.
  unfoldable pub validated_order : Request → DebitVerticalPermit → ℕ → Action Order
  validated_order r permit now = do
    event ← check (identifier r.event_id)
    symbol ← check (underlying r.underlying)
    candidate ← check (identifier r.candidate_id)
    policy ← check (sha256 r.risk_policy_sha256)
    decision ← check (sha256 r.decision_sha256)
    expression ← check (sha256 r.expression_sha256)
    exposure ← check (amount r.amount)
    aggregate ← check (positive_limit r.aggregate_limit)
    max_open ← check (positive_int r.max_open_expressions)
    max_entries ← check (positive_int r.max_entries_per_day)
    reject_if (not (same permit.permit_id (debit_vertical_permit_id host permit))) unsupported_input
    pure (record {
      event = event;
      symbol = symbol;
      candidate = candidate;
      policy = policy;
      decision = decision;
      expression = expression;
      exposure = exposure;
      aggregate = aggregate;
      max_open = max_open;
      max_entries = max_entries;
      issued_permit_id = permit.permit_id;
      permit_sha256 = host.sha256_hex (debit_vertical_permit_bytes host permit);
      created = now;
    })

  unfoldable pub reserve_and_issue_permit :
      Request → DebitVerticalPermit → ℕ → Action (Text × Text × Text)
  reserve_and_issue_permit r permit now = do
    order ← validated_order r permit now
    transaction (integrity_as duplicate_event_reservation) (issue_body order)
