-- ===== src/Risk/Kernel/Binding.antt =====
-- The identities that a caller must present, against the frozen candidate (src/esscher/risk/kernel.py).
use esscher_market.Base.{
  ℕ, Bool, true, false, not, ◌&&◌, Option, none, some, is_some, if◌then◌else◌,
}
use esscher_market.Base.Text.{Text, text, same}
use esscher_market.Base.Json.{Json, Fields, get_value, text_value, Host}
use esscher_market.Base.Result.{err}
use esscher_market.Execution.Expression.{
  ExpressionKind, cash_no_trade, shares, one_long_option, debit_vertical, CompiledExpression,
  compiled_expression_sha256,
}
use esscher_market.Risk.Reasons.{unsupported_input, not_run_event, policy_hash_mismatch, Checked}
use esscher_market.Risk.Checks.{identifier, underlying}
use esscher_market.Risk.Policy.{RiskPolicy, risk_policy_sha256}
use esscher_market.Risk.Ledger.Rows.{Candidate}
use esscher_market.Risk.Ledger.Monad.{Action, pure, reject_if, gets, check, or_reject, ◌>>=◌, ◌>>◌}
use esscher_market.Risk.Ledger.Queries.{candidate_for_event, not_run_exists}
use esscher_market.Risk.Ledger.Candidates.{freeze_candidate, record_not_run}

-- `_underlying` of a value of any type.
abbrev pub underlying_value : Option Json → Checked Text
underlying_value value = elim (text_value value) [
  | none ↦ err unsupported_input
  | some name ↦ underlying name
]

-- The block that the kind selects; cash has none to authorize.
abbrev pub position_block : CompiledExpression → Option Fields
position_block c = elim c.expression_kind [
  | cash_no_trade ↦ none
  | shares ↦ c.shares_block
  | one_long_option ↦ c.long_option_block
  | debit_vertical ↦ c.debit_vertical_block
]

abbrev pub is_shares : ExpressionKind → Bool
is_shares shares = true
is_shares _ = false

-- `block.get("underlying")`, or for shares `block.get("symbol")` where that is `None`.
abbrev pub underlying_field : ExpressionKind → Fields → Option Json
underlying_field kind block =
    if is_some (get_value (text "underlying") block)
    then get_value (text "underlying") block
    else (if is_shares kind then get_value (text "symbol") block else none)

-- `_compiled_underlying`: every way it fails has the reason `UNSUPPORTED_INPUT`.
unfoldable pub compiled_underlying : CompiledExpression → Checked Text
compiled_underlying c = elim (position_block c) [
  | none ↦ err unsupported_input
  | some block ↦ underlying_value (underlying_field c.expression_kind block)
]

module _ (host : Host) (policy : RiskPolicy) where
  -- `RiskKernel.freeze_candidate`.
  unfoldable pub freeze : Text → Text → CompiledExpression → Text → ℕ → Action (Unit {0})
  freeze event_id candidate_id compiled evidence_mode now = do
    event ← check (identifier event_id)
    candidate ← check (identifier candidate_id)
    compiled_event ← check (identifier compiled.event_id)
    reject_if (not (same event compiled_event)) unsupported_input
    decision ← check (identifier compiled.decision_sha256)
    evidence ← check (identifier evidence_mode)
    freeze_candidate host (record {
      event_id = event;
      candidate_id = candidate;
      policy_sha256 = risk_policy_sha256 host policy;
      decision_sha256 = decision;
      expression_sha256 = compiled_expression_sha256 host compiled;
      evidence_mode = evidence;
      created_at = now;
    })

  -- `RiskKernel.mark_not_run`.
  unfoldable pub mark_not_run : Text → Text → ℕ → Action (Unit {0})
  mark_not_run event_id reason now = do
    event ← check (identifier event_id)
    why ← check (identifier reason)
    record_not_run host (record { event_id = event; reason = why; created_at = now }) true

  -- The loop over `expected` against the frozen row.
  abbrev pub is_frozen_as : Text → CompiledExpression → Candidate → Bool
  is_frozen_as candidate compiled frozen =
      same frozen.candidate_id candidate
      && same frozen.decision_sha256 compiled.decision_sha256
      && same frozen.expression_sha256 (compiled_expression_sha256 host compiled)

  -- `_validate_candidate_binding`, with the event, the underlying and the active policy's identity.
  unfoldable pub validate_candidate_binding :
      Text → Text → Text → CompiledExpression → Action (Text × Text × Text)
  unfolding compiled_underlying
  validate_candidate_binding event_id caller_underlying candidate_id compiled = do
    event ← check (identifier event_id)
    symbol ← check (underlying caller_underlying)
    candidate ← check (identifier candidate_id)
    compiled_event ← check (identifier compiled.event_id)
    reject_if (not (same event compiled_event)) unsupported_input
    compiled_symbol ← check (compiled_underlying compiled)
    reject_if (not (same symbol compiled_symbol)) unsupported_input
    reject_if (← gets (not_run_exists event)) not_run_event
    frozen ← or_reject unsupported_input (← gets (candidate_for_event event))
    reject_if (not (same frozen.policy_sha256 (risk_policy_sha256 host policy)))
        policy_hash_mismatch
    decision ← check (identifier compiled.decision_sha256)
    reject_if (not (is_frozen_as candidate compiled frozen)) unsupported_input
    pure (event, symbol, risk_policy_sha256 host policy)
