-- ===== src/Execution/Expression.antt =====
-- Compiled expressions as the kernel reads them (src/esscher/execution/expression/compiler.py). A
-- position block is a dict of the model's JSON values, and every such value can be written as JSON.
use esscher_market.Base.{
  ℕ, ◌+◌, Bool, true, false, not, ◌&&◌, Option, none, some, [], ◌∷◌, ◌==◌, length, if◌then◌else◌,
}
use esscher_market.Base.Int.{pos}
use esscher_market.Base.Text.{Text, text, same}
use esscher_market.Base.Json.{
  Json, null, bool, number, string, object, Fields, end, field, fields, Host,
}

pub data ExpressionKind : Type 0 where
  cash_no_trade shares one_long_option debit_vertical : ExpressionKind

abbrev pub kind_text : ExpressionKind → Text
kind_text cash_no_trade = text "CASH_NO_TRADE"
kind_text shares = text "SHARES"
kind_text one_long_option = text "ONE_LONG_OPTION"
kind_text debit_vertical = text "DEBIT_VERTICAL"

pub record CompiledExpression : Type 0 where
  pub expression_kind : ExpressionKind
  pub event_id : Text
  pub decision_sha256 : Text
  pub snapshot_sha256 : Text
  pub policy_sha256 : Text
  pub gate_d_report_sha256 : Text
  pub compiled_at : ℕ
  pub shares_block : Option Fields
  pub long_option_block : Option Fields
  pub debit_vertical_block : Option Fields

-- `1 for block in (...) if block`: a dict with no fields counts for nothing.
filled_blocks : Option Fields → ℕ
filled_blocks none = 0
filled_blocks (some end) = 0
filled_blocks (some (field _ _ _)) = 1

is_cash : ExpressionKind → Bool
is_cash cash_no_trade = true
is_cash _ = false

-- `CompiledExpression.__post_init__`, true where it raises nothing.
unfoldable pub is_compiled_expression : CompiledExpression → Bool
unfolding filled_blocks is_cash
is_compiled_expression c =
    not (same c.event_id [])
    && (length c.decision_sha256 == 64)
    && (length c.snapshot_sha256 == 64)
    && (length c.policy_sha256 == 64)
    && (length c.gate_d_report_sha256 == 64)
    && ((filled_blocks c.shares_block
          + filled_blocks c.long_option_block
          + filled_blocks c.debit_vertical_block)
        == (if is_cash c.expression_kind then 0 else 1))

abbrev pub block_json : Option Fields → Json
block_json none = null
block_json (some fs) = object fs

module _ (host : Host) where
  open host use {dumps, sha256_hex, isoformat_z}

  -- `compiled_expression_payload`.
  compiled_expression_payload : CompiledExpression → Fields
  compiled_expression_payload c = fields (
      (text "schema", string (text "esscher.compiled_expression"))
      ∷ (text "schema_version", number (pos 1))
      ∷ (text "expression_kind", string (kind_text c.expression_kind))
      ∷ (text "event_id", string c.event_id)
      ∷ (text "decision_sha256", string c.decision_sha256)
      ∷ (text "snapshot_sha256", string c.snapshot_sha256)
      ∷ (text "policy_sha256", string c.policy_sha256)
      ∷ (text "gate_d_report_sha256", string c.gate_d_report_sha256)
      ∷ (text "compiled_at", string (isoformat_z c.compiled_at))
      ∷ (text "shares", block_json c.shares_block)
      ∷ (text "long_option", block_json c.long_option_block)
      ∷ (text "debit_vertical", block_json c.debit_vertical_block)
      ∷ (text "no_package", bool false)
      ∷ [])

  unfoldable pub compiled_expression_sha256 : CompiledExpression → Text
  unfolding compiled_expression_payload
  compiled_expression_sha256 c = sha256_hex (dumps (object (compiled_expression_payload c)))
