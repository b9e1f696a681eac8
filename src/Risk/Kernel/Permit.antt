-- ===== src/Risk/Kernel/Permit.antt =====
-- The permit that a caller presents, against the compiled expression (src/esscher/risk/kernel.py).
use esscher_market.Base.{ℕ, Bool, true, false, not, ◌&&◌, ◌||◌, Option, none, some, ltb, leb, ◌==◌}
use esscher_market.Base.Text.{Text, text, same}
use esscher_market.Base.Json.{Fields, get_value, is_text, is_integer, object_value, Host}
use esscher_market.Base.Result.{ok, err, ◌>>=◌, ◌>>◌, raise_if}
use esscher_market.Execution.Expression.{ExpressionKind, debit_vertical, CompiledExpression}
use esscher_market.Execution.Models.{
  OptionLeg, DebitVerticalPermit, vertical_text, option_text, permit_underlying, maximum_loss,
  debit_vertical_permit_id,
}
use esscher_market.Risk.Reasons.{unsupported_input, Checked}
use esscher_market.Risk.Exposure.{expression_exposure}

abbrev pub is_vertical : ExpressionKind → Bool
is_vertical debit_vertical = true
is_vertical _ = false

-- The lineage comparison of `_validate_permit_binding`.
abbrev pub is_lineage : DebitVerticalPermit → CompiledExpression → Text → Bool
is_lineage permit compiled policy =
    same permit.event_run_id compiled.event_id
    && same permit.decision_sha256 compiled.decision_sha256
    && same permit.snapshot_sha256 compiled.snapshot_sha256
    && same permit.policy_sha256 policy

module _ (host : Host) where
  -- The three entries of one leg in `observed` and `expected`.
  abbrev pub is_leg : Option Fields → OptionLeg → Bool
  is_leg none leg = false
  is_leg (some block) leg =
      is_text leg.symbol (get_value (text "symbol") block)
      && is_text (option_text leg.option_type) (get_value (text "option_type") block)
      && is_text (host.decimal_str leg.strike) (get_value (text "strike") block)

  -- `observed == expected`.
  abbrev pub is_expression_of : DebitVerticalPermit → Fields → Bool
  is_expression_of permit block =
      is_text (permit_underlying permit) (get_value (text "underlying") block)
      && is_text (vertical_text permit.vertical_type) (get_value (text "vertical_type") block)
      && is_integer permit.quantity (get_value (text "quantity") block)
      && is_text (host.decimal_str permit.limit_price) (get_value (text "limit_price") block)
      && is_leg (object_value (get_value (text "long_leg") block)) permit.long_leg
      && is_leg (object_value (get_value (text "short_leg") block)) permit.short_leg

  -- The block of the vertical, or the rejection where it is not a mapping.
  abbrev pub vertical_block : CompiledExpression → Checked Fields
  vertical_block compiled = elim compiled.debit_vertical_block [
    | none ↦ err unsupported_input
    | some block ↦ ok block
  ]

  -- `_validate_permit_binding`.
  unfoldable pub validate_permit_binding :
      DebitVerticalPermit → CompiledExpression → Text → ℕ → Checked (Unit {0})
  validate_permit_binding permit compiled active_policy now = do
    raise_if (not (is_vertical compiled.expression_kind)) unsupported_input
    raise_if (not (same permit.permit_id (debit_vertical_permit_id host permit))) unsupported_input
    raise_if (ltb now permit.issued_at || leb permit.expires_at now) unsupported_input
    raise_if (not (is_lineage permit compiled active_policy)) unsupported_input
    block ← vertical_block compiled
    raise_if (not (is_expression_of permit block)) unsupported_input
    exposure ← expression_exposure host compiled
    raise_if (not (maximum_loss permit == exposure)) unsupported_input
