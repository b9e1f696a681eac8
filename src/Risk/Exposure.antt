-- ===== src/Risk/Exposure.antt =====
-- The worst-case exposure of a compiled expression (src/esscher/risk/exposure.py).
use esscher_market.Base.{ℕ, ◌+◌, Option, none, some, List, [], ◌∷◌}
use esscher_market.Base.Int.{Decimal}
use esscher_market.Base.Text.{Text, text}
use esscher_market.Base.Json.{Json, Fields, get_value, Host}
use esscher_market.Base.Result.{ok, err, ◌>>=◌}
use esscher_market.Execution.Expression.{
  cash_no_trade, shares, one_long_option, debit_vertical, CompiledExpression,
}
use esscher_market.Risk.Reasons.{exposure_not_calculable, Checked}
use esscher_market.Risk.Checks.{amount}

module _ (host : Host) where
  open host use {decimal_of}

  -- `Decimal(str(value))` of a field, finite and not negative.
  unfoldable pub decimal_value : Option Json → Checked ℕ
  decimal_value none = err exposure_not_calculable
  decimal_value (some value) = elim (decimal_of value) [
    | none ↦ err exposure_not_calculable
    | some d ↦ amount d
  ]

  -- `_decimal_field` on a block that may be missing.
  unfoldable pub decimal_field : Option Fields → Text → Checked ℕ
  unfolding decimal_value
  decimal_field none name = err exposure_not_calculable
  decimal_field (some block) name = decimal_value (get_value name block)

  unfoldable pub expression_exposure : CompiledExpression → Checked ℕ
  expression_exposure c = elim c.expression_kind [
    | cash_no_trade ↦ ok 0
    | shares ↦ decimal_field c.shares_block (text "exposure")
    | one_long_option ↦ decimal_field c.long_option_block (text "premium_at_risk")
    | debit_vertical ↦ decimal_field c.debit_vertical_block (text "maximum_loss")
  ]

-- `aggregate_exposure` over the values of the mapping.
unfoldable pub aggregate_exposure : List Decimal → Checked ℕ
aggregate_exposure [] = ok 0
aggregate_exposure (value ∷ rest) = do
  exposure ← amount value
  total ← aggregate_exposure rest
  ok (exposure + total)

-- `concentration_exposure` over the items of the mapping; a valid exposure is its own absolute value.
unfoldable pub concentration_exposure : List (Text × Decimal) → Checked (List (Text × ℕ))
concentration_exposure [] = ok []
concentration_exposure ((underlying, value) ∷ rest) = do
  exposure ← amount value
  others ← concentration_exposure rest
  ok ((underlying, exposure) ∷ others)
