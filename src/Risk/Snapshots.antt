-- ===== src/Risk/Snapshots.antt =====
-- Broker-observed truth and its freshness (src/esscher/risk/snapshots.py). An instant is its number
-- of microseconds since year 1; the tests that a `datetime` is exact UTC are a reading's `malformed`.
pub mod Freshness
use esscher_market.Base.{
  ℕ, ◌-◌, ◌*◌, Bool, true, false, not, ◌||◌, Option, none, some, List, [], ◌∷◌, map, ltb, ◌==◌,
}
use esscher_market.Base.Int.{ℤ, pos, Decimal, finite, non_finite, ltb_ℤ}
use esscher_market.Base.Text.{Text, text, same, strip, upper}
use esscher_market.Base.Result.{Result, ok, err, ◌>>=◌, ◌>>◌, raise_if}
use esscher_market.Risk.Reasons.{
  RiskReason, unsupported_input, contradictory_truth, stale_account_truth, stale_position_truth,
  stale_order_truth, Checked,
}

-- `_require_decimal`.
unfoldable pub require_decimal : Decimal → Checked ℤ
require_decimal non_finite = err unsupported_input
require_decimal (finite x) = ok x

pub record AccountSnapshot : Type 0 where
  pub equity : ℤ
  pub buying_power : ℤ
  pub currency : Text
  pub observed_at : ℕ
  pub cash : Option ℤ

-- `self.cash is not None and _require_decimal(self.cash) < 0`.
require_cash : Option Decimal → Checked (Option ℤ)
require_cash none = ok none
require_cash (some value) = do
  cash ← require_decimal value
  raise_if (ltb_ℤ cash (pos 0)) unsupported_input
  ok (some cash)

-- `AccountSnapshot(...)` with its `__post_init__`.
unfoldable pub account_snapshot :
    Decimal → Decimal → Text → ℕ → Option Decimal → Checked AccountSnapshot
unfolding require_decimal require_cash
account_snapshot equity buying_power currency observed_at cash = do
  equity' ← require_decimal equity
  buying_power' ← require_decimal buying_power
  cash' ← require_cash cash
  raise_if (same currency []) unsupported_input
  ok (record {
    equity = equity';
    buying_power = buying_power';
    currency = currency;
    observed_at = observed_at;
    cash = cash';
  })

pub record PositionSnapshot : Type 0 where
  pub underlying : Text
  pub quantity : ℤ
  pub market_value : ℤ
  pub observed_at : ℕ

-- `PositionSnapshot(...)` with its `__post_init__`.
unfoldable pub position_snapshot : Text → Decimal → Decimal → ℕ → Checked PositionSnapshot
unfolding require_decimal
position_snapshot underlying quantity market_value observed_at = do
  raise_if (same underlying [] || not (same underlying (upper (strip underlying))))
      unsupported_input
  quantity' ← require_decimal quantity
  market_value' ← require_decimal market_value
  ok (record {
    underlying = underlying;
    quantity = quantity';
    market_value = market_value';
    observed_at = observed_at;
  })

pub record OrderSnapshot : Type 0 where
  pub order_id : Text
  pub symbol : Text
  pub status : Text
  pub filled_quantity : ℤ
  pub observed_at : ℕ

-- `OrderSnapshot(...)` with its `__post_init__`.
unfoldable pub order_snapshot : Text → Text → Text → Decimal → ℕ → Checked OrderSnapshot
unfolding require_decimal
order_snapshot order_id symbol status filled_quantity observed_at = do
  raise_if (same order_id []) unsupported_input
  raise_if (same symbol []) unsupported_input
  raise_if (same status []) unsupported_input
  filled ← require_decimal filled_quantity
  raise_if (ltb_ℤ filled (pos 0)) unsupported_input
  ok (record {
    order_id = order_id;
    symbol = symbol;
    status = status;
    filled_quantity = filled;
    observed_at = observed_at;
  })

-- `OrderSnapshot.is_partial_fill`.
unfoldable pub is_partial_fill : OrderSnapshot → Bool
is_partial_fill order = same order.status (text "PARTIALLY_FILLED")

-- Microseconds in a second.
abbrev pub second : ℕ
second = 1000000

-- `_validate_age`: the age of the observation, against a maximum in seconds.
unfoldable pub validate_age : RiskReason → ℕ → ℕ → ℕ → Checked (Unit {0})
validate_age stale_reason max_age_seconds now observed_at = do
  raise_if (ltb now observed_at) contradictory_truth
  raise_if (ltb (max_age_seconds * second) (now - observed_at)) stale_reason

unfoldable pub validate_account_freshness : ℕ → ℕ → Option AccountSnapshot → Checked AccountSnapshot
unfolding validate_age
validate_account_freshness max_age_seconds now none = err stale_account_truth
validate_account_freshness max_age_seconds now (some account) =
    validate_age stale_account_truth max_age_seconds now account.observed_at >> ok account

-- The loop `for index, snapshot in enumerate(values)` over the times of observation.
unfoldable pub validate_ages : RiskReason → ℕ → ℕ → List ℕ → Checked (Unit {0})
unfolding validate_age
validate_ages stale_reason max_age_seconds now [] = ok tt
validate_ages stale_reason max_age_seconds now (observed_at ∷ rest) =
    let later = validate_ages stale_reason max_age_seconds now rest in
    validate_age stale_reason max_age_seconds now observed_at >> later

unfoldable pub validate_positions_freshness :
    ℕ → ℕ → List PositionSnapshot → Checked (List PositionSnapshot)
validate_positions_freshness max_age_seconds now values = do
  validate_ages stale_position_truth max_age_seconds now (map (λ p. p.observed_at) values)
  ok values

unfoldable pub validate_orders_freshness : ℕ → ℕ → List OrderSnapshot → Checked (List OrderSnapshot)
validate_orders_freshness max_age_seconds now values = do
  validate_ages stale_order_truth max_age_seconds now (map (λ o. o.observed_at) values)
  ok values
