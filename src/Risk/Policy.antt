-- ===== src/Risk/Policy.antt =====
-- The version 1 risk policy and its identity (src/esscher/risk/policy.py). A `decimal.Decimal` of the
-- policy is two things here: its value, a number of units, which is what comparisons read, and its
-- `str`, which also shows the exponent: 500 and 500.00 are equal and have different payloads.
pub mod Parse
pub mod Names
pub mod RoundTrip
use esscher_market.Base.{ℕ, Bool, not, ◌&&◌, [], ◌∷◌, ltb}
use esscher_market.Base.Int.{pos}
use esscher_market.Base.Text.{Text, text, same}
use esscher_market.Base.Json.{number, string, object, Fields, fields, Host}
use esscher_market.Risk.Checks.{is_sha256}

-- `str` of each decimal of a policy.
pub record Spellings : Type 0 where
  pub account_capital : Text
  pub per_event_loss_budget : Text
  pub aggregate_exposure_limit : Text
  pub daily_loss_limit : Text
  pub drawdown_limit : Text
  pub concentration_limit : Text
  pub close_only_equity_threshold : Text

pub record RiskPolicy : Type 0 where
  pub policy_id : Text
  pub version : Text
  pub run_mode : Text
  pub account_capital : ℕ
  pub per_event_loss_budget : ℕ
  pub aggregate_exposure_limit : ℕ
  pub daily_loss_limit : ℕ
  pub drawdown_limit : ℕ
  pub concentration_limit : ℕ
  pub max_entries_per_day : ℕ
  pub max_open_expressions : ℕ
  pub close_only_equity_threshold : ℕ
  pub truth_max_age_seconds : ℕ
  pub constants_source_sha256 : Text
  pub spellings : Spellings

-- `RiskPolicy.__post_init__`, true where it raises nothing.
unfoldable pub is_risk_policy : RiskPolicy → Bool
is_risk_policy p =
    not (same p.policy_id [])
    && not (same p.version [])
    && same p.run_mode (text "PAPER")
    && ltb 0 p.account_capital
    && ltb 0 p.per_event_loss_budget
    && ltb 0 p.aggregate_exposure_limit
    && ltb 0 p.daily_loss_limit
    && ltb 0 p.drawdown_limit
    && ltb 0 p.concentration_limit
    && ltb 0 p.close_only_equity_threshold
    && ltb 0 p.max_entries_per_day
    && ltb 0 p.max_open_expressions
    && ltb 0 p.truth_max_age_seconds

-- The property `constants_verified`.
unfoldable pub constants_verified : RiskPolicy → Bool
unfolding is_sha256
constants_verified p = is_sha256 p.constants_source_sha256

module _ (host : Host) where
  open host use {dumps, sha256_hex}

  unfoldable pub risk_policy_payload : RiskPolicy → Fields
  risk_policy_payload p = fields (
      (text "schema", string (text "esscher.paper_account_risk_policy"))
      ∷ (text "schema_version", number (pos 1))
      ∷ (text "policy_id", string p.policy_id)
      ∷ (text "version", string p.version)
      ∷ (text "run_mode", string p.run_mode)
      ∷ (text "account_capital", string p.spellings.account_capital)
      ∷ (text "per_event_loss_budget", string p.spellings.per_event_loss_budget)
      ∷ (text "aggregate_exposure_limit", string p.spellings.aggregate_exposure_limit)
      ∷ (text "daily_loss_limit", string p.spellings.daily_loss_limit)
      ∷ (text "drawdown_limit", string p.spellings.drawdown_limit)
      ∷ (text "concentration_limit", string p.spellings.concentration_limit)
      ∷ (text "max_entries_per_day", number (pos p.max_entries_per_day))
      ∷ (text "max_open_expressions", number (pos p.max_open_expressions))
      ∷ (text "close_only_equity_threshold", string p.spellings.close_only_equity_threshold)
      ∷ (text "truth_max_age_seconds", number (pos p.truth_max_age_seconds))
      ∷ (text "constants_source_sha256", string p.constants_source_sha256)
      ∷ [])

  abbrev pub risk_policy_bytes : RiskPolicy → Text
  risk_policy_bytes p = dumps (object (risk_policy_payload p))

  unfoldable pub risk_policy_sha256 : RiskPolicy → Text
  risk_policy_sha256 p = sha256_hex (risk_policy_bytes p)
