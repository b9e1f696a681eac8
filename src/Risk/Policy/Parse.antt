-- ===== src/Risk/Policy/Parse.antt =====
-- The strict parser of risk-policy bytes (src/esscher/risk/policy.py). The seven decimals are read in
-- the order of the class; Python reads them in the order of a frozenset, which only decides which of
-- several bad fields is named.
use esscher_market.Base.{
  ℕ, Bool, true, not, ◌&&◌, Option, none, some, List, [], ◌∷◌, all, any, leb, is_some,
}
use esscher_market.Base.Int.{pos, negsuc, Decimal, finite, non_finite}
use esscher_market.Base.Text.{Text, text, same}
use esscher_market.Base.Json.{
  Json, number, string, array, object, Items, nil, cons, Fields, end, field, get, is_text,
  is_integer, Host,
}
use esscher_market.Base.Result.{Result, ok, err, ◌>>=◌, ◌>>◌, raise_if}
use esscher_market.Risk.Reasons.{
  RiskReason, unsupported_input, policy_not_paper_only, policy_unverified_constant,
  exposure_not_calculable,
}
use esscher_market.Risk.Policy.{RiskPolicy, is_risk_policy, risk_policy_bytes}

-- A `RiskRejected`, or the `ValueError` of `RiskPolicy.__post_init__`.
pub data PolicyFailure : Type 0 where
  rejected : RiskReason → PolicyFailure
  value_error : PolicyFailure

-- `json.loads` with the pairs of every object kept as they stand, `none` where it raises or meets a
-- non-finite constant, `str` of a parsed value, and `str(Decimal(value))` of a text that is a decimal.
pub record Reader : Type 0 where
  pub loads_pairs : Text → Option Json
  pub str_of : Json → Text
  pub spelling_of : Text → Text

-- The names of the pairs of an object.
unfoldable pub names : Fields → List Text
names end = []
names (field name _ rest) = name ∷ names rest

-- `_unique_object` on every object of a value, true where it raises nothing.
unfoldable mutual
  pub is_unique : Json → Bool
  is_unique (array xs) = is_unique_items xs
  is_unique (object fs) = is_unique_fields fs
  is_unique _ = true

  is_unique_items : Items → Bool
  is_unique_items nil = true
  is_unique_items (cons v rest) = is_unique v && is_unique_items rest

  pub is_unique_fields : Fields → Bool
  is_unique_fields end = true
  is_unique_fields (field name v rest) =
      not (any (same name) (names rest)) && (is_unique v && is_unique_fields rest)

-- `_POLICY_FIELDS`.
abbrev pub policy_fields : List Text
policy_fields =
    text "schema"
    ∷ text "schema_version"
    ∷ text "policy_id"
    ∷ text "version"
    ∷ text "run_mode"
    ∷ text "account_capital"
    ∷ text "per_event_loss_budget"
    ∷ text "aggregate_exposure_limit"
    ∷ text "daily_loss_limit"
    ∷ text "drawdown_limit"
    ∷ text "concentration_limit"
    ∷ text "max_entries_per_day"
    ∷ text "max_open_expressions"
    ∷ text "close_only_equity_threshold"
    ∷ text "truth_max_age_seconds"
    ∷ text "constants_source_sha256"
    ∷ []

-- `not missing and not unknown`.
unfoldable pub has_policy_fields : Fields → Bool
has_policy_fields fs =
    all (λ name. is_some (get name fs)) policy_fields
    && all (λ name. any (same name) policy_fields) (names fs)

-- `_positive_int`.
unfoldable pub positive_int_field : Option Json → Result PolicyFailure ℕ
positive_int_field (some (number (pos n))) =
    raise_if (leb n 0) (rejected policy_unverified_constant) >> ok n
positive_int_field _ = err (rejected policy_unverified_constant)

abbrev pub positive_amount : Option Decimal → Result PolicyFailure ℕ
positive_amount none = err (rejected unsupported_input)
positive_amount (some non_finite) = err (rejected exposure_not_calculable)
positive_amount (some (finite (negsuc _))) = err (rejected policy_unverified_constant)
positive_amount (some (finite (pos n))) =
    raise_if (leb n 0) (rejected policy_unverified_constant) >> ok n

module _ (host : Host) where
  module _ (reader : Reader) where
    -- `_positive_decimal`: the value of the decimal and its `str`.
    unfoldable pub positive_decimal : Option Json → Result PolicyFailure (ℕ × Text)
    positive_decimal (some (string t)) = do
      value ← positive_amount (host.decimal_of (string t))
      ok (value, reader.spelling_of t)
    positive_decimal _ = err (rejected unsupported_input)

    -- The value that `json.loads` gives, and the test that its root is an object.
    abbrev pub root_fields : Option Json → Result PolicyFailure Fields
    root_fields (some (object fs)) =
        raise_if (not (is_unique_fields fs)) (rejected unsupported_input) >> ok fs
    root_fields _ = err (rejected unsupported_input)

    -- `str(payload[name])` of a name that is there.
    abbrev pub str_field : Option Json → Text
    str_field none = []
    str_field (some value) = reader.str_of value

    -- The construction of the policy and the test that its bytes are the input.
    unfoldable pub canonical_policy : Text → RiskPolicy → Result PolicyFailure RiskPolicy
    canonical_policy raw p = do
      raise_if (not (is_risk_policy p)) value_error
      raise_if (not (same (risk_policy_bytes host p) raw)) (rejected unsupported_input)
      ok p

    unfoldable pub policy_of : Text → Fields → Result PolicyFailure RiskPolicy
    unfolding canonical_policy
    policy_of raw payload = do
      raise_if (not (has_policy_fields payload)) (rejected unsupported_input)
      raise_if
          (not (is_text (text "esscher.paper_account_risk_policy") (get (text "schema") payload)))
          (rejected unsupported_input)
      raise_if (not (is_integer (pos 1) (get (text "schema_version") payload)))
          (rejected unsupported_input)
      raise_if (not (is_text (text "PAPER") (get (text "run_mode") payload)))
          (rejected policy_not_paper_only)
      capital ← positive_decimal (get (text "account_capital") payload)
      budget ← positive_decimal (get (text "per_event_loss_budget") payload)
      aggregate ← positive_decimal (get (text "aggregate_exposure_limit") payload)
      daily ← positive_decimal (get (text "daily_loss_limit") payload)
      drawdown ← positive_decimal (get (text "drawdown_limit") payload)
      concentration ← positive_decimal (get (text "concentration_limit") payload)
      threshold ← positive_decimal (get (text "close_only_equity_threshold") payload)
      entries ← positive_int_field (get (text "max_entries_per_day") payload)
      expressions ← positive_int_field (get (text "max_open_expressions") payload)
      age ← positive_int_field (get (text "truth_max_age_seconds") payload)
      canonical_policy raw (record {
        policy_id = str_field (get (text "policy_id") payload);
        version = str_field (get (text "version") payload);
        run_mode = str_field (get (text "run_mode") payload);
        account_capital = capital.0;
        per_event_loss_budget = budget.0;
        aggregate_exposure_limit = aggregate.0;
        daily_loss_limit = daily.0;
        drawdown_limit = drawdown.0;
        concentration_limit = concentration.0;
        max_entries_per_day = entries;
        max_open_expressions = expressions;
        close_only_equity_threshold = threshold.0;
        truth_max_age_seconds = age;
        constants_source_sha256 = str_field (get (text "constants_source_sha256") payload);
        spellings = record {
          account_capital = capital.1;
          per_event_loss_budget = budget.1;
          aggregate_exposure_limit = aggregate.1;
          daily_loss_limit = daily.1;
          drawdown_limit = drawdown.1;
          concentration_limit = concentration.1;
          close_only_equity_threshold = threshold.1;
        };
      })

    unfoldable pub parse_risk_policy : Text → Result PolicyFailure RiskPolicy
    unfolding policy_of
    parse_risk_policy raw = root_fields (reader.loads_pairs raw) >>= policy_of raw
